-- ===== src/Member/Downstream.antt =====
-- common/src/board_state/member.rs: the members below a member, and the test for banned members.
-- The loop of `get_downstream_members` ends only if invitations make no circle, so it takes fuel;
-- `none` means that the fuel was used up. A stack is a list with its top first.
use free_talk.Shared.{
  ℕ, zero, suc, ◌+◌, Bool, true, false, not, List, [], ◌∷◌, ◌++◌, Option, none, some, if◌then◌else◌,
  length, is_empty, contains, any, map, retain, ◌==◌, nat_eq,
}
use free_talk.Shared.HashMap
use free_talk.Shared.HashMap.{HashMap}
use free_talk.Shared.HashSet
use free_talk.Shared.HashSet.{HashSet}
use free_talk.Model.{
  Crypto, MemberId, AuthorizedMember, AuthorizedUserBan, ChatBoardParametersV1, member_id,
}
use free_talk.Member.Chain.{invited_by, members_by_member_id, owner_id}

abbrev pub banned_user : AuthorizedUserBan → MemberId
banned_user b = b.ban.banned_user

module _ (c : Crypto) where
  -- The `for` loop over the members, at the member that was taken from the stack.
  unfoldable pub visit :
      List AuthorizedMember
      → MemberId
      → HashSet MemberId
      → List MemberId
      → HashSet MemberId × List MemberId
  visit [] current downstream to_check = (downstream, to_check)
  visit (m ∷ members) current downstream to_check =
      let invited = invited_by m == current in
      visit members current
        (if invited then HashSet.insert (member_id c m) downstream else downstream)
        (if invited then member_id c m ∷ to_check else to_check)

  -- The `while` loop.
  unfoldable pub downstream_loop :
      List AuthorizedMember
      → (fuel : ℕ) → HashSet MemberId
      → List MemberId
      → Option (HashSet MemberId)
  unfolding visit
  downstream_loop members fuel downstream [] = some downstream
  downstream_loop members zero downstream (current ∷ to_check) = none
  downstream_loop members (suc fuel) downstream (current ∷ to_check) =
      let next = visit members current downstream to_check in
      downstream_loop members fuel next.0 next.1

  unfoldable pub get_downstream_members :
      List AuthorizedMember → (fuel : ℕ) → MemberId → Option (HashSet MemberId)
  unfolding downstream_loop
  get_downstream_members members fuel id = downstream_loop members fuel [] (id ∷ [])

  -- The loop of `remove_banned_members` over the bans.
  unfoldable pub banned_ids :
      List AuthorizedMember
      → (fuel : ℕ) → HashSet MemberId
      → List AuthorizedUserBan
      → Option (HashSet MemberId)
  banned_ids members fuel ids [] = some ids
  banned_ids members fuel ids (b ∷ bans) =
      elim (get_downstream_members members fuel (banned_user b)) [
        | none ↦ none
        | some downstream ↦
            banned_ids members fuel (HashSet.extend (HashSet.insert (banned_user b) ids) downstream)
              bans
      ]

  unfoldable pub remove_banned_members :
      List AuthorizedMember → (fuel : ℕ) → List AuthorizedUserBan → Option (List AuthorizedMember)
  remove_banned_members members fuel bans = elim (banned_ids members fuel [] bans) [
    | none ↦ none
    | some ids ↦ some (retain (λ m. not (contains ids (member_id c m))) members)
  ]

  -- The loop of `invite_chain_ids`.
  unfoldable pub chain_ids_loop :
      MemberId
      → HashMap MemberId AuthorizedMember
      → (fuel : ℕ) → HashSet MemberId
      → MemberId
      → List MemberId
      → Option (List MemberId)
  chain_ids_loop owner members_by_id zero visited current chain_ids = none
  chain_ids_loop owner members_by_id (suc fuel) visited current chain_ids =
      if current == owner
      then some chain_ids
      else if contains visited current
      then some chain_ids
      else elim (HashMap.get current members_by_id) [
        | none ↦ some (chain_ids ++ current ∷ [])
        | some inviter ↦
            chain_ids_loop owner members_by_id fuel (HashSet.insert current visited)
              (invited_by inviter) (chain_ids ++ current ∷ [])
      ]

  unfoldable pub invite_chain_ids :
      AuthorizedMember → MemberId → HashMap MemberId AuthorizedMember → Option (List MemberId)
  unfolding chain_ids_loop
  invite_chain_ids member owner members_by_id =
      chain_ids_loop owner members_by_id (length members_by_id + 2) (member_id c member ∷ [])
        (invited_by member) (member_id c member ∷ [])

  some_banned : HashSet MemberId → Option (List MemberId) → Bool
  some_banned banned none = false
  some_banned banned (some ids) = any (contains banned) ids

  -- The loop of `check_banned_members`.
  banned_members :
      MemberId
      → HashMap MemberId AuthorizedMember
      → HashSet MemberId
      → HashSet MemberId
      → List AuthorizedMember
      → HashSet MemberId
  unfolding invite_chain_ids some_banned
  banned_members owner members_by_id banned result [] = result
  banned_members owner members_by_id banned result (m ∷ members) =
      banned_members owner members_by_id banned
        (if some_banned banned (invite_chain_ids m owner members_by_id)
          then HashSet.insert (member_id c m) result
          else result)
        members

  unfoldable pub check_banned_members :
      List AuthorizedMember
      → List AuthorizedUserBan
      → ChatBoardParametersV1
      → Option (HashSet MemberId)
  unfolding banned_members
  check_banned_members self bans parameters =
      let banned = HashSet.collect (map banned_user bans) in
      let result =
        banned_members (owner_id c parameters) (members_by_member_id c self) banned [] self in
      if is_empty banned then none else if is_empty result then none else some result

  unfoldable pub has_banned_members :
      List AuthorizedMember → List AuthorizedUserBan → ChatBoardParametersV1 → Bool
  unfolding check_banned_members
  has_banned_members self bans parameters = elim (check_banned_members self bans parameters) [
    | none ↦ false
    | some ids ↦ true
  ]

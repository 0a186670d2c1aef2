-- ===== src/Cleanup.antt =====
-- common/src/board_state.rs: what every accepted delta ends with. The loop up the invitations takes
-- fuel; `none` means that the fuel was used up. A stack is a list with its top first.
use free_talk.Shared.{
  ℕ, zero, suc, ◌+◌, Bool, true, false, not, ◌||◌, ◌&&◌, List, [], ◌∷◌, Option, none, some,
  if◌then◌else◌, length, contains, map, retain, ◌==◌, nat_eq,
}
use free_talk.Shared.HashMap
use free_talk.Shared.HashMap.{HashMap}
use free_talk.Shared.HashSet
use free_talk.Shared.HashSet.{HashSet}
use free_talk.Shared.Order.{sort_by_key}
use free_talk.Model.{
  Crypto, MemberId, AuthorizedMember, AuthorizedUserBan, AuthorizedMemberInfo, AuthorizedMessageV1,
  ChatBoardStateV1, ChatBoardParametersV1, member_id,
}
use free_talk.Member.Chain.{invited_by, owner_id, members_by_member_id}
use free_talk.Member.Downstream.{banned_user}
pub mod Required
pub mod Ends
pub mod Keeps
mod Tests

abbrev pub info_id : AuthorizedMemberInfo → MemberId
info_id i = i.member_info.member_id

abbrev pub message_authors : ChatBoardStateV1 → HashSet MemberId
message_authors self =
    HashSet.collect
      (map (λ (m : AuthorizedMessageV1). m.message.author) self.recent_messages.messages)

-- The `for` loop over the authors.
unfoldable pub author_ids :
    MemberId
    → HashMap MemberId AuthorizedMember
    → HashSet MemberId
    → List MemberId
    → HashSet MemberId
author_ids owner members_by_id required [] = required
author_ids owner members_by_id required (a ∷ authors) =
    author_ids owner members_by_id
      (if not (a == owner) && HashMap.contains_key a members_by_id
        then HashSet.insert a required
        else required)
      authors

-- The `while let` loop.
unfoldable pub ancestor_loop :
    MemberId
    → HashMap MemberId AuthorizedMember
    → (fuel : ℕ) → HashSet MemberId
    → List MemberId
    → Option (HashSet MemberId)
ancestor_loop owner members_by_id fuel required [] = some required
ancestor_loop owner members_by_id zero required (id ∷ to_process) = none
ancestor_loop owner members_by_id (suc fuel) required (id ∷ to_process) =
    elim (HashMap.get id members_by_id) [
      | none ↦ ancestor_loop owner members_by_id fuel required to_process
      | some m ↦
          let fresh = not (invited_by m == owner) && not (contains required (invited_by m)) in
          ancestor_loop owner members_by_id fuel
            (if fresh then HashSet.insert (invited_by m) required else required)
            (if fresh then invited_by m ∷ to_process else to_process)
    ]

module _ (c : Crypto) where
  -- Each round takes an author from the stack, or an inviter that was added once.
  unfoldable pub required_ids : ChatBoardStateV1 → ChatBoardParametersV1 → Option (HashSet MemberId)
  unfolding author_ids ancestor_loop
  required_ids self parameters =
      let members_by_id = members_by_member_id c self.members in
      let authors = author_ids (owner_id c parameters) members_by_id [] (message_authors self) in
      ancestor_loop (owner_id c parameters) members_by_id (length authors + length members_by_id)
        authors authors

  -- A ban that is not orphaned.
  unfoldable pub keeps_ban :
      ChatBoardParametersV1
      → (banned_user_ids current_member_ids : HashSet MemberId) → AuthorizedUserBan
      → Bool
  keeps_ban parameters banned_user_ids current_member_ids ban =
      ban.banned_by == owner_id c parameters
      || contains current_member_ids ban.banned_by
      || not (contains banned_user_ids ban.banned_by)

  -- The steps after the required members are known.
  unfoldable pub prune :
      ChatBoardStateV1 → ChatBoardParametersV1 → HashSet MemberId → ChatBoardStateV1
  prune self parameters required =
      let members = retain (λ m. contains required (member_id c m)) self.members in
      let infos =
        retain (λ i. info_id i == owner_id c parameters || contains required (info_id i))
          self.member_info in
      record {
        configuration = self.configuration;
        admin = self.admin;
        bans =
            retain
              (keeps_ban parameters (HashSet.collect (map banned_user self.bans))
                (HashSet.collect (map (member_id c) members)))
              self.bans;
        members = sort_by_key (member_id c) members;
        member_info = sort_by_key info_id infos;
        secrets = self.secrets;
        recent_messages = self.recent_messages;
        upgrade = self.upgrade;
        version = self.version;
      }

  unfoldable pub post_apply_cleanup :
      ChatBoardStateV1 → ChatBoardParametersV1 → Option ChatBoardStateV1
  unfolding prune required_ids
  post_apply_cleanup self parameters = elim (required_ids self parameters) [
    | none ↦ none
    | some required ↦ some (prune self parameters required)
  ]

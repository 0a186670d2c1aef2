-- ===== src/Member/Chain.antt =====
-- common/src/board_state/member.rs: a member's signature, the chain of invitations up to the
-- owner, and the verification of the list.
use free_talk.Shared.{
  ℕ, zero, suc, ◌+◌, Bool, false, not, List, [], ◌∷◌, ◌++◌, Option, none, some, Result, ok, err,
  ◌>>=◌, ◌>>◌, ensure, reject, for_each, if◌then◌else◌, length, is_empty, retain, contains, map,
  find, ◌==◌, nat_eq, list_eq,
}
use free_talk.Shared.HashMap
use free_talk.Shared.HashMap.{HashMap}
use free_talk.Shared.HashSet
use free_talk.Shared.HashSet.{HashSet}
use free_talk.Shared.Dedup.{by_id}
use free_talk.Model.{
  Crypto, Signable, VerifyingKey, SigningKey, MemberId, Member, AuthorizedMember,
  ChatBoardParametersV1, Error, invalid_signature, owner_in_members, key_of_owner, self_invitation,
  circular_invite_chain, inviter_not_found, out_of_fuel, sign_struct, verify_struct, member_id_from,
  member_id,
}

abbrev pub invited_by : AuthorizedMember → MemberId
invited_by m = m.member.invited_by

module _ (c : Crypto) where
  -- `AuthorizedMember::new`; `none` where its assertion fails
  unfoldable pub new : Member → SigningKey → Option AuthorizedMember
  unfolding sign_struct member_id_from
  new member inviter_signing_key =
      if member.invited_by == member_id_from c (c.verifying_key inviter_signing_key)
      then some (record {
        member = member;
        signature = sign_struct c (Signable.member member) inviter_signing_key;
      })
      else none

  unfoldable pub verify_signature : AuthorizedMember → VerifyingKey → Bool
  unfolding verify_struct
  verify_signature m inviter_vk = verify_struct c (Signable.member m.member) m.signature inviter_vk

  unfoldable pub owner_id : ChatBoardParametersV1 → MemberId
  unfolding member_id_from
  owner_id parameters = member_id_from c parameters.owner

  abbrev pub members_by_member_id : List AuthorizedMember → HashMap MemberId AuthorizedMember
  members_by_member_id members = by_id (member_id c) members

  -- The loop of `get_invite_chain_with_lookup`.
  unfoldable pub invite_chain_loop :
      ChatBoardParametersV1
      → HashMap MemberId AuthorizedMember
      → (fuel : ℕ) → HashSet MemberId
      → AuthorizedMember
      → List AuthorizedMember
      → Result Error (List AuthorizedMember)
  invite_chain_loop parameters members_by_id zero visited current chain = err out_of_fuel
  invite_chain_loop parameters members_by_id (suc fuel) visited current chain =
      if contains visited (member_id c current)
      then err (circular_invite_chain (member_id c current))
      else if invited_by current == member_id c current
      then err (self_invitation (member_id c current))
      else if invited_by current == owner_id parameters
      then ensure (verify_signature current parameters.owner) invalid_signature >> ok chain
      else elim (HashMap.get (invited_by current) members_by_id) [
        | none ↦ err (inviter_not_found (invited_by current) (member_id c current))
        | some inviter ↦
            ensure (verify_signature current inviter.member.member_vk) invalid_signature
            >> invite_chain_loop parameters members_by_id fuel
                (HashSet.insert (member_id c current) visited) inviter (chain ++ inviter ∷ [])
      ]

  -- Each round but the first is at an entry of the map that was not met before.
  unfoldable pub get_invite_chain_with_lookup :
      AuthorizedMember
      → ChatBoardParametersV1
      → HashMap MemberId AuthorizedMember
      → Result Error (List AuthorizedMember)
  unfolding invite_chain_loop
  get_invite_chain_with_lookup member parameters members_by_id =
      invite_chain_loop parameters members_by_id (length members_by_id + 2) [] member []

  unfoldable pub get_invite_chain :
      List AuthorizedMember
      → AuthorizedMember
      → ChatBoardParametersV1
      → Result Error (List AuthorizedMember)
  unfolding get_invite_chain_with_lookup
  get_invite_chain self member parameters =
      get_invite_chain_with_lookup member parameters (members_by_member_id self)

  -- The body of the loop of `verify`.
  unfoldable pub check_member :
      ChatBoardParametersV1
      → HashMap MemberId AuthorizedMember
      → AuthorizedMember
      → Result Error (Unit {0})
  check_member parameters members_by_id member = do
    reject (member_id c member == owner_id parameters) owner_in_members
    reject (member.member.member_vk == parameters.owner) key_of_owner
    reject (invited_by member == member_id c member) (self_invitation (member_id c member))
    chain ← get_invite_chain_with_lookup member parameters members_by_id
    ok tt

  unfoldable pub verify : List AuthorizedMember → ChatBoardParametersV1 → Result Error (Unit {0})
  verify self parameters =
      if is_empty self
      then ok tt
      else for_each (check_member parameters (members_by_member_id self)) self

  unfoldable pub verify_member_invite_with_lookup :
      AuthorizedMember
      → ChatBoardParametersV1
      → HashMap MemberId AuthorizedMember
      → Result Error (Unit {0})
  verify_member_invite_with_lookup member parameters members_by_id =
      if invited_by member == owner_id parameters
      then ensure (verify_signature member parameters.owner) invalid_signature
      else get_invite_chain_with_lookup member parameters members_by_id >>= λ chain. ok tt

  invited_by_is : MemberId → Option AuthorizedMember → Bool
  invited_by_is member_id none = false
  invited_by_is member_id (some m) = invited_by m == member_id

  unfoldable pub is_inviter_of :
      List AuthorizedMember → MemberId → MemberId → ChatBoardParametersV1 → Bool
  unfolding invited_by_is owner_id
  is_inviter_of self inviter target params =
      if inviter == owner_id params
      then invited_by_is inviter (find (λ m. member_id c m == target) self)
      else invited_by_is inviter (find (λ m. member_id c m == target) self)

  unfoldable pub summarize : List AuthorizedMember → HashSet MemberId
  summarize self = HashSet.collect (map (member_id c) self)

  unfoldable pub delta : List AuthorizedMember → HashSet MemberId → Option (List AuthorizedMember)
  delta self old_state_summary =
      let added = retain (λ m. not (contains old_state_summary (member_id c m))) self in
      if is_empty added then none else some added

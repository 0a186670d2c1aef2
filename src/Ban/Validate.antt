-- ===== src/Ban/Validate.antt =====
-- common/src/board_state/ban.rs: which bans are valid. `w` is the width of `usize`.
use free_talk.Shared.{
  ℕ, zero, suc, ◌+◌, ◌-◌, ◌^◌, Bool, ◌||◌, ◌&&◌, List, [], ◌∷◌, ◌++◌, map, Option, none, some,
  Result, ok, err, ◌>>◌, ensure, reject, for_each, if◌then◌else◌, length, is_empty, contains, take,
  ltb, leb, ◌==◌, nat_eq,
}
use mathlib.Core.List.{reverse}
use Prim.Native.Nat.{◌%◌}
use free_talk.Shared.HashMap
use free_talk.Shared.HashMap.{HashMap}
use free_talk.Shared.HashSet
use free_talk.Shared.HashSet.{HashSet}
use free_talk.Shared.Order.{sort_by}
use free_talk.Model.{
  Crypto, Signable, VerifyingKey, MemberId, BanId, AuthorizedMember, AuthorizedAdmin,
  AuthorizedUserBan, ChatBoardStateV1, ChatBoardParametersV1, BanValidationError, Error,
  invalid_signature, invalid_bans, too_many_bans, verify_struct, member_id, ban_id, member_eq,
}
use free_talk.Member.Chain.{invited_by, owner_id, members_by_member_id}
use free_talk.Member.Downstream.{banned_user}

abbrev pub max_user_bans : ChatBoardStateV1 → ℕ
max_user_bans s = s.configuration.configuration.max_user_bans

-- `len as isize - max as isize`, where it is positive, and 0 elsewhere; the difference wraps, as
-- in a release build
unfoldable pub extra_bans : (w : ℕ) → (len max : ℕ) → ℕ
extra_bans w len max =
    let difference = (len + 2 ^ w - max) % 2 ^ w in
    if ltb difference (2 ^ (w - 1)) then difference else 0

module _ (c : Crypto) where
  unfoldable pub verify_signature : AuthorizedUserBan → VerifyingKey → Bool
  unfolding verify_struct
  verify_signature b key = verify_struct c (Signable.user_ban b.ban) b.signature key

  -- `banned_at`, then the identifier
  unfoldable pub ban_le : AuthorizedUserBan → AuthorizedUserBan → Bool
  ban_le a b =
      ltb a.ban.banned_at b.ban.banned_at
      || (a.ban.banned_at == b.ban.banned_at && leb (ban_id c a) (ban_id c b))

  -- The loop of `validate_invite_chain`.
  unfoldable pub invite_chain_loop :
      (banned banning : AuthorizedMember)
      → HashMap MemberId AuthorizedMember
      → (owner : MemberId) → (fuel : ℕ) → (current : AuthorizedMember)
      → (chain : List AuthorizedMember) → Result BanValidationError (Unit {0})
  invite_chain_loop banned banning member_map owner zero current chain =
      err BanValidationError.out_of_fuel
  invite_chain_loop banned banning member_map owner (suc fuel) current chain =
      if member_id c current == owner
      then err (BanValidationError.not_in_invite_chain (member_id c banning) (member_id c banned))
      else if member_id c current == member_id c banning
      then ok tt
      else elim (HashMap.get (invited_by current) member_map) [
        | none ↦ err (BanValidationError.inviter_not_found (member_id c current))
        | some inviter ↦
            if contains (chain ++ current ∷ []) inviter
            then err (BanValidationError.self_invitation_detected (member_id c inviter))
            else invite_chain_loop banned banning member_map owner fuel inviter
                (chain ++ current ∷ [])
      ]

  unfoldable pub validate_invite_chain :
      (banned banning : AuthorizedMember)
      → HashMap MemberId AuthorizedMember
      → MemberId
      → Result BanValidationError (Unit {0})
  validate_invite_chain banned banning member_map owner =
      invite_chain_loop banned banning member_map owner (length member_map + 2) banned []

  unfoldable pub error_of : Result BanValidationError (Unit {0}) → Option BanValidationError
  error_of (ok u) = none
  error_of (err e) = some e

  -- The error that `validate_single_ban` enters into its map, if any.
  unfoldable pub ban_error :
      AuthorizedUserBan
      → HashMap MemberId AuthorizedMember
      → ChatBoardParametersV1
      → (admin_ids banned_user_ids : HashSet MemberId) → Option BanValidationError
  unfolding error_of
  ban_error ban member_map parameters admin_ids banned_user_ids =
      elim (HashMap.get (banned_user ban) member_map) [
        | none ↦ none
        | some banned_member ↦
            if ban.banned_by == owner_id c parameters || contains admin_ids ban.banned_by
            then none
            else elim (HashMap.get ban.banned_by member_map) [
              | none ↦
                  if contains banned_user_ids ban.banned_by
                  then some (BanValidationError.banner_not_found ban.banned_by)
                  else none
              | some banning_member ↦ error_of (
                  validate_invite_chain banned_member banning_member member_map
                    (owner_id c parameters))
            ]
      ]

  unfoldable pub validate_single_ban :
      AuthorizedUserBan
      → HashMap MemberId AuthorizedMember
      → ChatBoardParametersV1
      → (admin_ids : HashSet MemberId) → HashMap BanId BanValidationError
      → (banned_user_ids : HashSet MemberId) → HashMap BanId BanValidationError
  validate_single_ban ban member_map parameters admin_ids invalid banned_user_ids =
      elim (ban_error ban member_map parameters admin_ids banned_user_ids) [
        | none ↦ invalid
        | some e ↦ HashMap.insert (ban_id c ban) e invalid
      ]

  unfoldable pub insert_excess :
      HashMap BanId BanValidationError → List AuthorizedUserBan → HashMap BanId BanValidationError
  insert_excess invalid [] = invalid
  insert_excess invalid (b ∷ bans) =
      insert_excess (HashMap.insert (ban_id c b) BanValidationError.exceeded_maximum_bans invalid)
        bans

  unfoldable pub identify_excess_bans :
      (w : ℕ)
      → List AuthorizedUserBan
      → ChatBoardStateV1
      → HashMap BanId BanValidationError
      → HashMap BanId BanValidationError
  unfolding insert_excess
  identify_excess_bans w self parent_state invalid = insert_excess invalid (
      take (extra_bans w (length self) (max_user_bans parent_state))
        (reverse (sort_by ban_le self)))

  unfoldable pub validate_all :
      List AuthorizedUserBan
      → HashMap MemberId AuthorizedMember
      → ChatBoardParametersV1
      → (admin_ids : HashSet MemberId) → HashMap BanId BanValidationError
      → (banned_user_ids : HashSet MemberId) → HashMap BanId BanValidationError
  validate_all [] member_map parameters admin_ids invalid banned_user_ids = invalid
  validate_all (b ∷ bans) member_map parameters admin_ids invalid banned_user_ids =
      validate_all bans member_map parameters admin_ids
        (validate_single_ban b member_map parameters admin_ids invalid banned_user_ids)
        banned_user_ids

  unfoldable pub get_invalid_bans :
      (w : ℕ)
      → List AuthorizedUserBan
      → ChatBoardStateV1
      → ChatBoardParametersV1
      → HashMap BanId BanValidationError
  unfolding validate_all
  get_invalid_bans w self parent_state parameters = identify_excess_bans w self parent_state (
      validate_all self (members_by_member_id c parent_state.members) parameters
        (HashSet.collect (map (λ (a : AuthorizedAdmin). a.admin.member_id) parent_state.admin)) []
        (HashSet.collect (map banned_user self)))

  -- The body of the loop of `verify` over the signatures.
  unfoldable pub check_ban_signature :
      HashMap MemberId AuthorizedMember
      → ChatBoardParametersV1
      → AuthorizedUserBan
      → Result Error (Unit {0})
  check_ban_signature members_by_id parameters ban =
      if ban.banned_by == owner_id c parameters
      then ensure (verify_signature ban parameters.owner) invalid_signature
      else elim (HashMap.get ban.banned_by members_by_id) [
        | none ↦ ok tt
        | some banning_member ↦
            ensure (verify_signature ban banning_member.member.member_vk) invalid_signature
      ]

  unfoldable pub verify :
      (w : ℕ)
      → List AuthorizedUserBan
      → ChatBoardStateV1
      → ChatBoardParametersV1
      → Result Error (Unit {0})
  verify w self parent_state parameters = do
    ensure (is_empty (get_invalid_bans w self parent_state parameters))
        (invalid_bans (get_invalid_bans w self parent_state parameters))
    reject (ltb (max_user_bans parent_state) (length self))
        (too_many_bans (length self) (max_user_bans parent_state))
    for_each (check_ban_signature (members_by_member_id c parent_state.members) parameters) self

-- ===== src/Admin.antt =====
-- common/src/board_state/admin.rs: the administrators that the owner has signed.
pub mod Merge
pub mod Keeps
mod Tests
use free_talk.Shared.{
  ℕ, Bool, true, false, not, List, Option, none, some, Result, ok, err, ◌>>=◌, ◌>>◌, ensure, reject,
  for_each, ltb, if◌then◌else◌, length, is_empty, retain, contains, map, ◌==◌, nat_eq,
}
use free_talk.Shared.HashMap
use free_talk.Shared.HashMap.{HashMap}
use free_talk.Shared.HashSet
use free_talk.Shared.HashSet.{HashSet}
use free_talk.Shared.Dedup.{push_new, by_id, or_insert_all}
use free_talk.Shared.Order.{sort_by_key}
use free_talk.Model.{
  Crypto, Signable, VerifyingKey, SigningKey, MemberId, Admin, AuthorizedAdmin,
  ChatBoardParametersV1, ChatBoardStateV1, Error, invalid_signature, owner_in_admins,
  owner_added_as_admin, too_many_admins, sign_struct, verify_struct, member_id_from,
}

-- `admin.id()`
abbrev pub admin_id : AuthorizedAdmin → MemberId
admin_id a = a.admin.member_id

abbrev pub max_admins : ChatBoardStateV1 → ℕ
max_admins s = s.configuration.configuration.max_admins

module _ (c : Crypto) where
  -- `AuthorizedAdmin::new`
  unfoldable pub new : Admin → SigningKey → AuthorizedAdmin
  unfolding sign_struct
  new admin owner_key = record {
    admin = admin;
    signature = sign_struct c (Signable.admin admin) owner_key;
  }

  unfoldable pub verify_signature : AuthorizedAdmin → VerifyingKey → Bool
  unfolding verify_struct
  verify_signature a owner_vk = verify_struct c (Signable.admin a.admin) a.signature owner_vk

  -- The body of the loop of `verify`, and of the loop of `apply_delta` that checks the delta.
  unfoldable pub check_admin :
      ChatBoardParametersV1 → Error → AuthorizedAdmin → Result Error (Unit {0})
  unfolding verify_signature member_id_from
  check_admin parameters owner_error admin = do
    reject (admin_id admin == member_id_from c parameters.owner) owner_error
    ensure (verify_signature admin parameters.owner) invalid_signature

  unfoldable pub verify :
      List AuthorizedAdmin → ChatBoardStateV1 → ChatBoardParametersV1 → Result Error (Unit {0})
  unfolding check_admin
  verify self parent_state parameters =
      if is_empty self
      then ok tt
      else reject (ltb (max_admins parent_state) (length self))
          (too_many_admins (length self) (max_admins parent_state))
        >> for_each (check_admin parameters owner_in_admins) self

  unfoldable pub apply_delta :
      List AuthorizedAdmin
      → ChatBoardStateV1
      → ChatBoardParametersV1
      → Option (List AuthorizedAdmin)
      → Result Error (List AuthorizedAdmin)
  unfolding check_admin push_new sort_by_key
  apply_delta self parent_state parameters none = ok (sort_by_key admin_id self)
  apply_delta self parent_state parameters (some added) = do
    let combined = or_insert_all admin_id (by_id admin_id self) added
    reject (ltb (max_admins parent_state) (length combined))
        (too_many_admins (length combined) (max_admins parent_state))
    for_each (check_admin parameters owner_added_as_admin) added
    ok (sort_by_key admin_id (push_new admin_id self added))

unfoldable pub summarize : List AuthorizedAdmin → HashSet MemberId
summarize self = HashSet.collect (map admin_id self)

unfoldable pub delta : List AuthorizedAdmin → HashSet MemberId → Option (List AuthorizedAdmin)
delta self old_state_summary =
    let added = retain (λ m. not (contains old_state_summary (admin_id m))) self in
    if is_empty added then none else some added

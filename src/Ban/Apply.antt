-- ===== src/Ban/Apply.antt =====
-- common/src/board_state/ban.rs: summaries and deltas of the bans.
use free_talk.Shared.{
  ℕ, ◌-◌, not, List, ◌++◌, map, Option, none, some, Result, ok, err, ◌>>◌, reject, for_each,
  if◌then◌else◌, length, is_empty, contains, retain, drop, ltb, ◌==◌, nat_eq,
}
use free_talk.Shared.HashSet
use free_talk.Shared.HashSet.{HashSet}
use free_talk.Shared.Order.{sort_by}
use free_talk.Model.{
  Crypto, Signable, SigningKey, MemberId, BanId, UserBan, AuthorizedUserBan, ChatBoardStateV1,
  ChatBoardParametersV1, Error, duplicate_ban, invalid_delta, ban_id, sign_struct, member_id_from,
}
use free_talk.Ban.Validate.{max_user_bans, ban_le, verify}

module _ (c : Crypto) where
  -- `AuthorizedUserBan::new`; `none` where its assertion fails
  unfoldable pub new : UserBan → MemberId → SigningKey → Option AuthorizedUserBan
  unfolding sign_struct member_id_from
  new ban banned_by banner_signing_key =
      if member_id_from c (c.verifying_key banner_signing_key) == banned_by
      then some (record {
        ban = ban;
        banned_by = banned_by;
        signature = sign_struct c (Signable.user_ban ban) banner_signing_key;
      })
      else none

  unfoldable pub summarize : List AuthorizedUserBan → HashSet BanId
  summarize self = HashSet.collect (map (ban_id c) self)

  unfoldable pub delta : List AuthorizedUserBan → HashSet BanId → Option (List AuthorizedUserBan)
  delta self old_state_summary =
      let new_bans = retain (λ b. not (contains old_state_summary (ban_id c b))) self in
      if is_empty new_bans then none else some new_bans

  -- The bans with a delta's, without the oldest above the limit.
  unfoldable pub evict : List AuthorizedUserBan → (max_bans : ℕ) → List AuthorizedUserBan
  evict bans max_bans =
      if ltb max_bans (length bans)
      then drop (length bans - max_bans) (sort_by (ban_le c) bans)
      else bans

  wrap : Result Error (Unit {0}) → Result Error (Unit {0})
  wrap (ok u) = ok u
  wrap (err e) = err (invalid_delta e)

  unfoldable pub apply_delta :
      (w : ℕ)
      → List AuthorizedUserBan
      → ChatBoardStateV1
      → ChatBoardParametersV1
      → Option (List AuthorizedUserBan)
      → Result Error (List AuthorizedUserBan)
  unfolding wrap
  apply_delta w self parent_state parameters none = ok (sort_by (ban_le c) self)
  apply_delta w self parent_state parameters (some new_bans) = do
    let existing = HashSet.collect (map (ban_id c) self)
    for_each (λ b. reject (contains existing (ban_id c b)) (duplicate_ban (ban_id c b))) new_bans
    let temp_bans = evict (self ++ new_bans) (max_user_bans parent_state)
    wrap (verify c w temp_bans parent_state parameters)
    ok (sort_by (ban_le c) temp_bans)

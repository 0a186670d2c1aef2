-- ===== src/Ban/VerifyLaws.antt =====
-- What the verification of the bans accepts (common/src/board_state/ban.rs), and the arithmetic of its
-- limit.
use native.Mathlib.Nat.{mod-eq_of_lt, mod_self, pow-suc}
use mathlib.Core.List.{reverse, reverse-cons}
use free_talk.Shared.{
  ℕ, zero, suc, ◌+◌, ◌-◌, ◌*◌, ◌^◌, ◌≤◌, ◌<◌, ◌≡◌, ◌≢◌, ◌↔◌, inl, inr, refl, ◌∙◌, ap, arith, true,
  List, [], ◌∷◌, map, Option, none, some, Result, ok, for_each, for_each-All, All-for_each, All,
  All-mono, All-zip, length, length-append, is_empty, take, nat_eq, Bool-cases, ltb,
}
use Prim.Native.Nat.{◌%◌}
use free_talk.Shared.HashMap
use free_talk.Shared.HashMap.{HashMap}
use free_talk.Shared.HashSet
use free_talk.Shared.HashSet.{HashSet}
use free_talk.Shared.Order.{sort_by, length-sort_by}
use free_talk.Model.{
  Crypto, MemberId, BanId, AuthorizedMember, AuthorizedAdmin, AuthorizedUserBan, ChatBoardStateV1,
  ChatBoardParametersV1, BanValidationError, ban_id, Error,
}
use free_talk.Member.Chain.{members_by_member_id}
use free_talk.Member.Downstream.{banned_user}
use free_talk.Ban.Good.{IsSigned, IsEntitled, check_ban_signature_iff, ban_error_iff}
use free_talk.Ban.Validate.{
  max_user_bans, extra_bans, ban_le, ban_error, validate_single_ban, insert_excess,
  identify_excess_bans, validate_all, get_invalid_bans, check_ban_signature, verify,
}

length-reverse : (l : List AuthorizedUserBan) → length (reverse l) ≡ length l
length-reverse [] = refl
length-reverse (b ∷ l) =
    omega
      (arith, ap length (reverse-cons b l), length-append (reverse l) (b ∷ []), length-reverse l)

pow_half : (w : ℕ) → 0 < w → 2 ^ w ≡ 2 * 2 ^ (w - 1)
pow_half zero h = absurd (omega arith)
pow_half (suc v) h = let e : suc v - 1 ≡ v = omega arith in rw e (omega (arith, pow-suc 2 v))

-- `a - b` modulo `m`, of numbers that are no further apart than `m`.
sub_mod : (m a b : ℕ) → b ≤ a + m → a < b → (a + m - b) % m ≡ a + m - b
sub_mod m a b near lt = mod-eq_of_lt (omega arith)

-- The limit counts exactly while it is no more than half the range of `usize`.
extra_bans_zero : (w len max : ℕ) → 0 < w → max ≤ 2 ^ (w - 1) → len ≤ max → extra_bans w len max ≡ 0
unfolding extra_bans
extra_bans_zero w len max pos fits le = elim (Bool-cases (ltb len max)) [
  | inl less ↦ ground (
    arith,
    pow_half w pos,
    sub_mod (2 ^ w) len max (ground (arith, pow_half w pos)) (ground arith),
  )
  | inr same ↦
      let e : len + 2 ^ w - max ≡ 2 ^ w = ground arith in
      let z = ap (λ a. a % 2 ^ w) e ∙ mod_self (2 ^ w) in ground (arith, z)
]

-- Beyond it, the subtraction of signed numbers comes out positive.
extra_bans_pos :
    (w len max : ℕ) → 0 < w → 2 ^ (w - 1) + len < max → max < 2 ^ w → 0 < extra_bans w len max
unfolding extra_bans
extra_bans_pos w len max pos huge lt =
    ground (arith, pow_half w pos, sub_mod (2 ^ w) len max (omega arith) (omega arith))

insert_ne :
    (k : BanId) (e : BanValidationError) (m : HashMap BanId BanValidationError)
    → is_empty (HashMap.insert k e m) ≢ true
insert_ne k e [] h = cc
insert_ne k e ((j, d) ∷ m) h = ground arith

module _ (c : Crypto) (m : HashMap MemberId AuthorizedMember) (p : ChatBoardParametersV1)
    (admins banned : HashSet MemberId) where
  single_none :
      (b : AuthorizedUserBan) (invalid : HashMap BanId BanValidationError)
      → is_empty (validate_single_ban c b m p admins invalid banned) ≡ true
      → (is_empty invalid ≡ true) × (ban_error c b m p admins banned ≡ none)
  unfolding validate_single_ban
  single_none b invalid e = go (ban_error c b m p admins banned) refl
    where
      go :
          (o : Option BanValidationError)
          → ban_error c b m p admins banned ≡ o
          → (is_empty invalid ≡ true) × (ban_error c b m p admins banned ≡ none)
      go none g = (rw (g, validate_single_ban) at e, g)
      go (some x) g = absurd (insert_ne (ban_id c b) x invalid (rw (g, validate_single_ban) at e))

  validate_all-none :
      (bans : List AuthorizedUserBan) (invalid : HashMap BanId BanValidationError)
      → is_empty (validate_all c bans m p admins invalid banned) ≡ true
      → (is_empty invalid ≡ true) × All (λ b. ban_error c b m p admins banned ≡ none) bans
  unfolding validate_all
  validate_all-none [] invalid h = (h, tt)
  validate_all-none (b ∷ bans) invalid h =
      let q = validate_all-none bans (validate_single_ban c b m p admins invalid banned) h in
      let f = single_none b invalid q.0 in (f.0, (f.1, q.1))

  none-validate_all :
      (bans : List AuthorizedUserBan) (invalid : HashMap BanId BanValidationError)
      → All (λ b. ban_error c b m p admins banned ≡ none) bans
      → validate_all c bans m p admins invalid banned ≡ invalid
  unfolding validate_all validate_single_ban
  none-validate_all [] invalid h = refl
  none-validate_all (b ∷ bans) invalid h =
      rw (h.0, validate_single_ban) (none-validate_all bans invalid h.1)

module _ (c : Crypto) where
  insert_excess-none :
      (invalid : HashMap BanId BanValidationError) (bans : List AuthorizedUserBan)
      → is_empty (insert_excess c invalid bans) ≡ true
      → (is_empty invalid ≡ true) × (bans ≡ [])
  unfolding insert_excess
  insert_excess-none invalid [] h = (h, refl)
  insert_excess-none invalid (b ∷ bans) h = absurd (
      insert_ne (ban_id c b) BanValidationError.exceeded_maximum_bans invalid
        (insert_excess-none
          (HashMap.insert (ban_id c b) BanValidationError.exceeded_maximum_bans invalid) bans h).0)

  module _ (w : ℕ) (self : List AuthorizedUserBan) (state : ChatBoardStateV1)
      (p : ChatBoardParametersV1) where
    -- The identifiers of the administrators, and of the banned users, as the check collects them.
    abbrev pub admin_ids : HashSet MemberId
    admin_ids = HashSet.collect (map (λ (a : AuthorizedAdmin). a.admin.member_id) state.admin)

    abbrev pub banned_user_ids : HashSet MemberId
    banned_user_ids = HashSet.collect (map banned_user self)

    abbrev member_map : HashMap MemberId AuthorizedMember
    member_map = members_by_member_id c state.members

    abbrev signatures : Result Error (Unit {0})
    signatures = for_each (check_ban_signature c member_map p) self

    abbrev errors : HashMap BanId BanValidationError
    errors = validate_all c self member_map p admin_ids [] banned_user_ids

    -- The ban is signed, where its issuer is known, and its issuer was entitled to it.
    abbrev pub IsGood : AuthorizedUserBan → Type 0
    IsGood b = IsSigned c member_map p b × IsEntitled c member_map p admin_ids banned_user_ids b

    verify_parts :
        verify c w self state p ≡ ok tt
        → (is_empty (get_invalid_bans c w self state p) ≡ true)
          × (length self ≤ max_user_bans state)
          × (signatures ≡ ok tt)
    unfolding verify
    verify_parts h = ground arith

    parts_verify :
        is_empty (get_invalid_bans c w self state p) ≡ true
        → length self ≤ max_user_bans state
        → signatures ≡ ok tt
        → verify c w self state p ≡ ok tt
    unfolding verify
    parts_verify e le s = ground arith

    no_errors :
        is_empty (get_invalid_bans c w self state p) ≡ true
        → All (λ b. ban_error c b member_map p admin_ids banned_user_ids ≡ none) self
    unfolding get_invalid_bans identify_excess_bans
    no_errors h =
        (validate_all-none c member_map p admin_ids banned_user_ids self []
          (insert_excess-none errors
            (take (extra_bans w (length self) (max_user_bans state))
              (reverse (sort_by (ban_le c) self)))
            h).0).1

    errors_none :
        0 < w
        → max_user_bans state ≤ 2 ^ (w - 1)
        → length self ≤ max_user_bans state
        → All (λ b. ban_error c b member_map p admin_ids banned_user_ids ≡ none) self
        → is_empty (get_invalid_bans c w self state p) ≡ true
    unfolding get_invalid_bans identify_excess_bans insert_excess
    errors_none pos fits le good = rw (
      extra_bans_zero w (length self) (max_user_bans state) pos fits le,
      none-validate_all c member_map p admin_ids banned_user_ids self [] good,
    )

    -- The verification accepts the bans exactly when they are no more than the limit and each of them is
    -- good, if the limit is at most half the range of `usize`. A ban is good when two things hold. Its
    -- issuer, if he is the owner or a member, signed it; the signature of anybody else is not checked. And
    -- if it names a member, its issuer is the owner, an administrator, the named member, a member above
    -- him below the owner, or somebody who is no member and whom no ban names.
    pub bans_verify_iff :
        0 < w
        → max_user_bans state ≤ 2 ^ (w - 1)
        → (verify c w self state p ≡ ok tt)
          ↔ ((length self ≤ max_user_bans state) × All IsGood self)
    bans_verify_iff pos fits = (
      (λ h.
          let q = verify_parts h in
          (
            q.1,
            All-zip (IsSigned c member_map p) (IsEntitled c member_map p admin_ids banned_user_ids)
                self
                (All-mono (λ b. check_ban_signature c member_map p b ≡ ok tt)
                  (IsSigned c member_map p) self
                  (λ b k. (check_ban_signature_iff c member_map p b).0 k)
                  (for_each-All (check_ban_signature c member_map p) self q.2))
                (All-mono (λ b. ban_error c b member_map p admin_ids banned_user_ids ≡ none)
                  (IsEntitled c member_map p admin_ids banned_user_ids) self
                  (λ b k. (ban_error_iff c member_map p admin_ids banned_user_ids b).0 k)
                  (no_errors q.0)),
          )),
      λ g.
          parts_verify
            (errors_none pos fits g.0 (
              All-mono IsGood (λ b. ban_error c b member_map p admin_ids banned_user_ids ≡ none)
                self (λ b q. (ban_error_iff c member_map p admin_ids banned_user_ids b).1 q.1) g.1))
            g.0
            (All-for_each (check_ban_signature c member_map p) self (
              All-mono IsGood (λ b. check_ban_signature c member_map p b ≡ ok tt) self
                (λ b q. (check_ban_signature_iff c member_map p b).1 q.0) g.1)),
    )

    take-ne-nil : (n : ℕ) (l : List AuthorizedUserBan) → 0 < n → 0 < length l → take n l ≢ []
    take-ne-nil zero l pos some_l h = omega arith
    take-ne-nil (suc n) [] pos some_l h = omega arith
    take-ne-nil (suc n) (b ∷ l) pos some_l h = cc

    -- A limit above half the range of `usize`, by more than there are bans, is read as a negative
    -- number: no ban passes the verification.
    pub verify_huge_limit :
        0 < w
        → 0 < length self
        → 2 ^ (w - 1) + length self < max_user_bans state
        → max_user_bans state < 2 ^ w
        → verify c w self state p ≢ ok tt
    unfolding get_invalid_bans identify_excess_bans
    verify_huge_limit pos some_ban huge range h =
        take-ne-nil (extra_bans w (length self) (max_user_bans state))
          (reverse (sort_by (ban_le c) self))
          (extra_bans_pos w (length self) (max_user_bans state) pos huge range)
          (omega (arith, length-reverse (sort_by (ban_le c) self), length-sort_by (ban_le c) self))
          (insert_excess-none errors
            (take (extra_bans w (length self) (max_user_bans state))
              (reverse (sort_by (ban_le c) self)))
            (verify_parts h).0).1

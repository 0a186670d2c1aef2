-- ===== src/Ban/ApplyLaws.antt =====
-- Which bans are kept (`apply_delta` of common/src/board_state/ban.rs).
use free_talk.Shared.{
  ℕ, zero, suc, ◌-◌, ◌≤◌, ◌≡◌, inl, inr, sym, ◌∙◌, subst, ap, arith, true, false, List, [], ◌∷◌,
  ◌++◌, map, some, ok, reject, for_each, for_each-All, All, All-mono, length, length-drop, drop,
  contains, nat_eq, Bool-cases, ltb,
}
use free_talk.Shared.HashSet
use free_talk.Shared.Order.{
  sort_by, SortedBy, sort_by-SortedBy, sort_by_of_SortedBy, length-sort_by,
}
use free_talk.Model.{
  Crypto, AuthorizedUserBan, ChatBoardStateV1, ChatBoardParametersV1, ban_id, duplicate_ban,
}
use free_talk.Ban.Validate.{max_user_bans, ban_le, verify}
use free_talk.Ban.Apply.{evict, apply_delta}

module _ (c : Crypto) where
  ban_le-total : (a b : AuthorizedUserBan) → ban_le c a b ≡ false → ban_le c b a ≡ true
  unfolding ban_le
  ban_le-total a b h = ground arith

  ban_le_trans :
      (a b d : AuthorizedUserBan) → ban_le c a b ≡ true → ban_le c b d ≡ true → ban_le c a d ≡ true
  unfolding ban_le
  ban_le_trans a b d h k = ground arith

  sorted : (bans : List AuthorizedUserBan) → SortedBy (ban_le c) (sort_by (ban_le c) bans)
  sorted bans = sort_by-SortedBy (ban_le c) ban_le-total ban_le_trans bans

  SortedBy-drop :
      (n : ℕ) (bans : List AuthorizedUserBan)
      → SortedBy (ban_le c) bans
      → SortedBy (ban_le c) (drop n bans)
  SortedBy-drop zero bans s = s
  SortedBy-drop (suc n) [] s = tt
  SortedBy-drop (suc n) (b ∷ bans) s = SortedBy-drop n bans s.1

  -- The newest bans up to the limit, oldest first.
  abbrev pub newest : ℕ → List AuthorizedUserBan → List AuthorizedUserBan
  newest max bans = drop (length bans - max) (sort_by (ban_le c) bans)

  sort-evict :
      (max : ℕ) (bans : List AuthorizedUserBan)
      → sort_by (ban_le c) (evict c bans max) ≡ newest max bans
  unfolding evict
  sort-evict max bans = elim (Bool-cases (ltb max (length bans))) [
    | inl over ↦ rw over (
        sort_by_of_SortedBy (ban_le c) (drop (length bans - max) (sort_by (ban_le c) bans))
          (SortedBy-drop (length bans - max) (sort_by (ban_le c) bans) (sorted bans)))
    | inr within ↦ let e : length bans - max ≡ 0 = ground arith in rw (within, e)
  ]

  module _ (w : ℕ) (state : ChatBoardStateV1) (p : ChatBoardParametersV1) where
    apply_delta_step :
        (self ds r : List AuthorizedUserBan)
        → apply_delta c w self state p (some ds) ≡ ok r
        → (for_each
              (λ b.
                reject
                  (contains (HashSet.collect (map (ban_id c) self)) (ban_id c b))
                  (duplicate_ban (ban_id c b)))
              ds
            ≡ ok tt)
          × (verify c w (evict c (self ++ ds) (max_user_bans state)) state p ≡ ok tt)
          × (r ≡ sort_by (ban_le c) (evict c (self ++ ds) (max_user_bans state)))
    unfolding apply_delta
    apply_delta_step self ds r h = ground arith

    -- An accepted delta leaves the newest bans up to the limit of the configuration, sorted by time and
    -- identifier; no ban of the delta was there before.
    pub apply_delta-newest :
        (self ds r : List AuthorizedUserBan)
        → apply_delta c w self state p (some ds) ≡ ok r
        → (r ≡ newest (max_user_bans state) (self ++ ds))
          × (length r ≤ max_user_bans state)
          × SortedBy (ban_le c) r
          × All (λ b. contains (map (ban_id c) self) (ban_id c b) ≡ false) ds
    apply_delta-newest self ds r h =
        let (fresh, accepted, eq) = apply_delta_step self ds r h in
        let kept = eq ∙ sort-evict (max_user_bans state) (self ++ ds) in
        (
          kept,
          omega (
            arith,
            ap length kept,
            length-drop (length (self ++ ds) - max_user_bans state)
                (sort_by (ban_le c) (self ++ ds)),
            length-sort_by (ban_le c) (self ++ ds),
          ),
          subst (SortedBy (ban_le c)) (sym eq)
              (sorted (evict c (self ++ ds) (max_user_bans state))),
          All-mono
              (λ b.
                reject (contains (HashSet.collect (map (ban_id c) self)) (ban_id c b))
                  (duplicate_ban (ban_id c b))
                ≡ ok tt)
              (λ b. contains (map (ban_id c) self) (ban_id c b) ≡ false) ds
              (λ b k. ground (arith, HashSet.contains-collect (map (ban_id c) self) (ban_id c b)))
              (for_each-All
                (λ b.
                  reject (contains (HashSet.collect (map (ban_id c) self)) (ban_id c b))
                    (duplicate_ban (ban_id c b)))
                ds fresh),
        )

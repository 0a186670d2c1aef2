-- ===== src/Upgrade/Order.antt =====
-- The order in which upgrades arrive (common/src/board_state/upgrade.rs).
use free_talk.Shared.{true, Option, none, some, ok, ◌≡◌, arith, ◌>>=◌}
use free_talk.Model.{Crypto, AuthorizedUpgradeV1, ChatBoardParametersV1}
use free_talk.Upgrade.{validate, verify, apply_delta, delta, summarize}

module _ (c : Crypto) (p : ChatBoardParametersV1) where
  -- A replica sends its upgrade to another exactly when the other has none or an older one.
  -- If the upgrade is signed by the owner, the other then holds it.
  delta-apply_delta :
      (mine other : Option AuthorizedUpgradeV1)
      → verify c mine p ≡ ok tt
      → (u : AuthorizedUpgradeV1) → delta mine (summarize other) ≡ some u
      → (mine ≡ some u) × (apply_delta c other p (some u) ≡ ok mine)
  unfolding verify apply_delta delta summarize
  delta-apply_delta none other v u h = cc
  delta-apply_delta (some m) none v u h = ground arith
  delta-apply_delta (some m) (some o) v u h = ground arith

  -- An upgrade that the owner signed replaces the present one, whatever the versions are: of two
  -- such upgrades the one that arrives last stays, so replicas that receive them in different
  -- orders end in different states.
  apply_delta_last :
      (old : Option AuthorizedUpgradeV1) (u v : AuthorizedUpgradeV1)
      → validate c u p.owner ≡ true
      → validate c v p.owner ≡ true
      → ((apply_delta c old p (some u) >>= λ s. apply_delta c s p (some v)) ≡ ok (some v))
        × ((apply_delta c old p (some v) >>= λ s. apply_delta c s p (some u)) ≡ ok (some u))
  unfolding apply_delta
  apply_delta_last old u v hu hv = (rw hu (rw hv), rw hv (rw hu))

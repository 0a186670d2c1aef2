-- ===== src/Upgrade/Tests.antt =====
-- Examples for common/src/board_state/upgrade.rs.
use free_talk.Shared.{ℕ, [], ◌∷◌}
use free_talk.Model.{AuthorizedUpgradeV1}

abbrev upgrade : ℕ → AuthorizedUpgradeV1
upgrade version = record {
  upgrade = record { owner_member_id = 9; version = version; new_chatboard_address = [] };
  signature = 9 ∷ 5 ∷ version ∷ [];
}

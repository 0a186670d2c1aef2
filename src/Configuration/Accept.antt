-- ===== src/Configuration/Accept.antt =====
-- When a new configuration is accepted (common/src/board_state/configuration.rs).
use free_talk.Shared.{
  ℕ, ◌≤◌, ◌<◌, true, false, Option, none, some, ok, ◌≡◌, ◌↔◌, refl, arith, nat_eq, >>=-eq-ok,
}
use free_talk.Model.{
  Crypto, AuthorizedConfigurationV1, ChatBoardParametersV1, PrivacyMode, SealedBytes, is_public,
  declared_len,
}
use free_talk.Configuration.{
  check_description, is_private_mode, verify_signature, check_delta, apply_delta,
}

abbrev pub FitsDescription : Option SealedBytes → ℕ → Type 0
FitsDescription none limit = Unit
FitsDescription (some desc) limit = declared_len desc ≤ limit

-- What the owner's next configuration has to satisfy.
pub record IsSuccessor (c : Crypto) (p : ChatBoardParametersV1)
    (old new : AuthorizedConfigurationV1) : Type 0 where
  pub signed : verify_signature c new p.owner ≡ true
  pub newer : old.configuration.configuration_version < new.configuration.configuration_version
  pub same_owner : new.configuration.owner_member_id ≡ old.configuration.owner_member_id
  pub bans_limit : 0 < new.configuration.max_user_bans
  pub message_limit : 0 < new.configuration.max_message_size
  pub title_limit : 0 < new.configuration.max_title_size
  pub nickname_limit : 0 < new.configuration.max_nickname_size
  pub admins_limit : 0 < new.configuration.max_admins
  pub board_name_limit : 0 < new.configuration.max_board_name
  pub board_description_limit : 0 < new.configuration.max_board_description
  pub name_fits : declared_len new.configuration.display.name ≤ new.configuration.max_board_name
  pub description_fits :
      FitsDescription new.configuration.display.description new.configuration.max_board_description
  pub encrypted :
      new.configuration.privacy_mode ≡ PrivacyMode.private
      → is_public new.configuration.display.name ≡ false

check_description-ok :
    (d : Option SealedBytes) (n : ℕ) → (check_description d n ≡ ok tt) ↔ FitsDescription d n
unfolding check_description
check_description-ok none n = (λ h. tt, λ h. refl)
check_description-ok (some d) n = (λ h. ground arith, λ h. ground arith)

private_mode_iff : (m : PrivacyMode) → (is_private_mode m ≡ true) ↔ (m ≡ PrivacyMode.private)
unfolding is_private_mode
private_mode_iff PrivacyMode.public = (λ h. cc, λ h. cc)
private_mode_iff PrivacyMode.private = (λ h. refl, λ h. refl)

module _ (c : Crypto) (p : ChatBoardParametersV1) (old new : AuthorizedConfigurationV1) where
  check_delta-ok→ : check_delta c old p new ≡ ok tt → IsSuccessor c p old new
  unfolding check_delta
  check_delta-ok→ h = ground (
    arith,
    (check_description-ok new.configuration.display.description
        new.configuration.max_board_description).0,
    private_mode_iff new.configuration.privacy_mode,
  )

  check_delta-ok← : IsSuccessor c p old new → check_delta c old p new ≡ ok tt
  unfolding check_delta
  check_delta-ok← h = ground (
    arith,
    (check_description-ok new.configuration.display.description
          new.configuration.max_board_description).1
        h.description_fits,
    private_mode_iff new.configuration.privacy_mode,
  )

  pub apply_delta_accepts :
      (s : AuthorizedConfigurationV1)
      → (apply_delta c old p (some new) ≡ ok s) ↔ ((s ≡ new) × IsSuccessor c p old new)
  unfolding apply_delta
  apply_delta_accepts s = (forward, λ h. rw (check_delta-ok← h.1) (ground (arith, h.0)))
    where
      forward : apply_delta c old p (some new) ≡ ok s → (s ≡ new) × IsSuccessor c p old new
      forward h =
          let q = >>=-eq-ok (check_delta c old p new) (λ _. ok new) h in
          (cc (q.2), check_delta-ok→ q.1)

-- ===== src/Message/Sealed.antt =====
-- Messages on a private board (`apply_delta` of common/src/board_state/message.rs).
use free_talk.Shared.{
  ℕ, Bool, true, ◌≡◌, ◌≢◌, ◌⊎◌, inl, inr, refl, sym, ◌∙◌, subst, ap, arith, List, ◌++◌, some, ok,
  >>=-eq-ok, for_each, for_each-All, map, contains, All, All-mono, All-append, All-retain, nat_eq,
  pair_eq, [], ◌∷◌, ==_refl,
}
use free_talk.Shared.Dedup.{contains_key-by_id}
use free_talk.Shared.Order.{All-sort_by}
use free_talk.Model.{
  Crypto, Cbor, Bytes, MemberId, BoardMessageBody, AuthorizedMessageV1, MessagesV1,
  ChatBoardStateV1, ChatBoardParametersV1, message_id, member_id,
}
use free_talk.Configuration.{is_private_mode}
use free_talk.Member.Chain.{members_by_member_id}
use free_talk.Secret.{pair_of}
use free_talk.Secret.Complete.{distributed_to}
use free_talk.Message.Body.{title}
use free_talk.Message.Apply.{
  message_le, stays, unseen, check_title, check_privacy, check_content, settle, apply_delta,
}
use free_talk.Message.ApplyLaws.{apply_delta_step, kept_messages}

module _ (c : Crypto) (state : ChatBoardStateV1) where
  -- The body is encrypted with the current secret, and after the first version every member has it.
  pub record IsSealed (m : AuthorizedMessageV1) : Type 0 where
    pub encrypted :
        (t v : ℕ) × (d n : Bytes) × (m.message.content
          ≡ BoardMessageBody.private t v d n state.secrets.current_version)
    pub shared :
        (k : MemberId)
        → state.secrets.current_version ≢ 0
        → contains (map (member_id c) state.members) k ≡ true
        → contains (map pair_of state.secrets.encrypted_secrets) (state.secrets.current_version, k)
          ≡ true

  check_privacy-IsSealed :
      (m : AuthorizedMessageV1) (body : BoardMessageBody)
      → m.message.content ≡ body
      → is_private_mode state.configuration.configuration.privacy_mode ≡ true
      → check_privacy c state body ≡ ok tt
      → IsSealed m
  unfolding check_privacy
  check_privacy-IsSealed m (BoardMessageBody.public t v d) same mode h = ground (arith, mode)
  check_privacy-IsSealed m (BoardMessageBody.private t v d n s) same mode h = record {
    encrypted = (t, v, d, n, same ∙ ap (BoardMessageBody.private t v d n) current);
    shared = λ k later member.
        distributed_to state.secrets (members_by_member_id c state.members) k (ground (arith, mode))
          later (contains_key-by_id (member_id c) state.members k ∙ member);
  }
    where
      current : s ≡ state.secrets.current_version
      current = ground (arith, mode)

  module _ (b : Cbor) (p : ChatBoardParametersV1) (self : MessagesV1) where
    -- The message was there before, by its identifier.
    abbrev pub was_there : AuthorizedMessageV1 → Bool
    was_there m = contains (map (message_id c) self.messages) (message_id c m)

    all-IsSealed :
        (r : MessagesV1) (ds : List AuthorizedMessageV1)
        → is_private_mode state.configuration.configuration.privacy_mode ≡ true
        → apply_delta c b self state p (some ds) ≡ ok r
        → All IsSealed ds
    unfolding apply_delta check_content
    all-IsSealed r ds mode h =
        let q =
          >>=-eq-ok (for_each (check_content c b state) ds)
            (λ _. ok (settle c b state p (self.messages ++ unseen c self ds) self)) h in
        All-mono (λ m. check_content c b state m ≡ ok tt) IsSealed ds
          (λ m k.
            check_privacy-IsSealed m m.message.content refl mode
              (>>=-eq-ok
                (check_title (title b m.message.content)
                  state.configuration.configuration.max_title_size)
                (λ _. check_privacy c state m.message.content) k).2)
          (for_each-All (check_content c b state) ds q.1)

    -- On a private board, a delta is accepted only if all its messages are encrypted with the current
    -- secret; after it, every message was there before or is encrypted with the current secret. Where a
    -- delta has such a message, every member has a secret of the current version, unless that is 0.
    pub apply_delta_private :
        (r : MessagesV1) (ds : List AuthorizedMessageV1)
        → is_private_mode state.configuration.configuration.privacy_mode ≡ true
        → apply_delta c b self state p (some ds) ≡ ok r
        → All IsSealed ds × All (λ m. (was_there m ≡ true) ⊎ IsSealed m) r.messages
    unfolding unseen
    apply_delta_private r ds mode h =
        let sealed = all-IsSealed r ds mode h in
        let eq =
          ap (λ (z : MessagesV1). z.messages) (apply_delta_step c b state p self r (some ds) h)
          ∙ kept_messages c b state p (self.messages ++ unseen c self ds) self in
        let either = λ (m : AuthorizedMessageV1). (was_there m ≡ true) ⊎ IsSealed m in
        (
          sealed,
          subst (All either) (sym eq) (
              All-sort_by (message_le c) either _ (
                All-retain either either (stays c state p) (self.messages ++ unseen c self ds)
                  (λ m e s. e)
                  (All-append either self.messages (unseen c self ds)
                    (All-mono _ either self.messages (λ m there. inl there)
                      (themselves self.messages))
                    (All-retain IsSealed either _ ds (λ m s new. inr s) sealed)))),
        )
      where
        themselves :
            (xs : List AuthorizedMessageV1)
            → All (λ m. contains (map (message_id c) xs) (message_id c m) ≡ true) xs
        themselves [] = tt
        themselves (x ∷ xs) = (
          ground (arith, ==_refl (message_id c x)),
          All-mono (λ m. contains (map (message_id c) xs) (message_id c m) ≡ true) _ xs
              (λ m t. ground arith) (themselves xs),
        )

-- ===== src/Delegate/Isolation.antt =====
-- Origins do not see one another (freetalk-delegate/src/handlers.rs and lib.rs).
use free_talk.Shared.{
  false, List, [], ◌∷◌, some, Result, ◌≡◌, inl, inr, refl, sym, subst, ◌∙◌, ◌==◌, list_eq, nat_eq,
  retain, Bool-cases, if◌then◌else◌,
}
use free_talk.Model.{Crypto}
use free_talk.Delegate.Messages.{Origin, ApplicationMessage, InboundDelegateMsg, DelegateError}
use free_talk.Delegate.Host.{Host, StoresSecrets, TakesWrites, Formats, EncodesNames}
use free_talk.Delegate.Handlers.{process_from, process}
use free_talk.Delegate.Effects.{Alike}
use free_talk.Delegate.Own.{NameOf, NameOf-unique, Within-process_from}

-- A call, as the host makes it: the origin and the message.
abbrev pub Call : Type 0
Call = Origin × InboundDelegateMsg

-- The calls of an origin.
abbrev pub calls_of : Origin → List Call → List Call
calls_of o calls = retain (λ (x : Call). x.0 == o) calls

module _ (h : Host) (f : Formats) (c : Crypto) where
  -- What an origin is answered, in a sequence of calls.
  unfoldable pub answers_to :
      Origin → h.DelegateCtx → List Call → List (Result DelegateError (List ApplicationMessage))
  answers_to o ctx [] = []
  answers_to o ctx ((a, m) ∷ calls) =
      let (after, answer) = process h f c (some a) m ctx in
      let rest = answers_to o after calls in if a == o then answer ∷ rest else rest

module _ (h : Host) (stores : StoresSecrets h) (takes : TakesWrites h) (f : Formats)
    (n : EncodesNames f) (c : Crypto) (o : Origin) where
  stranger : {a : Origin} → a ≡ o → (a == o) ≡ false → ⊥
  stranger {a} e other = let own = (list_eq.is_eq_iff a o).1 e in cc

  answers_Alike :
      (calls : List Call) (s t : h.DelegateCtx)
      → Alike h (NameOf f o) s t
      → answers_to h f c o s calls ≡ answers_to h f c o t (calls_of o calls)
  unfolding answers_to process
  answers_Alike [] s t alike = refl
  answers_Alike ((a, m) ∷ calls) s t alike = elim (Bool-cases (a == o)) [
    | inl own ↦
        let e : a ≡ o = (list_eq.is_eq_iff a o).0 own in
        let w =
          (Within-process_from h stores f c a m).respects takes s t
            (subst (λ p. Alike h (NameOf f p) s t) (sym e) alike) in
        let later = answers_Alike calls (process_from h f c a m s).0 (process_from h f c a m t).0 (
          subst
            (λ p. Alike h (NameOf f p) (process_from h f c a m s).0 (process_from h f c a m t).0) e
            w.1) in
        rw own (rw own (cc (w.0, later)))
    | inr other ↦ rw other (
        answers_Alike calls (process_from h f c a m s).0 t (λ j named.
          (Within-process_from h stores f c a m).keeps j
            (λ own. stranger (NameOf-unique f n a o own named refl) other) s
          ∙ alike j named))
  ]

  -- Origins do not see one another: in every sequence of calls, each origin gets the answers
  -- that it gets without the calls of the others. The host takes every write.
  pub answers_to-calls_of :
      (ctx : h.DelegateCtx) (calls : List Call)
      → answers_to h f c o ctx calls ≡ answers_to h f c o ctx (calls_of o calls)
  answers_to-calls_of ctx calls = answers_Alike calls ctx ctx (λ j named. refl)

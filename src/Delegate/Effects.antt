-- ===== src/Delegate/Effects.antt =====
-- What a computation of the delegate leaves alone, and what its result depends on.
use free_talk.Shared.{
  false, Result, ok, err, ◌≡◌, refl, ap, subst, ==_false, ◌∙◌, ◌==◌, list_eq, nat_eq, inl, inr,
  Bool-cases, arith,
}
use free_talk.Model.{Bytes}
use free_talk.Delegate.Messages.{DelegateError}
use free_talk.Delegate.Host.{
  Host, StoresSecrets, TakesWrites, M, and_then, ◌>>=◌, answers, set_secret, get_secret,
  remove_secret,
}

module _ (h : Host) where
  -- A computation leaves the secret of a name alone, whatever the host refuses.
  abbrev pub Keeps : {A : Type 0} → Bytes → M h A → Type 0
  Keeps j m = (ctx : h.DelegateCtx) → h.get_secret (m ctx).0 j ≡ h.get_secret ctx j

  -- Two stores with the same secrets under the names of `N`.
  abbrev pub Alike : (Bytes → Type 0) → h.DelegateCtx → h.DelegateCtx → Type 0
  Alike N s t = (j : Bytes) → N j → h.get_secret s j ≡ h.get_secret t j

  -- The result, and the later secrets under the names of `N`, depend on those secrets alone.
  abbrev pub Respects : {A : Type 0} → (Bytes → Type 0) → M h A → Type 0
  Respects N m = (s t : h.DelegateCtx) → Alike N s t → ((m s).1 ≡ (m t).1) × Alike N (m s).0 (m t).0

  -- A computation that has to do with the names of `N` alone.
  pub record Within {A : Type 0} (N : Bytes → Type 0) (m : M h A) : Type 0 where
    pub keeps : (j : Bytes) → (N j → ⊥) → Keeps j m
    pub respects : TakesWrites h → Respects N m

module _ (h : Host) (stores : StoresSecrets h) where
  Keeps-set_secret :
      (j : Bytes) (e : DelegateError) (k v : Bytes)
      → (k == j) ≡ false
      → Keeps h j (set_secret h e k v)
  Keeps-set_secret j e k v other ctx = elim (Bool-cases (h.set_secret ctx k v).1) [
    | inl taken ↦ ground (arith, stores.get-set_taken ctx k v j)
    | inr refused ↦ stores.get-set_refused ctx k v j refused
  ]

  Keeps-remove_secret : (j k : Bytes) → (k == j) ≡ false → Keeps h j (remove_secret h k)
  Keeps-remove_secret j k other ctx = ground (arith, stores.get-remove ctx k j)

  Keeps-bind :
      {A B : Type 0} (j : Bytes) (m : M h A) (next : A → M h B)
      → Keeps h j m
      → ((a : A) → Keeps h j (next a))
      → Keeps h j (m >>= next)
  Keeps-bind {A} {B} j m next first rest ctx = at (m ctx) (first ctx)
    where
      at :
          (r : h.DelegateCtx × Result DelegateError A)
          → h.get_secret r.0 j ≡ h.get_secret ctx j
          → h.get_secret (and_then r next).0 j ≡ h.get_secret ctx j
      at (after, ok a) e = rest a after ∙ e
      at (after, err x) e = e

  Respects-answers :
      {A : Type 0} (N : Bytes → Type 0) (r : Result DelegateError A)
      → Respects h N (answers {S = h.DelegateCtx} r)
  Respects-answers N r s t alike = (refl, alike)

  Respects-get_secret : (N : Bytes → Type 0) (k : Bytes) → N k → Respects h N (get_secret h k)
  Respects-get_secret N k named s t alike = (ap ok (alike k named), alike)

  Respects-set_secret :
      (N : Bytes → Type 0)
      → TakesWrites h
      → (e : DelegateError) (k v : Bytes) → Respects h N (set_secret h e k v)
  Respects-set_secret N takes e k v s t alike = (
    rw (takes s k v) (rw (takes t k v)),
    λ j named. ground (
      arith,
      takes s k v,
      takes t k v,
      stores.get-set_taken s k v j,
      stores.get-set_taken t k v j,
      alike j named,
    ),
  )

  Respects-remove_secret : (N : Bytes → Type 0) (k : Bytes) → Respects h N (remove_secret h k)
  Respects-remove_secret N k s t alike = (
    refl,
    λ j named. ground (arith, stores.get-remove s k j, stores.get-remove t k j, alike j named),
  )

  Respects-bind :
      {A B : Type 0} (N : Bytes → Type 0) (m : M h A) (next : A → M h B)
      → Respects h N m
      → ((a : A) → Respects h N (next a))
      → Respects h N (m >>= next)
  Respects-bind {A} {B} N m next first rest s t alike =
      at (m s) (m t) (first s t alike).0 (first s t alike).1
    where
      at :
          (p q : h.DelegateCtx × Result DelegateError A)
          → p.1 ≡ q.1
          → Alike h N p.0 q.0
          → ((and_then p next).1 ≡ (and_then q next).1)
            × Alike h N (and_then p next).0 (and_then q next).0
      at (s', ok a) (t', ok b) e k = rw (same a b e) (rest b s' t' k)
        where
          same : (a b : A) → ◌≡◌ {A = Result DelegateError A} (ok a) (ok b) → a ≡ b
          same a b e = cc
      at (s', err x) (t', err y) e k = (cc, k)
      at (s', ok a) (t', err y) e k = absurd (cc)
      at (s', err x) (t', ok b) e k = absurd (cc)

  module _ (N : Bytes → Type 0) where
    pub Within-answers :
        {A : Type 0} (r : Result DelegateError A) → Within h N (answers {S = h.DelegateCtx} r)
    Within-answers r = record { keeps = λ j n ctx. refl; respects = λ takes. Respects-answers N r }

    pub Within-get_secret : (k : Bytes) → N k → Within h N (get_secret h k)
    Within-get_secret k named = record {
      keeps = λ j n ctx. refl;
      respects = λ takes. Respects-get_secret N k named;
    }

    foreign : (k j : Bytes) → N k → (N j → ⊥) → (k == j) ≡ false
    foreign k j named n = ==_false k j (λ e. n (subst N e named))

    pub Within-set_secret :
        (e : DelegateError) (k v : Bytes) → N k → Within h N (set_secret h e k v)
    Within-set_secret e k v named = record {
      keeps = λ j n. Keeps-set_secret j e k v (foreign k j named n);
      respects = λ takes. Respects-set_secret N takes e k v;
    }

    pub Within-remove_secret : (k : Bytes) → N k → Within h N (remove_secret h k)
    Within-remove_secret k named = record {
      keeps = λ j n. Keeps-remove_secret j k (foreign k j named n);
      respects = λ takes. Respects-remove_secret N k;
    }

    pub Within-bind :
        {A B : Type 0} (m : M h A) (next : A → M h B)
        → Within h N m
        → ((a : A) → Within h N (next a))
        → Within h N (m >>= next)
    Within-bind m next first rest = record {
      keeps = λ j n. Keeps-bind j m next (first.keeps j n) (λ a. (rest a).keeps j n);
      respects =
          λ takes. Respects-bind N m next (first.respects takes) (λ a. (rest a).respects takes);
    }

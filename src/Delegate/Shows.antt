-- ===== src/Delegate/Shows.antt =====
-- When the store shows the drawer of an origin, and which writes keep that
-- (freetalk-delegate/src/handlers.rs).
use free_talk.Shared.{
  not, [], ◌∷◌, ◌++◌, some, ◌≡◌, ◌≢◌, refl, ap, sym, ◌∙◌, ◌==◌, list_eq, nat_eq, contains, retain,
  length, Bool-cases, ==_false, ==_refl, if◌then◌else◌, arith, inl, inr,
}
use free_talk.Shared.HashMap
use free_talk.Shared.HashMap.{HashMap}
use free_talk.Model.{Bytes, Crypto}
use free_talk.Delegate.Messages.{BoardKey, ChatDelegateKey, Origin, KeyIndex}
use free_talk.Delegate.Host.{Host, StoresSecrets, TakesWrites, Formats, EncodesNames, WritesIndex}
use free_talk.Delegate.Names.{create_origin_key, create_index_key, create_signing_key_secret_key}
use free_talk.Delegate.NameLaws.{
  origin_key_split, origin_index_split, signing_split, origin-ne-signing, index-ne-signing,
}
use free_talk.Delegate.Handlers.{index_read}
use free_talk.Delegate.Vault.{Drawer, IsPlain}
use free_talk.Delegate.Steps.{
  put, get-put, get-put_other, put_index, index_read-put_index, index_now, after_store,
}

-- The secrets of an origin are what its drawer holds.
pub record Shows (h : Host) (f : Formats) (o : Origin) (ctx : h.DelegateCtx) (d : Drawer)
    : Type 0 where
  pub values :
      (k : ChatDelegateKey)
      → IsPlain f k
      → h.get_secret ctx (create_origin_key f o k) ≡ HashMap.get k d.values
  pub index : index_read f (h.get_secret ctx (create_index_key f o)) ≡ HashMap.keys d.values
  pub signing :
      (b : BoardKey)
      → h.get_secret ctx (create_signing_key_secret_key f o b) ≡ HashMap.get b d.signing_keys
  pub lengths : (b sk : Bytes) → HashMap.get b d.signing_keys ≡ some sk → length sk ≡ 32

module _ (h : Host) (stores : StoresSecrets h) (takes : TakesWrites h) (f : Formats)
    (n : EncodesNames f) (writes : WritesIndex f) (c : Crypto) (o : Origin) where
  origin_key_beq :
      (k j : ChatDelegateKey)
      → IsPlain f k
      → IsPlain f j
      → (create_origin_key f o k == create_origin_key f o j) ≡ (k == j)
  origin_key_beq k j p q = elim (Bool-cases (k == j)) [
    | inl same ↦
        let e = (list_eq.is_eq_iff k j).0 same in rw (same, e) (==_refl (create_origin_key f o j))
    | inr other ↦ rw other (
        ==_false _ _ (λ e.
          let e' = sym p.0 ∙ ((origin_key_split f n o o k j e).1 ∙ q.0) in
          let own = (list_eq.is_eq_iff k j).1 e' in absurd (cc)))
  ]

  origin-ne-index :
      (k : ChatDelegateKey) → IsPlain f k → create_origin_key f o k ≢ create_index_key f o
  origin-ne-index k p e = p.1 (sym p.0 ∙ (origin_index_split f n o o k e).1)

  signing_beq :
      (k j : BoardKey)
      → (create_signing_key_secret_key f o k == create_signing_key_secret_key f o j) ≡ (k == j)
  signing_beq k j = elim (Bool-cases (k == j)) [
    | inl same ↦
        let e = (list_eq.is_eq_iff k j).0 same in
        rw (same, e) (==_refl (create_signing_key_secret_key f o j))
    | inr other ↦ rw other (
        ==_false _ _
          (λ e. let own = (list_eq.is_eq_iff k j).1 (signing_split f n o o k j e).1 in absurd (cc)))
  ]

  pub after_store_other :
      (ctx : h.DelegateCtx) (k : ChatDelegateKey) (keys : KeyIndex) (j : Bytes)
      → create_index_key f o ≢ j
      → h.get_secret (after_store h stores takes f writes c o ctx k keys) j ≡ h.get_secret ctx j
  unfolding after_store
  after_store_other ctx k keys j other = elim (Bool-cases (contains keys k)) [
    | inl old ↦ rw old refl
    | inr new ↦ rw new (get-put_other h stores takes f writes c o ctx _ _ j other)
  ]

  module _ (ctx : h.DelegateCtx) (d : Drawer) (shows : Shows h f o ctx d) where
    -- The store after a value is stored, and the index as it is then.
    abbrev pub with_value : ChatDelegateKey → Bytes → h.DelegateCtx
    with_value k v = put h stores takes f writes c o ctx (create_origin_key f o k) v

    pub index_now-with_value :
        (k : ChatDelegateKey) (v : Bytes)
        → IsPlain f k
        → index_now h stores takes f writes c o (with_value k v) ≡ HashMap.keys d.values
    unfolding index_now
    index_now-with_value k v p =
        ap (index_read f) (
          get-put_other h stores takes f writes c o ctx (create_origin_key f o k) v
            (create_index_key f o) (origin-ne-index k p))
        ∙ shows.index

    abbrev pub stored : ChatDelegateKey → Bytes → KeyIndex → h.DelegateCtx
    stored k v keys = after_store h stores takes f writes c o (with_value k v) k keys

    stored-index :
        (k : ChatDelegateKey) (v : Bytes) (keys : KeyIndex)
        → index_now h stores takes f writes c o (with_value k v) ≡ keys
        → keys ≡ HashMap.keys d.values
        → index_read f (h.get_secret (stored k v keys) (create_index_key f o))
          ≡ HashMap.keys (HashMap.insert k v d.values)
    unfolding after_store index_now
    stored-index k v keys now e = elim (Bool-cases (contains keys k)) [
      | inl old ↦ rw old (now ∙ (rw (HashMap.keys-insert k v d.values, ← e, old) refl))
      | inr new ↦ rw new (
          index_read-put_index h stores takes f writes c o (keys ++ k ∷ []) (with_value k v)
          ∙ rw (HashMap.keys-insert k v d.values, ← e, new) refl)
    ]

    pub stored-Shows :
        (k : ChatDelegateKey) (v : Bytes) (keys : KeyIndex)
        → IsPlain f k
        → index_now h stores takes f writes c o (with_value k v) ≡ keys
        → Shows h f o (stored k v keys) (record d { values = HashMap.insert k v d.values })
    stored-Shows k v keys p now = record {
      values = λ j q.
          after_store_other (with_value k v) k keys (create_origin_key f o j)
            (λ e. origin-ne-index j q (sym e))
          ∙ (get-put h stores takes f writes c o ctx (create_origin_key f o k) v
                (create_origin_key f o j)
              ∙ rw (origin_key_beq k j p q, shows.values j q)
                  (sym (HashMap.get-insert k j v d.values)));
      index = stored-index k v keys now (sym now ∙ index_now-with_value k v p);
      signing = λ b.
          after_store_other (with_value k v) k keys _ (index-ne-signing f n o o b)
          ∙ (get-put_other h stores takes f writes c o ctx _ v _ (origin-ne-signing f n o o k b)
              ∙ shows.signing b);
      lengths = shows.lengths;
    }

    abbrev pub without_value : ChatDelegateKey → h.DelegateCtx
    without_value k = h.remove_secret ctx (create_origin_key f o k)

    get-without_value :
        (k : ChatDelegateKey) (j : Bytes)
        → create_origin_key f o k ≢ j
        → h.get_secret (without_value k) j ≡ h.get_secret ctx j
    get-without_value k j other =
        stores.get-remove ctx (create_origin_key f o k) j ∙ rw (==_false _ j other) refl

    pub removed-Shows :
        (k : ChatDelegateKey) (keys : KeyIndex)
        → IsPlain f k
        → index_now h stores takes f writes c o (without_value k) ≡ keys
        → Shows h f o
            (put_index h stores takes f writes c o
              (without_value k)
              (retain (λ i. not (i == k)) keys))
            (record d { values = HashMap.remove k d.values })
    unfolding index_now
    removed-Shows k keys p now = record {
      values = λ j q.
          get-put_other h stores takes f writes c o (without_value k) _ _ (create_origin_key f o j)
            (λ e. origin-ne-index j q (sym e))
          ∙ (stores.get-remove ctx (create_origin_key f o k) (create_origin_key f o j)
              ∙ rw (origin_key_beq k j p q, shows.values j q)
                  (sym (HashMap.get-remove k j d.values)));
      index =
          index_read-put_index h stores takes f writes c o (retain (λ i. not (i == k)) keys)
            (without_value k)
          ∙ (ap (retain (λ i. not (i == k))) (
                sym now
                ∙ (ap (index_read f) (get-without_value k _ (origin-ne-index k p)) ∙ shows.index))
              ∙ sym (HashMap.keys-remove k d.values));
      signing = λ b.
          get-put_other h stores takes f writes c o (without_value k) _ _ _
            (index-ne-signing f n o o b)
          ∙ (get-without_value k _ (origin-ne-signing f n o o k b) ∙ shows.signing b);
      lengths = shows.lengths;
    }

    pub signed-Shows :
        (b : BoardKey) (sk : Bytes)
        → length sk ≡ 32
        → Shows h f o
            (put h stores takes f writes c o ctx (create_signing_key_secret_key f o b) sk)
            (record d { signing_keys = HashMap.insert b sk d.signing_keys })
    signed-Shows b sk l = record {
      values = λ j q.
          get-put_other h stores takes f writes c o ctx _ sk _
            (λ e. origin-ne-signing f n o o j b (sym e))
          ∙ shows.values j q;
      index =
          ap (index_read f) (
            get-put_other h stores takes f writes c o ctx _ sk _
              (λ e. index-ne-signing f n o o b (sym e)))
          ∙ shows.index;
      signing = λ j.
          get-put h stores takes f writes c o ctx (create_signing_key_secret_key f o b) sk
            (create_signing_key_secret_key f o j)
          ∙ rw (signing_beq b j, shows.signing j) (sym (HashMap.get-insert b j sk d.signing_keys));
      lengths = λ j k e. insert_length j k (sym (HashMap.get-insert b j sk d.signing_keys) ∙ e);
    }
      where
        insert_length :
            (j k : Bytes)
            → (if b == j then some sk else HashMap.get j d.signing_keys) ≡ some k
            → length k ≡ 32
        insert_length j k e = ground (arith, l, shows.lengths j k)

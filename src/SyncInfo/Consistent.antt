-- ===== src/SyncInfo/Consistent.antt =====
-- What every state of `SyncInfo` satisfies, and the changes of one entry that keep it
-- (ui/src/components/app/sync_info.rs).
use free_talk.Shared.{
  ℕ, Bool, true, false, Option, none, some, ◌==◌, ==_refl, list_eq, nat_eq, if◌then◌else◌, ◌≡◌,
  refl, sym, ap, subst, ◌∙◌, Bool-cases, inl, inr,
}
use free_talk.Shared.HashMap
use free_talk.Shared.HashMap.{HashMap}
use mathlib.Core.Option
use free_talk.Model.{VerifyingKey}
use free_talk.SyncInfo.{
  ContractInstanceId, BoardSyncStatus, BoardSyncInfo, SyncInfo, is_subscribing, fresh, new,
  register_new_board, update_sync_status, update_last_synced_state,
}

module _ {State : Type 0} where
  -- A board's entry says since when it is subscribing exactly while it is.
  abbrev pub is_dated : BoardSyncInfo State → Bool
  is_dated info = elim info.subscribing_since [ none ↦ false | some since ↦ true ]

  abbrev pub IsDated : BoardSyncInfo State → Type 0
  IsDated info = is_dated info ≡ is_subscribing info.sync_status

  some_inj :
      {info other : BoardSyncInfo State}
      → ◌≡◌ {A = Option (BoardSyncInfo State)} (some info) (some other)
      → info ≡ other
  some_inj {info} h = ap (λ o. elim o [ none ↦ info | some i ↦ i ]) h

module _ {State : Type 0} (contract_id : VerifyingKey → ContractInstanceId) where
  pub record IsConsistent (self : SyncInfo State) : Type 0 where
    pub finds :
        (k : VerifyingKey) (info : BoardSyncInfo State)
        → HashMap.get k self.map ≡ some info
        → HashMap.get (contract_id k) self.instances ≡ some k
    pub dated :
        (k : VerifyingKey) (info : BoardSyncInfo State)
        → HashMap.get k self.map ≡ some info
        → IsDated info

  pub new-IsConsistent : IsConsistent new
  unfolding new
  new-IsConsistent = record { finds = λ k info h. cc; dated = λ k info h. cc }

  -- A change of one entry.
  pub modify-IsConsistent :
      (key : VerifyingKey) (f : BoardSyncInfo State → BoardSyncInfo State) (self : SyncInfo State)
      → ((info : BoardSyncInfo State) → IsDated info → IsDated (f info))
      → IsConsistent self
      → IsConsistent (record self { map = HashMap.modify key f self.map })
  modify-IsConsistent key f self keeps c = record {
    finds = λ k info h.
        let before =
          was (key == k) (HashMap.get k self.map) info
            (sym (HashMap.get-modify key k f self.map) ∙ h) in
        c.finds k before.0 before.1;
    dated = λ k info h.
        let before =
          was (key == k) (HashMap.get k self.map) info
            (sym (HashMap.get-modify key k f self.map) ∙ h) in
        before.2 (c.dated k before.0 before.1);
  }
    where
      was :
          (b : Bool) (o : Option (BoardSyncInfo State)) (info : BoardSyncInfo State)
          → (if b then Option.map f o else o) ≡ some info
          → (old : BoardSyncInfo State) × (o ≡ some old) × (IsDated old → IsDated info)
      was true none info h = cc
      was true (some old) info h = (old, refl, λ d. subst IsDated (some_inj h) (keeps old d))
      was false o info h = (info, h, λ d. d)

  pub update_last_synced_state-IsConsistent :
      (key : VerifyingKey) (state : State) (self : SyncInfo State)
      → IsConsistent self
      → IsConsistent (update_last_synced_state key state self)
  unfolding update_last_synced_state
  update_last_synced_state-IsConsistent key state self c =
      modify-IsConsistent key (λ info. record info { last_synced_state = some state }) self
        (λ info d. d) c

  pub update_sync_status-IsConsistent :
      (now : ℕ) (key : VerifyingKey) (status : BoardSyncStatus) (self : SyncInfo State)
      → IsConsistent self
      → IsConsistent (update_sync_status now key status self)
  unfolding update_sync_status
  update_sync_status-IsConsistent now key status self c =
      modify-IsConsistent key _ self (λ info d. dates (is_subscribing status)) c
    where
      dates :
          (b : Bool) → elim (if b then some now else none) [ none ↦ false | some since ↦ true ] ≡ b
      dates true = refl
      dates false = refl

  module _ (injective : (k j : VerifyingKey) → contract_id k ≡ contract_id j → k ≡ j) where
    pub register_new_board-IsConsistent :
        (key : VerifyingKey) (self : SyncInfo State)
        → IsConsistent self
        → IsConsistent (register_new_board contract_id key self)
    unfolding register_new_board
    register_new_board-IsConsistent key self c =
        elim (Bool-cases (HashMap.contains_key key self.map)) [
          | inl there ↦ rw there c
          | inr absent ↦ rw absent (record {
            finds = λ k info h.
                rw (HashMap.get-insert (contract_id key) (contract_id k) key self.instances)
                  (found k info (sym (HashMap.get-insert key k fresh self.map) ∙ h));
            dated = λ k info h.
                known k info (key == k) (sym (HashMap.get-insert key k fresh self.map) ∙ h);
          })
        ]
      where
        found :
            (k : VerifyingKey) (info : BoardSyncInfo State)
            → (if key == k then some fresh else HashMap.get k self.map) ≡ some info
            → (if contract_id key == contract_id k
                then some key
                else HashMap.get (contract_id k) self.instances)
              ≡ some k
        found k info h = elim (Bool-cases (contract_id key == contract_id k)) [
          | inl same ↦ rw same (
              ap some
                (injective key k ((list_eq.is_eq_iff (contract_id key) (contract_id k)).0 same)))
          | inr other ↦
              let differ : (key == k) ≡ false = elim (Bool-cases (key == k)) [
                | inl e ↦
                    let same : (contract_id key == contract_id k) ≡ true =
                      subst (λ x. (contract_id key == contract_id x) ≡ true)
                        ((list_eq.is_eq_iff key k).0 e) (==_refl (contract_id key)) in
                    cc
                | inr e ↦ e
              ] in
              rw other (c.finds k info ((rw differ refl) ∙ h))
        ]

        known :
            (k : VerifyingKey) (info : BoardSyncInfo State) (b : Bool)
            → (if b then some fresh else HashMap.get k self.map) ≡ some info
            → IsDated info
        known k info true h = subst IsDated (some_inj h) refl
        known k info false h = c.dated k info h

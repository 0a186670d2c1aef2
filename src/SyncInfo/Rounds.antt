-- ===== src/SyncInfo/Rounds.antt =====
-- One round of each loop of ui/src/components/app/sync_info.rs.
use free_talk.Shared.{
  leb, ◌+◌, ℕ, Bool, true, false, not, ◌&&◌, ◌||◌, [], ◌∷◌, Option, none, some, Option-cases,
  PartialEq, ◌==◌, ==_refl, list_eq, nat_eq, if◌then◌else◌, ◌≡◌, refl, ◌∙◌, inl, inr, arith,
}
use free_talk.Shared.HashMap
use free_talk.Shared.HashMap.{HashMap}
use mathlib.Core.Option
use free_talk.Model.{VerifyingKey}
use free_talk.SyncInfo.{
  is_subscribing, ContractInstanceId, BoardSyncStatus, disconnected, subscribing, subscribed, error,
  reput_delay_ms, BoardSyncInfo, SyncInfo, is_disconnected, is_subscribed, fresh, is_timed_out,
  is_synced, register_new_board, update_last_synced_state, awaiting_step, update_step,
}

module _ {State : Type 0} where
  -- A board is due: it is not known yet, it is disconnected, or it is subscribing since twenty seconds.
  abbrev pub is_due : ℕ → Option (BoardSyncInfo State) → Bool
  is_due now none = true
  is_due now (some info) = elim info.sync_status [
    | disconnected ↦ true
    | subscribing ↦ elim info.subscribing_since [
      | none ↦ false
      | some since ↦ leb (since + 20000) now
    ]
    | subscribed ↦ false
    | error message ↦ false
  ]

  is_due_lem :
      (now : ℕ) (info : BoardSyncInfo State)
      → (is_disconnected info.sync_status || is_timed_out now info) ≡ is_due now (some info)
  unfolding is_timed_out
  is_due_lem now info = by_status info.sync_status info.subscribing_since
    where
      by_status :
          (status : BoardSyncStatus) (since : Option ℕ)
          → (is_disconnected status
              || (is_subscribing status && elim since [
                | none ↦ false
                | some started_at ↦ leb (started_at + reput_delay_ms) now
              ]))
            ≡ elim status [
              | disconnected ↦ true
              | subscribing ↦ elim since [ none ↦ false | some t ↦ leb (t + 20000) now ]
              | subscribed ↦ false
              | error message ↦ false
            ]
      by_status disconnected since = refl
      by_status subscribing none = refl
      by_status subscribing (some t) = refl
      by_status subscribed since = refl
      by_status (error message) since = refl

  module _ ⦃e : PartialEq State⦄ where
    -- A board is to be sent: it is subscribed, and its state is not the one that was synced last.
    abbrev pub is_unsent : Option (BoardSyncInfo State) → State → Bool
    is_unsent none state = false
    is_unsent (some info) state = elim info.sync_status [
      | disconnected ↦ false
      | subscribing ↦ false
      | subscribed ↦ elim info.last_synced_state [ none ↦ true | some last ↦ not (last == state) ]
      | error message ↦ false
    ]

    is_unsent_lem :
        (state : State) (info : BoardSyncInfo State)
        → (is_subscribed info.sync_status && not (is_synced state info))
          ≡ is_unsent (some info) state
    is_unsent_lem state info = by_status info.sync_status info.last_synced_state
      where
        by_status :
            (status : BoardSyncStatus) (synced : Option State)
            → (is_subscribed status
                && not (elim synced [ none ↦ false | some last ↦ last == state ]))
              ≡ elim status [
                | disconnected ↦ false
                | subscribing ↦ false
                | subscribed ↦ elim synced [ none ↦ true | some last ↦ not (last == state) ]
                | error message ↦ false
              ]
        by_status disconnected synced = refl
        by_status subscribing synced = refl
        by_status subscribed none = refl
        by_status subscribed (some last) = refl
        by_status (error message) synced = refl

  -- The entry of a board that was looked at: a new one, with its state, if there was none.
  abbrev pub known : Option State → Option (BoardSyncInfo State) → BoardSyncInfo State
  known state none = record fresh { last_synced_state = state }
  known state (some info) = info

  -- No entry of a key that is not there.
  missing :
      (k : VerifyingKey) (m : HashMap VerifyingKey (BoardSyncInfo State))
      → HashMap.get k m ≡ none
      → HashMap.contains_key k m ≡ false
  missing k [] h = refl
  missing k ((j, v) ∷ m) h = ground (arith, missing k m)

  module _ (contract_id : VerifyingKey → ContractInstanceId) where
    pub awaiting_step-map :
        (now : ℕ) (key k : VerifyingKey) (state : State) (self : SyncInfo State)
        (acc : HashMap VerifyingKey State)
        → HashMap.get k (awaiting_step contract_id now key state (self, acc)).0.map ≡ (
            if key == k
            then some (known (some state) (HashMap.get key self.map))
            else HashMap.get k self.map)
    unfolding awaiting_step register_new_board update_last_synced_state
    awaiting_step-map now key k state self acc = elim (Option-cases (HashMap.get key self.map)) [
      | inl none_yet ↦
          rw (none_yet, missing key self.map none_yet)
            (HashMap.get-modify key k
                (λ (info : BoardSyncInfo State). record info { last_synced_state = some state })
                (HashMap.insert key fresh self.map)
              ∙ rw (HashMap.get-insert key k fresh self.map)
                  (rest (key == k) (HashMap.get k self.map)))
      | inr there ↦
          rw (there.1, HashMap.contains_key_of_get key there.0 self.map there.1)
            (same (key == k) refl there.0 there.1)
    ]
      where
        rest :
            (b : Bool) (o : Option (BoardSyncInfo State))
            → (if b
                then Option.map
                    (λ (info : BoardSyncInfo State). record info { last_synced_state = some state })
                    (if b then some fresh else o)
                else (if b then some fresh else o))
              ≡ (if b then some (known (some state) none) else o)
        rest true o = refl
        rest false o = refl

        same :
            (b : Bool)
            → (key == k) ≡ b
            → (info : BoardSyncInfo State) → HashMap.get key self.map ≡ some info
            → HashMap.get k self.map ≡ (if b then some info else HashMap.get k self.map)
        same true e info h = rw (← (list_eq.is_eq_iff key k).0 e) h
        same false e info h = refl

    pub awaiting_step-chosen :
        (now : ℕ) (key k : VerifyingKey) (state : State) (self : SyncInfo State)
        (acc : HashMap VerifyingKey State)
        → HashMap.get k (awaiting_step contract_id now key state (self, acc)).1 ≡ (
            if key == k
            then (if is_due now (HashMap.get key self.map) then some state else HashMap.get k acc)
            else HashMap.get k acc)
    unfolding awaiting_step
    awaiting_step-chosen now key k state self acc =
        rw (awaiting_step-map now key key state self acc, ==_refl key)
          (at (HashMap.get key self.map))
      where
        inserted :
            (test : Bool)
            → HashMap.get k (if test then HashMap.insert key state acc else acc) ≡ (
                if key == k
                then (if test then some state else HashMap.get k acc)
                else HashMap.get k acc)
        inserted true = HashMap.get-insert key k state acc
        inserted false = ground arith

        at :
            (o : Option (BoardSyncInfo State))
            → HashMap.get k (
                if is_disconnected (known (some state) o).sync_status
                  || is_timed_out now (known (some state) o)
                then HashMap.insert key state acc
                else acc)
              ≡ (if key == k
                  then (if is_due now o then some state else HashMap.get k acc)
                  else HashMap.get k acc)
        at none = inserted true
        at (some info) =
            rw (← is_due_lem now info)
              (inserted (is_disconnected info.sync_status || is_timed_out now info))

    -- The body of the other loop: a board that is not known is registered without its state.
    module _ ⦃e : PartialEq State⦄ where
      pub update_step-map :
          (key k : VerifyingKey) (state : State) (self : SyncInfo State)
          (acc : HashMap VerifyingKey State)
          → HashMap.get k (update_step contract_id key state (self, acc)).0.map ≡ (
              if key == k
              then some (known none (HashMap.get key self.map))
              else HashMap.get k self.map)
      unfolding update_step register_new_board
      update_step-map key k state self acc = elim (Option-cases (HashMap.get key self.map)) [
        | inl none_yet ↦
            rw (none_yet, missing key self.map none_yet) (HashMap.get-insert key k fresh self.map)
        | inr there ↦
            rw (there.1, HashMap.contains_key_of_get key there.0 self.map there.1)
              (same (key == k) refl there.0 there.1)
      ]
        where
          same :
              (b : Bool)
              → (key == k) ≡ b
              → (info : BoardSyncInfo State) → HashMap.get key self.map ≡ some info
              → HashMap.get k self.map ≡ (if b then some info else HashMap.get k self.map)
          same true e info h = rw (← (list_eq.is_eq_iff key k).0 e) h
          same false e info h = refl

      pub update_step-chosen :
          (key k : VerifyingKey) (state : State) (self : SyncInfo State)
          (acc : HashMap VerifyingKey State)
          → HashMap.get k (update_step contract_id key state (self, acc)).1 ≡ (
              if key == k
              then (if is_unsent (HashMap.get key self.map) state
                  then some state
                  else HashMap.get k acc)
              else HashMap.get k acc)
      unfolding update_step
      update_step-chosen key k state self acc =
          rw (update_step-map key key state self acc, ==_refl key) (at (HashMap.get key self.map))
        where
          inserted :
              (test : Bool)
              → HashMap.get k (if test then HashMap.insert key state acc else acc) ≡ (
                  if key == k
                  then (if test then some state else HashMap.get k acc)
                  else HashMap.get k acc)
          inserted true = HashMap.get-insert key k state acc
          inserted false = ground arith

          at :
              (o : Option (BoardSyncInfo State))
              → HashMap.get k (
                  if is_subscribed (known none o).sync_status
                    && not (is_synced state (known none o))
                  then HashMap.insert key state acc
                  else acc)
                ≡ (if key == k
                    then (if is_unsent o state then some state else HashMap.get k acc)
                    else HashMap.get k acc)
          at none = inserted false
          at (some info) =
              rw (← is_unsent_lem state info)
                (inserted (is_subscribed info.sync_status && not (is_synced state info)))

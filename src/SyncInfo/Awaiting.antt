-- ===== src/SyncInfo/Awaiting.antt =====
-- Which boards `boards_awaiting_subscription` and `needs_to_send_update` return
-- (ui/src/components/app/sync_info.rs).
use free_talk.Shared.{
  ℕ, [], ◌∷◌, Option, none, some, PartialEq, ==_refl, list_eq, nat_eq, if◌then◌else◌, ◌≡◌, refl, ap,
  ◌∙◌, Distinct, arith,
}
use free_talk.Shared.HashMap
use free_talk.Shared.HashMap.{HashMap}
use mathlib.Core.Option
use free_talk.Model.{VerifyingKey}
use free_talk.SyncInfo.{
  ContractInstanceId, BoardSyncInfo, SyncInfo, awaiting_step, awaiting_loop,
  boards_awaiting_subscription, update_step, update_loop, needs_to_send_update, state_updated,
}
use free_talk.SyncInfo.Rounds.{
  is_due, is_unsent, known, awaiting_step-map, awaiting_step-chosen, update_step-map,
  update_step-chosen,
}
use free_talk.SyncInfo.Loops.{
  Found, loop, entry_after, returned, loop_lem, reset, left, reset_found,
}

module _ {State : Type 0} where
  when_due :
      (now : ℕ) (board : Option State) (entry : Option (BoardSyncInfo State)) (state : State)
      → returned (λ e s. is_due now e) board entry none ≡ some state
      → left (returned (λ e s. is_due now e) board entry none) (entry_after some board entry)
        ≡ some (reset (known (some state) entry))
  when_due now none entry state h = cc
  when_due now (some s) none state h = rw h refl
  when_due now (some s) (some info) state h = rw h refl

  when_not_due :
      (now : ℕ) (board : Option State) (entry : Option (BoardSyncInfo State))
      → returned (λ e s. is_due now e) board entry none ≡ none
      → left (returned (λ e s. is_due now e) board entry none) (entry_after some board entry)
        ≡ entry
  when_not_due now none entry h = refl
  when_not_due now (some s) none h = cc
  when_not_due now (some s) (some info) h = rw h refl

module _ {State : Type 0} (contract_id : VerifyingKey → ContractInstanceId) where
  awaiting_loop_lem :
      (now : ℕ) (boards : HashMap VerifyingKey State) (acc : Found State)
      → awaiting_loop contract_id now boards acc ≡ loop (awaiting_step contract_id now) boards acc
  unfolding awaiting_loop loop
  awaiting_loop_lem now [] acc = refl
  awaiting_loop_lem now ((key, state) ∷ boards) acc =
      awaiting_loop_lem now boards (awaiting_step contract_id now key state acc)

  update_loop_lem :
      ⦃e : PartialEq State⦄ (boards : HashMap VerifyingKey State) (acc : Found State)
      → update_loop contract_id boards acc ≡ loop (update_step contract_id) boards acc
  unfolding update_loop loop
  update_loop_lem [] acc = refl
  update_loop_lem ((key, state) ∷ boards) acc =
      update_loop_lem boards (update_step contract_id key state acc)

  -- Of boards with distinct keys, one is returned exactly when it is due: it was not known, or
  -- disconnected, or its subscription did not come within the delay. The entry of a board that is
  -- returned is a new one with the board's state, if there was none, and is disconnected if it was
  -- subscribing; the entry of any other board stays.
  pub boards_awaiting_subscription_lem :
      (now : ℕ) (boards : HashMap VerifyingKey State) (self : SyncInfo State) (k : VerifyingKey)
      → Distinct (HashMap.keys boards)
      → (HashMap.get k (boards_awaiting_subscription contract_id now boards self).1
          ≡ returned
              (λ entry state. is_due now entry)
              (HashMap.get k boards)
              (HashMap.get k self.map)
              none)
        × ((state : State)
            → HashMap.get k (boards_awaiting_subscription contract_id now boards self).1
              ≡ some state
            → HashMap.get k (boards_awaiting_subscription contract_id now boards self).0.map
              ≡ some (reset (known (some state) (HashMap.get k self.map))))
        × (HashMap.get k (boards_awaiting_subscription contract_id now boards self).1 ≡ none
            → HashMap.get k (boards_awaiting_subscription contract_id now boards self).0.map
              ≡ HashMap.get k self.map)
  unfolding boards_awaiting_subscription
  boards_awaiting_subscription_lem now boards self k d =
      rw (awaiting_loop_lem now boards (self, [])) (
        let found = loop (awaiting_step contract_id now) boards (self, []) in
        let after =
          loop_lem (awaiting_step contract_id now) some (λ entry state. is_due now entry)
            (λ key j state info acc. awaiting_step-map contract_id now key j state info acc)
            (λ key j state info acc. awaiting_step-chosen contract_id now key j state info acc) k
            boards self [] d in
        let at_end =
          reset_found k found.1 found.0.map
          ∙ ap (λ entry. left (HashMap.get k found.1) entry) after.0
          ∙ ap (λ o. left o (entry_after some (HashMap.get k boards) (HashMap.get k self.map)))
              after.1 in
        rw (at_end, after.1)
          (
            refl,
            (λ state h. when_due now (HashMap.get k boards) (HashMap.get k self.map) state h),
            (λ h. when_not_due now (HashMap.get k boards) (HashMap.get k self.map) h),
          ))

  -- Of boards with distinct keys, one is returned exactly when it is subscribed and its state is not
  -- the one that was synced last. No entry changes, but boards that were not known are registered.
  pub needs_to_send_update_lem :
      ⦃e : PartialEq State⦄ (boards : HashMap VerifyingKey State) (self : SyncInfo State)
      (k : VerifyingKey)
      → Distinct (HashMap.keys boards)
      → (HashMap.get k (needs_to_send_update contract_id boards self).1
          ≡ returned is_unsent (HashMap.get k boards) (HashMap.get k self.map) none)
        × (HashMap.get k (needs_to_send_update contract_id boards self).0.map
            ≡ entry_after (λ state. none) (HashMap.get k boards) (HashMap.get k self.map))
  unfolding needs_to_send_update
  needs_to_send_update_lem boards self k d = rw (update_loop_lem boards (self, [])) (
      let after =
        loop_lem (update_step contract_id) (λ state. none) is_unsent
          (λ key j state info acc. update_step-map contract_id key j state info acc)
          (λ key j state info acc. update_step-chosen contract_id key j state info acc) k boards
          self [] d in
      (after.1, after.0))

  -- A board whose state was sent and is the current one is not sent again.
  sent_lem :
      ⦃e : PartialEq State⦄ (boards : HashMap VerifyingKey State) (self : SyncInfo State)
      (k : VerifyingKey) (state : State)
      → Distinct (HashMap.keys boards)
      → HashMap.get k boards ≡ some state
      → HashMap.get k (needs_to_send_update contract_id boards (state_updated k state self)).1
        ≡ none
  unfolding state_updated
  sent_lem boards self k state d h =
      (needs_to_send_update_lem boards (state_updated k state self) k d).0
      ∙ rw
          (
            h,
            HashMap.get-modify k k
                (λ (info : BoardSyncInfo State). record info { last_synced_state = some state })
                self.map,
            ==_refl k,
          )
          (by_entry (HashMap.get k self.map))
    where
      by_entry :
          (o : Option (BoardSyncInfo State))
          → (if is_unsent
                (Option.map
                  (λ (info : BoardSyncInfo State). record info { last_synced_state = some state })
                  o)
                state
              then some state
              else none)
            ≡ none
      by_entry none = refl
      by_entry (some info) = ground (arith, ==_refl state)

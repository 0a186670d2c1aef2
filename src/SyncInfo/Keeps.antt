-- ===== src/SyncInfo/Keeps.antt =====
-- What every operation of `SyncInfo` keeps (ui/src/components/app/sync_info.rs): any sequence of
-- calls, in any order, with any boards and at any times.
use free_talk.Shared.{
  ℕ, Bool, true, false, List, [], ◌∷◌, none, some, PartialEq, list_eq, nat_eq, if◌then◌else◌, ◌≡◌,
  refl, sym, Bool-cases, inl, inr,
}
use free_talk.Shared.HashMap
use free_talk.Shared.HashMap.{HashMap}
use free_talk.Model.{VerifyingKey}
use free_talk.SyncInfo.{
  ContractInstanceId, BoardSyncStatus, BoardSyncInfo, disconnected, SyncInfo, is_subscribing, new,
  register_new_board, update_sync_status, update_last_synced_state, get_owner_vk_for_instance_id,
  state_updated, awaiting_step, awaiting_loop, reset_loop, boards_awaiting_subscription,
  update_step, update_loop, needs_to_send_update,
}
use free_talk.SyncInfo.Consistent.{
  IsDated, IsConsistent, new-IsConsistent, modify-IsConsistent, register_new_board-IsConsistent,
  update_last_synced_state-IsConsistent, update_sync_status-IsConsistent,
}

module _ {State : Type 0} (contract_id : VerifyingKey → ContractInstanceId)
    ⦃e : PartialEq State⦄ where
  -- One call of an operation that changes the state.
  pub data Step : SyncInfo State → SyncInfo State → Type 0 where
    registers :
        {self : SyncInfo State}
        → (owner_key : VerifyingKey) → Step self (register_new_board contract_id owner_key self)
    sets_status :
        {self : SyncInfo State}
        → (now : ℕ) (owner_key : VerifyingKey) (status : BoardSyncStatus)
        → Step self (update_sync_status now owner_key status self)
    syncs :
        {self : SyncInfo State}
        → (owner_key : VerifyingKey) (state : State)
        → Step self (update_last_synced_state owner_key state self)
    sends :
        {self : SyncInfo State}
        → (owner_key : VerifyingKey) (state : State)
        → Step self (state_updated owner_key state self)
    subscribes :
        {self : SyncInfo State}
        → (now : ℕ) (boards : HashMap VerifyingKey State)
        → Step self (boards_awaiting_subscription contract_id now boards self).0
    compares :
        {self : SyncInfo State}
        → (boards : HashMap VerifyingKey State)
        → Step self (needs_to_send_update contract_id boards self).0

  -- The states that calls lead to, from the one of `SyncInfo::new`.
  pub data IsReached : SyncInfo State → Type 0 where
    starts : IsReached new
    steps : {self next : SyncInfo State} → IsReached self → Step self next → IsReached next

  module _ (injective : (k j : VerifyingKey) → contract_id k ≡ contract_id j → k ≡ j) where
    awaiting_loop-IsConsistent :
        (now : ℕ) (boards : HashMap VerifyingKey State)
        (acc : SyncInfo State × HashMap VerifyingKey State)
        → IsConsistent contract_id acc.0
        → IsConsistent contract_id (awaiting_loop contract_id now boards acc).0
    unfolding awaiting_loop awaiting_step
    awaiting_loop-IsConsistent now [] acc c = c
    awaiting_loop-IsConsistent now ((key, state) ∷ boards) acc c =
        awaiting_loop-IsConsistent now boards (awaiting_step contract_id now key state acc)
          (round (HashMap.contains_key key acc.0.map))
      where
        round :
            (b : Bool)
            → IsConsistent contract_id (
                if b
                then acc.0
                else update_last_synced_state key state (register_new_board contract_id key acc.0))
        round true = c
        round false =
            update_last_synced_state-IsConsistent contract_id key state _
              (register_new_board-IsConsistent contract_id injective key acc.0 c)

    update_loop-IsConsistent :
        (boards : HashMap VerifyingKey State) (acc : SyncInfo State × HashMap VerifyingKey State)
        → IsConsistent contract_id acc.0
        → IsConsistent contract_id (update_loop contract_id boards acc).0
    unfolding update_loop update_step
    update_loop-IsConsistent [] acc c = c
    update_loop-IsConsistent ((key, state) ∷ boards) acc c =
        update_loop-IsConsistent boards (update_step contract_id key state acc)
          (round (HashMap.contains_key key acc.0.map))
      where
        round :
            (b : Bool)
            → IsConsistent contract_id
                (if b then acc.0 else register_new_board contract_id key acc.0)
        round true = c
        round false = register_new_board-IsConsistent contract_id injective key acc.0 c

    reset_loop-IsConsistent :
        (keys : List VerifyingKey) (self : SyncInfo State)
        → IsConsistent contract_id self
        → IsConsistent contract_id (record self { map = reset_loop keys self.map })
    unfolding reset_loop
    reset_loop-IsConsistent [] self c = c
    reset_loop-IsConsistent (key ∷ keys) self c = reset_loop-IsConsistent keys _ (
        modify-IsConsistent contract_id key
          (λ info.
            if is_subscribing info.sync_status
            then record info { sync_status = disconnected; subscribing_since = none }
            else info)
          self resets c)
      where
        resets :
            (info : BoardSyncInfo State)
            → IsDated info
            → IsDated (
                if is_subscribing info.sync_status
                then record info { sync_status = disconnected; subscribing_since = none }
                else info)
        resets info d = elim (Bool-cases (is_subscribing info.sync_status)) [
          | inl e ↦ rw e refl
          | inr e ↦ rw e d
        ]

    Step-IsConsistent :
        {self next : SyncInfo State}
        → Step self next
        → IsConsistent contract_id self
        → IsConsistent contract_id next
    unfolding state_updated boards_awaiting_subscription needs_to_send_update
    Step-IsConsistent (registers key) c =
        register_new_board-IsConsistent contract_id injective key _ c
    Step-IsConsistent (sets_status now key status) c =
        update_sync_status-IsConsistent contract_id now key status _ c
    Step-IsConsistent (syncs key state) c =
        update_last_synced_state-IsConsistent contract_id key state _ c
    Step-IsConsistent (sends {self} key state) c =
        modify-IsConsistent contract_id key (λ info. record info { last_synced_state = some state })
          self (λ info d. d) c
    Step-IsConsistent (subscribes {self} now boards) c =
        let found = awaiting_loop contract_id now boards (self, []) in
        reset_loop-IsConsistent (HashMap.keys found.1) found.0
          (awaiting_loop-IsConsistent now boards (self, []) c)
    Step-IsConsistent (compares {self} boards) c = update_loop-IsConsistent boards (self, []) c

    IsReached-IsConsistent :
        {self : SyncInfo State} → IsReached self → IsConsistent contract_id self
    IsReached-IsConsistent starts = new-IsConsistent contract_id
    IsReached-IsConsistent (steps r s) = Step-IsConsistent s (IsReached-IsConsistent r)

    -- Whatever calls were made since `SyncInfo::new`, where two boards have different contracts: a board
    -- that has an entry is found by its contract's identifier, and its entry says since when it is
    -- subscribing exactly while it is.
    pub reached_lem :
        {self : SyncInfo State} (k : VerifyingKey) (info : BoardSyncInfo State)
        → IsReached self
        → HashMap.get k self.map ≡ some info
        → (get_owner_vk_for_instance_id (contract_id k) self ≡ some k)
          × (is_subscribing info.sync_status
              ≡ elim info.subscribing_since [ none ↦ false | some since ↦ true ])
    unfolding get_owner_vk_for_instance_id
    reached_lem k info r h =
        let c = IsReached-IsConsistent r in (c.finds k info h, sym (c.dated k info h))

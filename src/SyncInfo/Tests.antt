-- ===== src/SyncInfo/Tests.antt =====
-- Examples for ui/src/components/app/sync_info.rs, with numbers for states of boards and a contract
-- that is named like its board.
use free_talk.Shared.{ℕ, true, [], ◌∷◌, none, some, list_eq, nat_eq, ◌≡◌, refl}
use free_talk.Shared.HashMap
use free_talk.Shared.HashMap.{HashMap}
use free_talk.Model.{VerifyingKey}
use free_talk.SyncInfo.{
  ContractInstanceId, BoardSyncInfo, SyncInfo, subscribing, subscribed, new, is_subscribing,
  register_new_board, update_sync_status, get_owner_vk_for_instance_id,
  boards_awaiting_subscription, needs_to_send_update,
}
use free_talk.SyncInfo.Rounds.{is_due, is_unsent, known}
use free_talk.SyncInfo.Loops.{returned, reset}
use free_talk.SyncInfo.Awaiting.{boards_awaiting_subscription_lem, needs_to_send_update_lem}
use free_talk.SyncInfo.Keeps.{IsReached, starts, steps, registers, sets_status, reached_lem}

abbrev same : VerifyingKey → ContractInstanceId
same key = key

abbrev first : VerifyingKey
first = 1 ∷ []

abbrev second : VerifyingKey
second = 2 ∷ []

abbrev slow : BoardSyncInfo ℕ
slow = record {
  sync_status = subscribing;
  last_synced_state = some 5;
  subscribing_since = some 1000;
}

abbrev ready : BoardSyncInfo ℕ
ready = record { sync_status = subscribed; last_synced_state = some 6; subscribing_since = none }

abbrev info : SyncInfo ℕ
info = record {
  map = (first, slow) ∷ (second, ready) ∷ [];
  instances = (first, first) ∷ (second, second) ∷ [];
}

abbrev boards : HashMap VerifyingKey ℕ
boards = (first, 5) ∷ (second, 7) ∷ []

-- The board `first` is returned after twenty seconds, and not before.
late : HashMap.get first (boards_awaiting_subscription same 21000 boards info).1 ≡ some 5
unfolding boards_awaiting_subscription
late = refl

early : HashMap.get first (boards_awaiting_subscription same 20999 boards info).1 ≡ none
unfolding boards_awaiting_subscription
early = refl

changed : HashMap.get second (needs_to_send_update same boards info).1 ≡ some 7
unfolding needs_to_send_update
changed = refl

boards_awaiting_subscription_lem_example :
    (HashMap.get first (boards_awaiting_subscription same 21000 boards info).1
      ≡ returned (λ entry state. is_due 21000 entry) (some 5) (some slow) none)
    × ((state : ℕ)
        → HashMap.get first (boards_awaiting_subscription same 21000 boards info).1 ≡ some state
        → HashMap.get first (boards_awaiting_subscription same 21000 boards info).0.map
          ≡ some (reset (known (some state) (some slow))))
    × (HashMap.get first (boards_awaiting_subscription same 21000 boards info).1 ≡ none
        → HashMap.get first (boards_awaiting_subscription same 21000 boards info).0.map ≡ some slow)
boards_awaiting_subscription_lem_example =
    boards_awaiting_subscription_lem same 21000 boards info first (refl, (refl, tt))

needs_to_send_update_lem_example :
    (HashMap.get second (needs_to_send_update same boards info).1
      ≡ returned is_unsent (some 7) (some ready) none)
    × (HashMap.get second (needs_to_send_update same boards info).0.map ≡ some ready)
needs_to_send_update_lem_example =
    needs_to_send_update_lem same boards info second (refl, (refl, tt))

-- `first` is registered and then subscribing.
abbrev calls : SyncInfo ℕ
calls = update_sync_status 1000 first subscribing (register_new_board same first new)

IsReached-calls : IsReached same calls
IsReached-calls = steps (steps starts (registers first)) (sets_status 1000 first subscribing)

at_first :
    HashMap.get first calls.map
    ≡ some (record {
      sync_status = subscribing;
      last_synced_state = none;
      subscribing_since = some 1000;
    })
unfolding update_sync_status register_new_board new
at_first = refl

reached_lem_example :
    (get_owner_vk_for_instance_id first calls ≡ some first) × (is_subscribing subscribing ≡ true)
reached_lem_example =
    reached_lem same (λ k j e. e) first
      (record {
        sync_status = subscribing;
        last_synced_state = none;
        subscribing_since = some 1000;
      })
      IsReached-calls at_first

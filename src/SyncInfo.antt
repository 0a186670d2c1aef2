-- ===== src/SyncInfo.antt =====
-- ui/src/components/app/sync_info.rs: which boards a client has to subscribe to and to send. A board's
-- state is only copied and compared, so its type is a parameter with its equality. Times are in
-- milliseconds. `BOARDS` is the argument `boards`, and `now_ms()` the argument `now`.
mod Rounds
mod Loops
pub mod Awaiting
mod Consistent
pub mod Keeps
mod Tests
use free_talk.Shared.{
  ℕ, ◌+◌, Bool, true, false, not, ◌&&◌, ◌||◌, List, [], ◌∷◌, Option, none, some, PartialEq, ◌==◌,
  list_eq, nat_eq, leb, if◌then◌else◌, ◌≡◌, ◌↔◌, ◌≢◌,
}
use free_talk.Shared.HashMap
use free_talk.Shared.HashMap.{HashMap}
use free_talk.Model.{Bytes, Text, VerifyingKey}

abbrev pub ContractInstanceId : Type 0
ContractInstanceId = Bytes

pub data BoardSyncStatus : Type 0 where
  disconnected subscribing subscribed : BoardSyncStatus
  error : (message : Text) → BoardSyncStatus

-- `status == BoardSyncStatus::Disconnected`, and for the other two
abbrev pub is_disconnected : BoardSyncStatus → Bool
is_disconnected disconnected = true
is_disconnected _ = false

abbrev pub is_subscribing : BoardSyncStatus → Bool
is_subscribing subscribing = true
is_subscribing _ = false

abbrev pub is_subscribed : BoardSyncStatus → Bool
is_subscribed subscribed = true
is_subscribed _ = false

abbrev pub reput_delay_ms : ℕ
reput_delay_ms = 20000

module _ (State : Type 0) where
  pub record BoardSyncInfo : Type 0 where
    pub sync_status : BoardSyncStatus
    pub last_synced_state : Option State
    pub subscribing_since : Option ℕ

  pub record SyncInfo : Type 0 where
    pub map : HashMap VerifyingKey BoardSyncInfo
    pub instances : HashMap ContractInstanceId VerifyingKey

-- What is tested of a board's entry: `Disconnected`, or `Subscribing` for at least the delay.
module _ {State : Type 0} where
  unfoldable pub is_timed_out : (now : ℕ) → BoardSyncInfo State → Bool
  is_timed_out now info = is_subscribing info.sync_status && elim info.subscribing_since [
    | none ↦ false
    | some started_at ↦ leb (started_at + reput_delay_ms) now
  ]

  unfoldable pub new : SyncInfo State
  new = record { map = []; instances = [] }

  abbrev pub fresh : BoardSyncInfo State
  fresh = record { sync_status = disconnected; last_synced_state = none; subscribing_since = none }

  -- `owner_vk_to_contract_key(k).id()`, of the bundled contract
  module _ (contract_id : VerifyingKey → ContractInstanceId) where
    unfoldable pub register_new_board : VerifyingKey → SyncInfo State → SyncInfo State
    register_new_board owner_key self =
        if HashMap.contains_key owner_key self.map then self else record {
          map = HashMap.insert owner_key fresh self.map;
          instances = HashMap.insert (contract_id owner_key) owner_key self.instances;
        }

  unfoldable pub update_sync_status :
      (now : ℕ) → VerifyingKey → BoardSyncStatus → SyncInfo State → SyncInfo State
  update_sync_status now owner_key status self = record self {
    map =
        HashMap.modify owner_key
          (λ info. record info {
            sync_status = status;
            subscribing_since = if is_subscribing status then some now else none;
          })
          self.map;
  }

  unfoldable pub update_last_synced_state : VerifyingKey → State → SyncInfo State → SyncInfo State
  update_last_synced_state owner_key state self = record self {
    map =
        HashMap.modify owner_key (λ info. record info { last_synced_state = some state }) self.map;
  }

  unfoldable pub get_owner_vk_for_instance_id :
      ContractInstanceId → SyncInfo State → Option VerifyingKey
  get_owner_vk_for_instance_id instance_id self = HashMap.get instance_id self.instances

  unfoldable pub state_updated : VerifyingKey → State → SyncInfo State → SyncInfo State
  state_updated owner_key new_state self = record self {
    map =
        HashMap.modify owner_key (λ info. record info { last_synced_state = some new_state })
          self.map;
  }

  -- A test of the entry of a board. An entry that is missing is a panic, and no test holds.
  abbrev pub holds : (BoardSyncInfo State → Bool) → Option (BoardSyncInfo State) → Bool
  holds test none = false
  holds test (some info) = test info

  module _ (contract_id : VerifyingKey → ContractInstanceId) where
    -- The body of the first loop of `boards_awaiting_subscription`.
    unfoldable pub awaiting_step :
        (now : ℕ)
        → VerifyingKey
        → State
        → SyncInfo State × HashMap VerifyingKey State
        → SyncInfo State × HashMap VerifyingKey State
    unfolding register_new_board update_last_synced_state is_timed_out
    awaiting_step now key state (self, awaiting) =
        let self' =
          if HashMap.contains_key key self.map
          then self
          else update_last_synced_state key state (register_new_board contract_id key self) in
        let waits =
          holds (λ info. is_disconnected info.sync_status || is_timed_out now info)
            (HashMap.get key self'.map) in
        (self', if waits then HashMap.insert key state awaiting else awaiting)

    unfoldable pub awaiting_loop :
        (now : ℕ)
        → HashMap VerifyingKey State
        → SyncInfo State × HashMap VerifyingKey State
        → SyncInfo State × HashMap VerifyingKey State
    unfolding awaiting_step
    awaiting_loop now [] acc = acc
    awaiting_loop now ((key, state) ∷ boards) acc =
        awaiting_loop now boards (awaiting_step now key state acc)

  -- The second loop, over the keys of the boards that were found.
  unfoldable pub reset_loop :
      List VerifyingKey
      → HashMap VerifyingKey (BoardSyncInfo State)
      → HashMap VerifyingKey (BoardSyncInfo State)
  reset_loop [] infos = infos
  reset_loop (key ∷ keys) infos = reset_loop keys (
      HashMap.modify key
        (λ info.
          if is_subscribing info.sync_status
          then record info { sync_status = disconnected; subscribing_since = none }
          else info)
        infos)

  module _ ⦃e : PartialEq State⦄ where
    -- `last_synced_state.as_ref() == Some(&state)`
    abbrev pub is_synced : State → BoardSyncInfo State → Bool
    is_synced state info = elim info.last_synced_state [ none ↦ false | some last ↦ last == state ]

  module _ (contract_id : VerifyingKey → ContractInstanceId) where
    unfoldable pub boards_awaiting_subscription :
        (now : ℕ)
        → HashMap VerifyingKey State
        → SyncInfo State
        → SyncInfo State × HashMap VerifyingKey State
    unfolding awaiting_loop reset_loop
    boards_awaiting_subscription now boards self =
        let (self', awaiting) = awaiting_loop contract_id now boards (self, []) in
        (record self' { map = reset_loop (HashMap.keys awaiting) self'.map }, awaiting)

    module _ ⦃e : PartialEq State⦄ where
      -- The body of the loop of `needs_to_send_update`.
      unfoldable pub update_step :
          VerifyingKey
          → State
          → SyncInfo State × HashMap VerifyingKey State
          → SyncInfo State × HashMap VerifyingKey State
      unfolding register_new_board
      update_step key state (self, needing) =
          let self' =
            if HashMap.contains_key key self.map
            then self
            else register_new_board contract_id key self in
          let needs =
            holds (λ info. is_subscribed info.sync_status && not (is_synced state info))
              (HashMap.get key self'.map) in
          (self', if needs then HashMap.insert key state needing else needing)

      unfoldable pub update_loop :
          HashMap VerifyingKey State
          → SyncInfo State × HashMap VerifyingKey State
          → SyncInfo State × HashMap VerifyingKey State
      unfolding update_step
      update_loop [] acc = acc
      update_loop ((key, state) ∷ boards) acc = update_loop boards (update_step key state acc)

      unfoldable pub needs_to_send_update :
          HashMap VerifyingKey State → SyncInfo State → SyncInfo State × HashMap VerifyingKey State
      unfolding update_loop
      needs_to_send_update boards self = update_loop boards (self, [])

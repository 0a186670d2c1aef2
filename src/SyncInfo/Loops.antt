-- ===== src/SyncInfo/Loops.antt =====
-- The two loops over boards and the one over what was found, of ui/src/components/app/sync_info.rs:
-- what they leave of each entry.
use free_talk.Shared.{
  Bool, true, false, ◌||◌, List, [], ◌∷◌, Option, none, some, ◌==◌, list_eq, nat_eq, if◌then◌else◌,
  ◌≡◌, refl, ap, subst, ◌∙◌, contains, Distinct, Bool-cases, inl, inr, arith,
}
use free_talk.Shared.HashMap
use free_talk.Shared.HashMap.{HashMap}
use mathlib.Core.Option
use free_talk.Model.{VerifyingKey}
use free_talk.SyncInfo.{BoardSyncInfo, disconnected, SyncInfo, is_subscribing, reset_loop}
use free_talk.SyncInfo.Rounds.{known}

-- The shape of both loops.
abbrev pub Found : Type 0 → Type 0
Found State = SyncInfo State × HashMap VerifyingKey State

module _ {State : Type 0} where
  unfoldable pub loop :
      (VerifyingKey → State → Found State → Found State)
      → HashMap VerifyingKey State
      → Found State
      → Found State
  loop step [] acc = acc
  loop step ((key, state) ∷ boards) acc = loop step boards (step key state acc)

  -- The entry of a board after a loop over the boards, and what is returned for it.
  abbrev pub entry_after :
      (State → Option State)
      → Option State
      → Option (BoardSyncInfo State)
      → Option (BoardSyncInfo State)
  entry_after start none entry = entry
  entry_after start (some state) entry = some (known (start state) entry)

  abbrev pub returned :
      (Option (BoardSyncInfo State) → State → Bool)
      → Option State
      → Option (BoardSyncInfo State)
      → Option State
      → Option State
  returned test none entry found = found
  returned test (some state) entry found = if test entry state then some state else found

  module _ (step : VerifyingKey → State → Found State → Found State) (start : State → Option State)
      (test : Option (BoardSyncInfo State) → State → Bool)
      (entry : (key k : VerifyingKey) (state : State) (self : SyncInfo State)
          (acc : HashMap VerifyingKey State)
        → HashMap.get k (step key state (self, acc)).0.map ≡ (
            if key == k
            then some (known (start state) (HashMap.get key self.map))
            else HashMap.get k self.map))
      (choice : (key k : VerifyingKey) (state : State) (self : SyncInfo State)
          (acc : HashMap VerifyingKey State)
        → HashMap.get k (step key state (self, acc)).1 ≡ (
            if key == k
            then (if test (HashMap.get key self.map) state then some state else HashMap.get k acc)
            else HashMap.get k acc)) where
    pub loop_lem :
        (k : VerifyingKey) (boards : HashMap VerifyingKey State) (self : SyncInfo State)
        (acc : HashMap VerifyingKey State)
        → Distinct (HashMap.keys boards)
        → (HashMap.get k (loop step boards (self, acc)).0.map
            ≡ entry_after start (HashMap.get k boards) (HashMap.get k self.map))
          × (HashMap.get k (loop step boards (self, acc)).1
              ≡ returned test (HashMap.get k boards) (HashMap.get k self.map) (HashMap.get k acc))
    unfolding loop
    loop_lem k [] self acc d = (refl, refl)
    loop_lem k ((key, state) ∷ boards) self acc d =
        let now = step key state (self, acc) in
        let later = loop_lem k boards now.0 now.1 d.1 in
        let entry_now = entry key k state self acc in
        let choice_now = choice key k state self acc in
        elim (Bool-cases (key == k)) [
          | inl same ↦
              let e = (list_eq.is_eq_iff key k).0 same in
              let gone : HashMap.get k boards ≡ none =
                absent boards (subst (λ x. contains (HashMap.keys boards) x ≡ false) e d.0) in
              (
                rw same (later.0 ∙ rw (gone, entry_now, same, e) refl),
                rw same (later.1 ∙ rw (gone, choice_now, same, e) refl),
              )
          | inr other ↦ (
            rw other (later.0 ∙ rw (entry_now, other) refl),
            rw other (later.1 ∙ rw (entry_now, choice_now, other) refl),
          )
        ]
      where
        absent :
            (m : HashMap VerifyingKey State)
            → contains (HashMap.keys m) k ≡ false
            → HashMap.get k m ≡ none
        absent [] h = refl
        absent ((j, v) ∷ m) h = ground (arith, absent m)

  -- An entry that is subscribing is disconnected.
  abbrev pub reset : BoardSyncInfo State → BoardSyncInfo State
  reset info =
      if is_subscribing info.sync_status
      then record info { sync_status = disconnected; subscribing_since = none }
      else info

  reset-reset : (info : BoardSyncInfo State) → reset (reset info) ≡ reset info
  reset-reset info = elim (Bool-cases (is_subscribing info.sync_status)) [
    | inl e ↦ rw e refl
    | inr e ↦ rw e (rw e refl)
  ]

  pub reset_loop_lem :
      (k : VerifyingKey) (keys : List VerifyingKey)
      (infos : HashMap VerifyingKey (BoardSyncInfo State))
      → HashMap.get k (reset_loop keys infos)
        ≡ (if contains keys k then Option.map reset (HashMap.get k infos) else HashMap.get k infos)
  unfolding reset_loop
  reset_loop_lem k [] infos = refl
  reset_loop_lem k (key ∷ keys) infos =
      reset_loop_lem k keys (HashMap.modify key reset infos)
      ∙ (rw (HashMap.get-modify key k reset infos)
          (once (key == k) (contains keys k) (HashMap.get k infos)))
    where
      once :
          (b c : Bool) (o : Option (BoardSyncInfo State))
          → (if c
              then Option.map reset (if b then Option.map reset o else o)
              else (if b then Option.map reset o else o))
            ≡ (if b || c then Option.map reset o else o)
      once true true none = refl
      once true true (some info) = ap some (reset-reset info)
      once true false o = refl
      once false true o = refl
      once false false o = refl

  pub found_contains :
      (k : VerifyingKey) (m : HashMap VerifyingKey State)
      → contains (HashMap.keys m) k ≡ elim (HashMap.get k m) [ none ↦ false | some s ↦ true ]
  found_contains k [] = refl
  found_contains k ((j, v) ∷ m) = elim (Bool-cases (j == k)) [
    | inl e ↦ rw e refl
    | inr e ↦ rw e (found_contains k m)
  ]

  -- The entry of a board at the end, of what was returned for it and its entry after the first loop.
  abbrev pub left : Option State → Option (BoardSyncInfo State) → Option (BoardSyncInfo State)
  left o entry = elim o [ none ↦ entry | some s ↦ Option.map reset entry ]

  -- What the second loop leaves of the entry of a board: the loop reads the keys that were found.
  pub reset_found :
      (k : VerifyingKey) (found : HashMap VerifyingKey State)
      (infos : HashMap VerifyingKey (BoardSyncInfo State))
      → HashMap.get k (reset_loop (HashMap.keys found) infos)
        ≡ left (HashMap.get k found) (HashMap.get k infos)
  reset_found k found infos =
      reset_loop_lem k (HashMap.keys found) infos
      ∙ rw (found_contains k found) (by_cases (HashMap.get k found))
    where
      by_cases :
          (o : Option State)
          → (if elim o [ none ↦ false | some s ↦ true ]
              then Option.map reset (HashMap.get k infos)
              else HashMap.get k infos)
            ≡ left o (HashMap.get k infos)
      by_cases none = refl
      by_cases (some s) = refl

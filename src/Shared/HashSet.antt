-- ===== src/Shared/HashSet.antt =====
-- `HashSet`: the list of its elements, each once.
use mathlib.Core.Path.{◌≡◌}
use mathlib.Core.Bool.{◌||◌}
use mathlib.Core.List.{List, [], ◌∷◌}
use native.Mathlib.Omega.{arith}
use free_talk.Shared.Tests.{if◌then◌else◌, PartialEq, ◌==◌}
use free_talk.Shared.Lists.{contains, Distinct}

abbrev pub HashSet : Type 0 → Type 0
HashSet K = List K

module _ {K : Type 0} ⦃e : PartialEq K⦄ where
  abbrev pub insert : K → HashSet K → HashSet K
  insert a s = if contains s a then s else a ∷ s

  -- `extend`
  abbrev pub extend : HashSet K → List K → HashSet K
  extend s [] = s
  extend s (a ∷ l) = extend (insert a s) l

  -- `iter().collect()`
  abbrev pub collect : List K → HashSet K
  collect l = extend [] l

  pub contains-insert :
      (a b : K) (s : HashSet K) → contains (insert a s) b ≡ (a == b || contains s b)
  contains-insert a b s = ground (arith, e.is_eq_iff a b)

  pub contains-extend :
      (s : HashSet K) (l : List K) (b : K)
      → contains (extend s l) b ≡ (contains s b || contains l b)
  contains-extend s [] b = ground arith
  contains-extend s (a ∷ l) b =
      ground (arith, contains-extend (insert a s) l b, contains-insert a b s)

  pub contains-collect : (l : List K) (b : K) → contains (collect l) b ≡ contains l b
  contains-collect l b = contains-extend [] l b

  pub insert-Distinct : (a : K) (s : HashSet K) → Distinct s → Distinct (insert a s)
  insert-Distinct a s d = ground arith

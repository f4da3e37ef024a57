-- ===== src/Common/Maps.antt =====
-- A `HashMap` with numbers as keys: an association list with one entry for each key.
use Prim.Native.Nat.{ℕ, ◌+◌}
use mathlib.Core.Path.{◌≡◌, refl}
use mathlib.Core.Logic.{◌≢◌}
use mathlib.Core.List.{List, [], ◌∷◌}
use mathlib.Core.Option.{Option, none, some}
use native.Mathlib.Omega.{arith}
use pixi_ai.Common.Tests.{◌==◌, if◌then◌else◌}

-- How often a number occurs.
abbrev pub count : ℕ → List ℕ → ℕ
count n [] = 0
count n (x ∷ xs) = (if x == n then 1 else 0) + count n xs

module _ {A : Type 0} where
  abbrev pub get : ℕ → List (ℕ × A) → Option A
  get k [] = none
  get k ((j, a) ∷ m) = if j == k then some a else get k m

  abbrev pub remove : ℕ → List (ℕ × A) → List (ℕ × A)
  remove k [] = []
  remove k ((j, a) ∷ m) = if j == k then remove k m else (j, a) ∷ remove k m

  abbrev pub insert : ℕ → A → List (ℕ × A) → List (ℕ × A)
  insert k a m = (k, a) ∷ remove k m

  abbrev pub values : List (ℕ × A) → List A
  values [] = []
  values ((j, a) ∷ m) = a ∷ values m

  abbrev pub to_list : Option A → List A
  to_list none = []
  to_list (some a) = a ∷ []

  -- No key has two entries.
  abbrev pub Distinct : List (ℕ × A) → Type 0
  Distinct [] = Unit
  Distinct ((k, a) ∷ m) = (get k m ≡ none) × Distinct m

  remove-absent : (k : ℕ) (m : List (ℕ × A)) → get k m ≡ none → remove k m ≡ m
  remove-absent k [] e = refl
  remove-absent k ((j, a) ∷ m) e = ground (arith, remove-absent k m)

  pub get-remove_self : (k : ℕ) (m : List (ℕ × A)) → get k (remove k m) ≡ none
  get-remove_self k [] = refl
  get-remove_self k ((j, a) ∷ m) = ground (arith, get-remove_self k m)

  pub get-remove_ne : (k j : ℕ) (m : List (ℕ × A)) → k ≢ j → get j (remove k m) ≡ get j m
  get-remove_ne k j [] h = refl
  get-remove_ne k j ((i, a) ∷ m) h = ground (arith, get-remove_ne k j m h)

  pub remove-Distinct : (k : ℕ) (m : List (ℕ × A)) → Distinct m → Distinct (remove k m)
  remove-Distinct k [] d = tt
  remove-Distinct k ((j, a) ∷ m) (e, d) = ground (arith, get-remove_ne k j m, remove-Distinct k m d)

  pub insert-Distinct : (k : ℕ) (a : A) (m : List (ℕ × A)) → Distinct m → Distinct (insert k a m)
  insert-Distinct k a m d = (get-remove_self k m, remove-Distinct k m d)

-- What is removed is what was found.
pub count-remove :
    (n k : ℕ) (m : List (ℕ × ℕ))
    → Distinct m
    → count n (values m) ≡ count n (values (remove k m)) + count n (to_list (get k m))
count-remove n k [] d = refl
count-remove n k ((j, a) ∷ m) (e, d) =
    ground (arith, count-remove n k m d, remove-absent k m, remove-absent j m)

pub count-remove-some :
    (n k : ℕ) (m : List (ℕ × ℕ)) {a : ℕ}
    → Distinct m
    → get k m ≡ some a
    → count n (values m) ≡ count n (values (remove k m)) + count n (a ∷ [])
count-remove-some n k m d e = rw (e) at (count-remove n k m d)

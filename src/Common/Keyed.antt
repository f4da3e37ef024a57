-- ===== src/Common/Keyed.antt =====
-- A `HashMap` whose keys are compared by a number: an association list in some order.
use Prim.Native.Nat.{ℕ}
use mathlib.Core.Path.{◌≡◌, refl}
use mathlib.Core.List.{List, [], ◌∷◌}
use mathlib.Core.Option
use mathlib.Core.Option.{Option, none, some}
use native.Mathlib.Omega.{arith}
use pixi_ai.Common.Tests.{◌==◌, if◌then◌else◌}

module _ {K A : Type 0} (index : K → ℕ) where
  abbrev pub get : K → List (K × A) → Option A
  get k [] = none
  get k ((j, a) ∷ m) = if index j == index k then some a else get k m

  abbrev pub insert : K → A → List (K × A) → List (K × A)
  insert k a [] = (k, a) ∷ []
  insert k a ((j, b) ∷ m) = if index j == index k then (k, a) ∷ m else (j, b) ∷ insert k a m

  -- `get_mut` and a change of what it finds.
  abbrev pub modify : (A → A) → K → List (K × A) → List (K × A)
  modify f k [] = []
  modify f k ((j, b) ∷ m) = if index j == index k then (j, f b) ∷ m else (j, b) ∷ modify f k m

  pub get-insert :
      (k j : K) (a : A) (m : List (K × A))
      → get j (insert k a m) ≡ (if index k == index j then some a else get j m)
  get-insert k j a [] = refl
  get-insert k j a ((i, b) ∷ m) = ground (arith, get-insert k j a m)

  pub get-modify :
      (f : A → A) (k j : K) (m : List (K × A))
      → get j (modify f k m) ≡ (if index k == index j then Option.map f (get j m) else get j m)
  get-modify f k j [] = ground arith
  get-modify f k j ((i, b) ∷ m) = ground (arith, get-modify f k j m)

  -- Keys of one number find the same.
  pub get_same : (k j : K) (m : List (K × A)) → index j ≡ index k → get k m ≡ get j m
  get_same k j [] e = refl
  get_same k j ((i, b) ∷ m) e = ground (arith, get_same k j m e)

  -- No key has two entries.
  abbrev pub Distinct : List (K × A) → Type 0
  Distinct [] = Unit
  Distinct ((k, a) ∷ m) = (get k m ≡ none) × Distinct m

  pub insert-Distinct : (k : K) (a : A) (m : List (K × A)) → Distinct m → Distinct (insert k a m)
  insert-Distinct k a [] d = (refl, tt)
  insert-Distinct k a ((j, b) ∷ m) (e, d) =
      ground (arith, insert-Distinct k a m d, get-insert k j a m, get_same k j m)

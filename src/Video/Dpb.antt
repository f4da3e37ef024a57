-- ===== src/Video/Dpb.antt =====
-- crates/video-decoder/src/util/ring_buffer.rs: the decoded picture buffer.
-- A picture order count is an `i32` on which the code does no arithmetic, so it is a plain ℤ.
pub mod Allocate
pub mod Release
use mathlib.Core.Option
use pixi_ai.Common.{
  ℕ, zero, suc, ◌+◌, Bool, true, false, not, ◌&&◌, Option, none, some, List, [], ◌∷◌, map,
  filter_map, if◌then◌else◌, length, get_elem?, set, position, ◌==◌,
}
use pixi_ai.Common.Int.{ℤ, negsuc, ltb_ℤ, ◌==ℤ◌}

-- `DpbSlot<T>`.
pub record DpbSlot {ℓ} (T : Type ℓ) : Type ℓ where
  pub resource : T
  pub poc : ℤ
  pub in_use : Bool

-- `DpbManager<T>`.
pub record DpbManager {ℓ} (T : Type ℓ) : Type ℓ where
  pub slots : List (DpbSlot T)

module _ {ℓ} {T : Type ℓ} where
  -- `(i..i + n).map(init)` into empty slots.
  pub new_slots : (ℕ → T) → ℕ → ℕ → List (DpbSlot T)
  new_slots init i zero = []
  new_slots init i (suc n) =
      record { resource = init i; poc = negsuc 0; in_use = false } ∷ new_slots init (i + 1) n

  unfoldable pub new : ℕ → (ℕ → T) → DpbManager T
  unfolding new_slots
  new max_slots init = record { slots = new_slots init 0 max_slots }

  -- What `allocate` writes into the slot that it picks.
  abbrev pub claimed : ℤ → DpbSlot T → DpbSlot T
  claimed poc s = record s { poc = poc; in_use = true }

  abbrev pub released : DpbSlot T → DpbSlot T
  released s = record s { in_use = false }

  abbrev pub blank : DpbSlot T → DpbSlot T
  blank s = record s { in_use = false; poc = negsuc 0 }

  -- `self.slots[idx]` changed by `f`; an index out of range does not occur.
  abbrev pub modify : List (DpbSlot T) → ℕ → (DpbSlot T → DpbSlot T) → List (DpbSlot T)
  modify [] i f = []
  modify (s ∷ ss) zero f = f s ∷ ss
  modify (s ∷ ss) (suc i) f = s ∷ modify ss i f

  -- `min_by_key(|(_, s)| s.poc)` behind a least element so far, `best` at index `at`: the first of
  -- several least elements is kept. `i` is the index of the head.
  pub lowest_from : ℕ → ℤ → ℕ → List (DpbSlot T) → ℕ
  lowest_from at best i [] = at
  lowest_from at best i (s ∷ ss) =
      lowest_from (if ltb_ℤ s.poc best then i else at) (if ltb_ℤ s.poc best then s.poc else best)
        (suc i) ss

  pub lowest : List (DpbSlot T) → Option ℕ
  unfolding lowest_from
  lowest [] = none
  lowest (s ∷ ss) = some (lowest_from 0 s.poc 1 ss)

  -- The first free slot, else the slot of the lowest count; `None` only without slots.
  pub pick : List (DpbSlot T) → Option ℕ
  pick ss = elim (position (λ s. not s.in_use) ss) [ some idx ↦ some idx | none ↦ lowest ss ]

  unfoldable pub allocate : DpbManager T → ℤ → DpbManager T × Option ℕ
  unfolding pick lowest
  allocate d poc = elim (pick d.slots) [
    | some idx ↦ (record { slots = modify d.slots idx (claimed poc) }, some idx)
    | none ↦ (d, none)
  ]

  -- The first slot with this count, whether it is in use or not, is marked free.
  pub release_first : List (DpbSlot T) → ℤ → List (DpbSlot T)
  release_first ss poc = elim (position (λ s. s.poc ==ℤ poc) ss) [
    | some idx ↦ modify ss idx released
    | none ↦ ss
  ]

  unfoldable pub release : DpbManager T → ℤ → DpbManager T
  unfolding release_first
  release d poc = record { slots = release_first d.slots poc }

  -- Where the reference with this count is held.
  unfoldable pub reference_index : DpbManager T → ℤ → Option ℕ
  reference_index d poc = position (λ s. (s.poc ==ℤ poc) && s.in_use) d.slots

  unfoldable pub get_reference_indices : DpbManager T → List ℤ → List ℕ
  unfolding reference_index
  get_reference_indices d [] = []
  get_reference_indices d (poc ∷ pocs) = elim (reference_index d poc) [
    | some idx ↦ idx ∷ get_reference_indices d pocs
    | none ↦ get_reference_indices d pocs
  ]

  unfoldable pub slot : DpbManager T → ℕ → Option (DpbSlot T)
  slot d index = get_elem? d.slots index

  unfoldable pub reset : DpbManager T → DpbManager T
  reset d = record { slots = map blank d.slots }

  unfoldable pub len : DpbManager T → ℕ
  len d = length d.slots

  unfoldable pub is_empty : DpbManager T → Bool
  is_empty d = length d.slots == 0

-- ===== src/Video/Dpb/Allocate.antt =====
-- `DpbManager::allocate`: which slot it takes, and what it writes there.
use mathlib.Core.Option
use pixi_ai.Common.{
  ℕ, take, subst, All-map, ◌==◌, ◌↔◌, zero, suc, ◌+◌, ◌≡◌, refl, ap, ◌⊎◌, inl, inr, true, false,
  not, none, some, List, [], ◌∷◌, arith, length, get_elem?, position, position-some, position-none,
  if◌then◌else◌, Option-cases, Bool-cases, All, ltb→lt, ltb-false→le, sym,
}
use pixi_ai.Common.Int.{ℤ, ltb_ℤ, ◌≤ℤ◌}
use pixi_ai.Video.Dpb.{
  DpbSlot, DpbManager, claimed, modify, lowest_from, lowest, pick, allocate, slot, len, is_empty,
}

module _ {ℓ} {T : Type ℓ} where
  pub length-modify :
      (ss : List (DpbSlot T)) (i : ℕ) (f : DpbSlot T → DpbSlot T)
      → length (modify ss i f) ≡ length ss
  length-modify [] i f = refl
  length-modify (s ∷ ss) zero f = refl
  length-modify (s ∷ ss) (suc i) f = ap suc (length-modify ss i f)

  pub get_elem?-modify :
      (ss : List (DpbSlot T)) (i j : ℕ) (f : DpbSlot T → DpbSlot T)
      → get_elem? (modify ss i f) j
        ≡ (if j == i then Option.map f (get_elem? ss j) else get_elem? ss j)
  get_elem?-modify [] i j f = ground arith
  get_elem?-modify (s ∷ ss) zero zero f = refl
  get_elem?-modify (s ∷ ss) zero (suc j) f = ground arith
  get_elem?-modify (s ∷ ss) (suc i) zero f = ground arith
  get_elem?-modify (s ∷ ss) (suc i) (suc j) f = ground (arith, get_elem?-modify ss i j f)

  -- The slot that `lowest_from` names: that of the bound, or one of the list behind it.
  record Lowest (best : ℤ) (at i : ℕ) (ss : List (DpbSlot T)) (k : ℕ) : Type ℓ where
    value : ℤ
    le_best : value ≤ℤ best
    le_all : All (λ s. value ≤ℤ s.poc) ss
    source :
        ((k ≡ at) × (value ≡ best))
        ⊎ ((j : ℕ) × (s : DpbSlot T) × (get_elem? ss j ≡ some s) × (s.poc ≡ value) × (k ≡ i + j))

  lowest_from-Lowest :
      (best : ℤ) (at i : ℕ) (ss : List (DpbSlot T)) → Lowest best at i ss (lowest_from at best i ss)
  unfolding lowest_from
  lowest_from-Lowest best at i [] = record {
    value = best;
    le_best = omega arith;
    le_all = tt;
    source = inl (refl, refl);
  }
  lowest_from-Lowest best at i (s ∷ ss) = elim (Bool-cases (ltb_ℤ s.poc best)) [
    | inl lt ↦ rw lt (newer lt (lowest_from-Lowest s.poc i (suc i) ss))
    | inr ge ↦ rw ge (older ge (lowest_from-Lowest best at (suc i) ss))
  ]
    where
      newer :
          {k : ℕ}
          → ltb_ℤ s.poc best ≡ true
          → Lowest s.poc i (suc i) ss k
          → Lowest best at i (s ∷ ss) k
      newer lt l = record {
        value = l.value;
        le_best = omega (arith, l.le_best, ltb→lt _ _ lt);
        le_all = (l.le_best, l.le_all);
        source = elim l.source [
          | inl (e, v) ↦ inr (0, s, refl, sym v, omega arith)
          | inr (j, t, e, v, h) ↦ inr (suc j, t, e, v, omega arith)
        ];
      }

      older :
          {k : ℕ}
          → ltb_ℤ s.poc best ≡ false
          → Lowest best at (suc i) ss k
          → Lowest best at i (s ∷ ss) k
      older ge l = record {
        value = l.value;
        le_best = l.le_best;
        le_all = (omega (arith, l.le_best, ltb-false→le _ _ ge), l.le_all);
        source = elim l.source [
          | inl h ↦ inl h
          | inr (j, t, e, v, h) ↦ inr (suc j, t, e, v, omega arith)
        ];
      }

  pub lowest_lem :
      (ss : List (DpbSlot T)) (k : ℕ)
      → lowest ss ≡ some k
      → (s : DpbSlot T) × (get_elem? ss k ≡ some s) × All (λ t. s.poc ≤ℤ t.poc) ss
  unfolding lowest
  lowest_lem [] k h = absurd (ground arith)
  lowest_lem (s ∷ ss) k h = elim l.source [
    | inl (e, v) ↦ (s, ground arith, (omega arith, rw v at l.le_all))
    | inr (j, t, e, v, p) ↦
        (t, ground arith, (rw v l.le_best, subst (λ x. All (λ u. x ≤ℤ u.poc) ss) (sym v) l.le_all))
  ]
    where
      l : Lowest s.poc 0 1 ss (lowest_from 0 s.poc 1 ss)
      l = lowest_from-Lowest s.poc 0 1 ss

  lowest-ne-none : (ss : List (DpbSlot T)) → lowest ss ≡ none → ss ≡ []
  unfolding lowest
  lowest-ne-none [] h = refl
  lowest-ne-none (s ∷ ss) h = absurd (ground arith)

  -- The first free slot, or a slot of the lowest count when every slot is in use.
  abbrev pub Picked : List (DpbSlot T) → ℕ → DpbSlot T → Type 0
  Picked ss k s =
      ((s.in_use ≡ false) × All (λ t. t.in_use ≡ true) (take k ss))
      ⊎ (All (λ t. t.in_use ≡ true) ss × All (λ t. s.poc ≤ℤ t.poc) ss)

  used : (t : DpbSlot T) → not t.in_use ≡ false → t.in_use ≡ true
  used t h = ground arith

  free : (t : DpbSlot T) → not t.in_use ≡ true → t.in_use ≡ false
  free t h = ground arith

  pub pick-Picked :
      (ss : List (DpbSlot T)) (k : ℕ)
      → pick ss ≡ some k
      → (s : DpbSlot T) × (get_elem? ss k ≡ some s) × Picked ss k s
  unfolding pick
  pick-Picked ss k h = elim (Option-cases (position (λ s. not s.in_use) ss)) [
    | inl e ↦
        let (s, g, l) = lowest_lem ss k (rw (e, pick) at h) in
        (s, g, inr (All-map used ss (position-none _ ss e), l))
    | inr (i, e) ↦
        let ik : i ≡ k = ground arith in
        let (s, g, f, b) = position-some _ ss i e in
        (s, rw (← ik) g, inl (free s f, rw (← ik) (All-map used (take i ss) b)))
  ]

  pick-none : (ss : List (DpbSlot T)) → (pick ss ≡ none) ↔ (ss ≡ [])
  unfolding pick lowest
  pick-none [] = (λ _. refl, λ _. refl)
  pick-none (s ∷ ss) = ground arith

  length-zero : (ss : List (DpbSlot T)) → (length ss ≡ 0) ↔ (ss ≡ [])
  length-zero [] = (λ _. refl, λ _. refl)
  length-zero (s ∷ ss) = ground arith

  -- A slot is found unless there is none: `allocate` returns `None` exactly when the buffer is empty.
  pub allocate-none_iff :
      (d : DpbManager T) (poc : ℤ) → ((allocate d poc).1 ≡ none) ↔ (is_empty d ≡ true)
  unfolding allocate is_empty
  allocate-none_iff d poc = ground (arith, pick-none d.slots, length-zero d.slots)

  -- The slot that `allocate` returns is the first free slot, or, when every slot is in use, one of
  -- the lowest count.
  pub allocate-Picked :
      (d : DpbManager T) (poc : ℤ) (i : ℕ)
      → (allocate d poc).1 ≡ some i
      → (s : DpbSlot T) × (slot d i ≡ some s) × Picked d.slots i s
  unfolding allocate slot
  allocate-Picked d poc i h = pick-Picked d.slots i (ground arith)

  -- After `allocate` returned slot `i`, that slot is in use with the new count and its old resource,
  -- and every other slot is as it was.
  pub slot-allocate :
      (d : DpbManager T) (poc : ℤ) (i j : ℕ)
      → (allocate d poc).1 ≡ some i
      → slot (allocate d poc).0 j
        ≡ (if j == i then Option.map (claimed poc) (slot d j) else slot d j)
  unfolding allocate slot
  slot-allocate d poc i j h = ground (arith, get_elem?-modify d.slots i j (claimed poc))

  -- `allocate` never changes the number of slots.
  pub len-allocate : (d : DpbManager T) (poc : ℤ) → len (allocate d poc).0 ≡ len d
  unfolding allocate len
  len-allocate d poc = elim (Option-cases (pick d.slots)) [
    | inl e ↦ rw (e, allocate)
    | inr (i, e) ↦ rw (e, allocate) (length-modify d.slots i (claimed poc))
  ]

-- ===== src/Video/Dpb/Release.antt =====
-- `DpbManager::release` and `reset` against the set of picture order counts that are held.
use pixi_ai.Common.{
  ℕ, map, ◌+◌, zero, suc, ◌≡◌, ◌≢◌, refl, inl, inr, Bool, true, false, ◌&&◌, none, some, List, [],
  ◌∷◌, arith, get_elem?, take, position, position-none, position-of_All, All, Option-cases,
  Bool-cases, subst, if◌then◌else◌,
}
use pixi_ai.Common.Int.{ℤ, ◌==ℤ◌, ==ℤ_iff}
use pixi_ai.Video.Dpb.{
  DpbSlot, DpbManager, new_slots, new, claimed, released, modify, blank, pick, allocate,
  release_first, release, reference_index, reset,
}
use pixi_ai.Video.Dpb.Allocate.{Picked, pick-Picked}

==ℤ_self : (poc : ℤ) → ((poc ==ℤ poc) && true) ≡ true
==ℤ_self poc = ground arith

module _ {ℓ} {T : Type ℓ} where
  -- The test of `get_reference_indices`.
  abbrev pub holds : ℤ → DpbSlot T → Bool
  holds poc s = (s.poc ==ℤ poc) && s.in_use

  -- No slot behind another is in use with that slot's count.
  abbrev pub Unshadowed : List (DpbSlot T) → Type 0
  Unshadowed [] = Unit {0}
  Unshadowed (s ∷ ss) = All (λ t. holds s.poc t ≡ false) ss × Unshadowed ss

  All-modify :
      (P : DpbSlot T → Type 0) (ss : List (DpbSlot T)) (i : ℕ) (f : DpbSlot T → DpbSlot T)
      → ((s : DpbSlot T) → P s → P (f s))
      → All P ss
      → All P (modify ss i f)
  All-modify P [] i f keep h = tt
  All-modify P (s ∷ ss) zero f keep (p, h) = (keep s p, h)
  All-modify P (s ∷ ss) (suc i) f keep (p, h) = (p, All-modify P ss i f keep h)

  All-take : (P : DpbSlot T → Type 0) (ss : List (DpbSlot T)) (i : ℕ) → All P ss → All P (take i ss)
  All-take P ss zero h = tt
  All-take P [] (suc i) h = tt
  All-take P (s ∷ ss) (suc i) (p, h) = (p, All-take P ss i h)

  claim-Unshadowed :
      (poc : ℤ) (ss : List (DpbSlot T)) (i : ℕ)
      → All (λ t. holds poc t ≡ false) ss
      → All (λ t. t.in_use ≡ true) (take i ss)
      → Unshadowed ss
      → Unshadowed (modify ss i (claimed poc))
  claim-Unshadowed poc [] i fresh busy u = tt
  claim-Unshadowed poc (s ∷ ss) zero fresh busy u = (fresh.1, u.1)
  claim-Unshadowed poc (s ∷ ss) (suc i) (f, fresh) (b, busy) (u, us) = (
    All-modify (λ t. holds s.poc t ≡ false) ss i (claimed poc)
        (λ t _. ground (arith, ==ℤ_iff s.poc poc, ==ℤ_iff poc s.poc)) u,
    claim-Unshadowed poc ss i fresh busy us,
  )

  free-Unshadowed :
      (ss : List (DpbSlot T)) (i : ℕ) → Unshadowed ss → Unshadowed (modify ss i released)
  free-Unshadowed [] i u = tt
  free-Unshadowed (s ∷ ss) zero u = u
  free-Unshadowed (s ∷ ss) (suc i) (u, us) = (
    All-modify (λ t. holds s.poc t ≡ false) ss i released (λ t _. ground arith) u,
    free-Unshadowed ss i us,
  )

  busy_before :
      (ss : List (DpbSlot T)) (i : ℕ) (s : DpbSlot T)
      → Picked ss i s
      → All (λ t. t.in_use ≡ true) (take i ss)
  busy_before ss i s (inl (_, b)) = b
  busy_before ss i s (inr (b, _)) = All-take _ ss i b

  -- Allocating a count that no slot holds keeps the slots unshadowed.
  pub allocate-Unshadowed :
      (d : DpbManager T) (poc : ℤ)
      → reference_index d poc ≡ none
      → Unshadowed d.slots
      → Unshadowed (allocate d poc).0.slots
  unfolding allocate reference_index
  allocate-Unshadowed d poc fresh u = elim (Option-cases (pick d.slots)) [
    | inl e ↦ rw (e, allocate) u
    | inr (i, e) ↦
        let (s, _, p) = pick-Picked d.slots i e in
        rw (e, allocate)
          (claim-Unshadowed poc d.slots i (position-none _ d.slots fresh)
            (busy_before d.slots i s p) u)
  ]

  release_first-Unshadowed :
      (ss : List (DpbSlot T)) (poc : ℤ) → Unshadowed ss → Unshadowed (release_first ss poc)
  unfolding release_first
  release_first-Unshadowed ss poc u = elim (Option-cases (position (λ s. s.poc ==ℤ poc) ss)) [
    | inl e ↦ rw (e, release_first) u
    | inr (i, e) ↦ rw (e, release_first) (free-Unshadowed ss i u)
  ]

  release_first-cons :
      (s : DpbSlot T) (ss : List (DpbSlot T)) (poc : ℤ)
      → release_first (s ∷ ss) poc
        ≡ (if s.poc ==ℤ poc then released s ∷ ss else s ∷ release_first ss poc)
  unfolding release_first
  release_first-cons s ss poc = ground arith

  release_first-free :
      (ss : List (DpbSlot T)) (poc : ℤ)
      → Unshadowed ss
      → All (λ t. holds poc t ≡ false) (release_first ss poc)
  release_first-free [] poc u = unfold release_first in tt
  release_first-free (s ∷ ss) poc (u, us) = elim (Bool-cases (s.poc ==ℤ poc)) [
    | inl hit ↦
        rw (release_first-cons s ss poc, hit)
          (ground arith, subst (λ q. All (λ t. holds q t ≡ false) ss) ((==ℤ_iff _ _).0 hit) u)
    | inr miss ↦ rw (release_first-cons s ss poc, miss) (ground arith, release_first-free ss poc us)
  ]

  release_first-other :
      (ss : List (DpbSlot T)) (poc other : ℤ)
      → other ≢ poc
      → position (holds other) (release_first ss poc) ≡ position (holds other) ss
  release_first-other [] poc other ne = unfold release_first in refl
  release_first-other (s ∷ ss) poc other ne =
      rw (release_first-cons s ss poc) (
        ground (arith, ==ℤ_iff s.poc poc, ==ℤ_iff s.poc other, release_first-other ss poc other ne))

  -- Releasing a count keeps the slots unshadowed, leaves no slot holding it, and leaves the slot of
  -- every other count as found before.
  release_lem :
      (d : DpbManager T) (poc other : ℤ)
      → Unshadowed d.slots
      → other ≢ poc
      → Unshadowed (release d poc).slots
        × (reference_index (release d poc) poc ≡ none)
        × (reference_index (release d poc) other ≡ reference_index d other)
  unfolding release reference_index
  release_lem d poc other u ne = (
    release_first-Unshadowed d.slots poc u,
    position-of_All _ _ (release_first-free d.slots poc u),
    release_first-other d.slots poc other ne,
  )

  -- A buffer that was just made or reset has its slots unshadowed and holds no count.
  new_slots-free :
      (init : ℕ → T) (i n : ℕ) (poc : ℤ) → All (λ t. holds poc t ≡ false) (new_slots init i n)
  unfolding new_slots
  new_slots-free init i zero poc = tt
  new_slots-free init i (suc n) poc = (ground arith, new_slots-free init (i + 1) n poc)

  blank-free : (ss : List (DpbSlot T)) (poc : ℤ) → All (λ t. holds poc t ≡ false) (map blank ss)
  blank-free [] poc = tt
  blank-free (s ∷ ss) poc = (ground arith, blank-free ss poc)

  Unshadowed-of_free :
      (ss : List (DpbSlot T)) → ((poc : ℤ) → All (λ t. holds poc t ≡ false) ss) → Unshadowed ss
  Unshadowed-of_free [] h = tt
  Unshadowed-of_free (s ∷ ss) h = ((h s.poc).1, Unshadowed-of_free ss (λ poc. (h poc).1))

  -- A new buffer and a reset one are unshadowed, and no count is held in either.
  pub reset_lem :
      (d : DpbManager T) (max_slots : ℕ) (init : ℕ → T) (poc : ℤ)
      → Unshadowed (new max_slots init).slots
        × (reference_index (new max_slots init) poc ≡ none)
        × Unshadowed (reset d).slots
        × (reference_index (reset d) poc ≡ none)
  unfolding new reset reference_index
  reset_lem d n init poc = (
    Unshadowed-of_free _ (new_slots-free init 0 n),
    position-of_All _ _ (new_slots-free init 0 n poc),
    Unshadowed-of_free _ (blank-free d.slots),
    position-of_All _ _ (blank-free d.slots poc),
  )

  position-modify :
      (p : DpbSlot T → Bool) (ss : List (DpbSlot T)) (i : ℕ) (f : DpbSlot T → DpbSlot T)
      (s : DpbSlot T)
      → get_elem? ss i ≡ some s
      → p (f s) ≡ true
      → All (λ t. p t ≡ false) ss
      → position p (modify ss i f) ≡ some i
  position-modify p [] i f s g t h = absurd (ground arith)
  position-modify p (x ∷ ss) zero f s g t h = ground arith
  position-modify p (x ∷ ss) (suc i) f s g t (n, h) =
      ground (arith, position-modify p ss i f s g t h)

  -- After a count that no slot held was allocated, it is found in the slot that was returned.
  pub reference_index-allocate :
      (d : DpbManager T) (poc : ℤ) (i : ℕ)
      → reference_index d poc ≡ none
      → (allocate d poc).1 ≡ some i
      → reference_index (allocate d poc).0 poc ≡ some i
  unfolding allocate reference_index
  reference_index-allocate d poc i fresh h =
      let e : pick d.slots ≡ some i = ground arith in
      let (s, g, _) = pick-Picked d.slots i e in
      rw (e, allocate)
        (position-modify (holds poc) d.slots i (claimed poc) s g (==ℤ_self poc)
          (position-none _ d.slots fresh))

-- ===== src/Vrm/AnimationPlayer/Sampling.antt =====
-- crates/vrm/src/animation_player.rs: where in its key frames an animation is sampled.
use pixi_ai.Common.{
  ℕ, suc, ◌-◌, ◌<◌, ◌≤◌, ◌≡◌, refl, subst, ◌∙◌, inl, inr, some, List, [], ◌∷◌, Bool-cases, if-true,
  if-false, length, get_elem?, get_elem?-in_bounds, lt_of_get_elem?, All, All-get_elem?, arith,
  dec_lt,
}
use pixi_ai.Common.Options.{◌>>=◌}
use pixi_ai.Vrm.F32.{F32, le_f}
use pixi_ai.Vrm.AnimationPlayer.{Quats, last?, found_at, at_search, sample_rotation}
use pixi_ai.Vrm.AnimationPlayer.Search.{
  IsComparable, IsAscending, Around, le_of, lt_of, found_lt, found_eq, has_next, bisect_lem,
  searched,
}

-- The last element is the one with the last index.
last?-get : {A : Type 0} (x : A) (xs : List A) → last? (x ∷ xs) ≡ get_elem? (x ∷ xs) (length xs)
last?-get x [] = refl
last?-get x (y ∷ ys) = last?-get y ys

module _ {F : Type 0} (f : F32 F) (key : F → ℕ) (t : F) where
  module _ {Q : Type 0} (q : Quats F Q) where
    -- What the key frames give at `t`: the first or the last rotation outside of them, that of a key
    -- frame at its time, and otherwise a point between two neighbours.
    pub data Sampled (times : List F) (rotations : List Q) : Q → Type 0 where
      before :
          (k : F) (r : Q)
          → get_elem? times 0 ≡ some k
          → key t ≤ key k
          → get_elem? rotations 0 ≡ some r
          → Sampled times rotations r
      after :
          (k : F) (r : Q)
          → last? times ≡ some k
          → key k ≤ key t
          → last? rotations ≡ some r
          → Sampled times rotations r
      exact :
          (i : ℕ) (k : F) (r : Q)
          → get_elem? times i ≡ some k
          → key k ≡ key t
          → get_elem? rotations i ≡ some r
          → Sampled times rotations r
      between :
          (i : ℕ) (k0 k1 : F) (r0 r1 : Q)
          → get_elem? times i ≡ some k0
          → get_elem? times (suc i) ≡ some k1
          → key k0 < key t
          → key t < key k1
          → get_elem? rotations i ≡ some r0
          → get_elem? rotations (suc i) ≡ some r1
          → Sampled times rotations (q.slerp r0 r1 (f.div (f.sub t k0) (f.sub k1 k0)))

    -- What is found at the end of the halving is a key frame, or its place between two neighbours.
    at_search-Sampled :
        (times : List F) (rotations : List Q) (b : ℕ) (last : F)
        → length times ≡ length rotations
        → All (IsComparable f key t) times
        → Around f key t times b
        → get_elem? times (length times - 1) ≡ some last
        → key t < key last
        → (x : Q) × ((get_elem? times b >>= λ c.
              f.partial_cmp c t >>= λ o. at_search f q times rotations t (found_at f b o))
            ≡ some x)
          × Sampled times rotations x
    at_search-Sampled times rotations b last len cmp (k, at_b, low, later) at_last t_last =
        let c = (All-get_elem? (IsComparable f key t) times b cmp at_b).0 in
        let in_times = lt_of_get_elem? times b at_b in
        let (r, at_r) = get_elem?-in_bounds rotations b (omega arith) in
        elim (dec_lt (key k) (key t)) [
          | yes earlier ↦
              let (k1, at_k1) =
                get_elem?-in_bounds times (suc b)
                  (has_next f key t times b k last at_b earlier at_last t_last) in
              let (r1, at_r1) =
                get_elem?-in_bounds rotations (suc b)
                  (omega (arith, lt_of_get_elem? times (suc b) at_k1)) in
              (
                q.slerp r r1 (f.div (f.sub t k) (f.sub k1 k)),
                rw (at_b, c, found_lt f key t b k earlier, at_b, at_k1, at_r, at_r1) refl,
                between b k k1 r r1 at_b at_k1 earlier (later (suc b) k1 (omega arith) at_k1) at_r
                    at_r1,
              )
          | no earlier ↦ (
            r,
            rw (at_b, c, found_eq f key t b k (omega arith)) at_r,
            exact b k r at_b (omega arith) at_r,
          )
        ]

    -- Key frames in order, a rotation for each, none of whose times nor the time itself is a NaN, can be
    -- sampled at every time: the result is the first or last rotation outside of them, that of a key frame
    -- at its time, and the point between the two neighbours otherwise.
    pub sample_rotation-Sampled :
        (first : F) (times : List F) (r : Q) (rotations : List Q)
        → length times ≡ length rotations
        → All (IsComparable f key t) (first ∷ times)
        → IsAscending f key t (first ∷ times)
        → (x : Q) × (sample_rotation f q (first ∷ times) (r ∷ rotations) t ≡ some (some x))
          × Sampled (first ∷ times) (r ∷ rotations) x
    unfolding sample_rotation
    sample_rotation-Sampled first times r rotations len cmp asc =
        elim (Bool-cases (le_f f t first)) [
          | inl e ↦ (
            r,
            if-true (le_f f t first) _ _ e,
            before first r refl (le_of f key t t first cmp.0.1 e) refl,
          )
          | inr e ↦
              let (last, at_last) =
                get_elem?-in_bounds (first ∷ times) (length times) (omega arith) in
              let (last_r, at_last_r) =
                get_elem?-in_bounds (r ∷ rotations) (length rotations) (omega arith) in
              let l = last?-get first times ∙ at_last in
              let l_r = last?-get r rotations ∙ at_last_r in
              let c =
                (All-get_elem? (IsComparable f key t) (first ∷ times) (length times) cmp
                  at_last).0 in
              elim (Bool-cases (le_f f last t)) [
                | inl over ↦ (
                  last_r,
                  if-false (le_f f t first) _ _ e
                      ∙ rw l (if-true (le_f f last t) _ _ over ∙ rw l_r refl),
                  after last last_r l (le_of f key t last t c over) l_r,
                )
                | inr inside ↦
                    let (b, found, around) =
                      bisect_lem f key t (length (first ∷ times)) 0 (length (first ∷ times))
                        (first ∷ times) first cmp asc (omega arith) (omega arith) (omega arith) refl
                        (omega (arith, lt_of f key t t first cmp.0.1 e))
                        (λ j n h at_j.
                          absurd (omega (arith, lt_of_get_elem? (first ∷ times) j at_j))) in
                    let s =
                      at_search-Sampled (first ∷ times) (r ∷ rotations) b last (omega arith) cmp
                        around
                        (subst (λ j. get_elem? (first ∷ times) j ≡ some last) (omega arith) at_last)
                        (lt_of f key t last t c inside) in
                    (
                      s.0,
                      if-false (le_f f t first) _ _ e
                          ∙ rw l (
                              if-false (le_f f last t) _ _ inside
                              ∙ rw
                                  (searched f key t first times b
                                      (λ c. at_search f q (first ∷ times) (r ∷ rotations) t c) found
                                    ∙ s.1)
                                  refl),
                      s.2,
                    )
              ]
        ]

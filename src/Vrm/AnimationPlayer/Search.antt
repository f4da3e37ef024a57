-- ===== src/Vrm/AnimationPlayer/Search.antt =====
-- crates/vrm/src/animation_player.rs: the binary search for the two key frames around a time.
use Prim.Native.Nat.{compare, Ordering}
use pixi_ai.Common.{
  ℕ, zero, suc, ◌+◌, ◌-◌, ◌/◌, ◌<◌, ◌≤◌, ◌≡◌, refl, sym, ap, ◌∙◌, ◌⊎◌, inl, inr, true, false,
  Option, none, some, List, ◌∷◌, Bool-cases, if-true, if-false, ltb, ltb→lt, ltb-false→le, length,
  get_elem?, get_elem?-in_bounds, lt_of_get_elem?, All, All-get_elem?, arith, dec_lt,
}
use mathlib.Core.Option.{some-injective}
use pixi_ai.Common.Options.{◌>>=◌}
use pixi_ai.Vrm.F32.{F32, is_le, le_f}
use pixi_ai.Vrm.AnimationPlayer.{left_or_mid, bisect, found_at, binary_search}

is_le_of : (a b : ℕ) → is_le (some (compare a b)) ≡ true → a ≤ b
is_le_of a b e = ground arith

is_lt_of : (a b : ℕ) → is_le (some (compare a b)) ≡ false → b < a
is_lt_of a b e = ground arith

bind_some :
    {B C D : Type 0} (m : Option B) (h : B → C) (k : C → Option D)
    → (m >>= (λ b. some (h b)) >>= k) ≡ (m >>= λ b. k (h b))
bind_some none h k = refl
bind_some (some b) h k = refl

bind_bind_some :
    {A B C D : Type 0} (o : Option A) (g : A → Option B) (h : A → B → C) (k : C → Option D)
    → ((o >>= λ a. g a >>= λ b. some (h a b)) >>= k) ≡ (o >>= λ a. g a >>= λ b. k (h a b))
bind_bind_some none g h k = refl
bind_bind_some (some a) g h k = bind_some (g a) (h a) k

module _ {F : Type 0} (f : F32 F) (key : F → ℕ) (t : F) where
  -- A time that is compared with `t` as their keys are: neither is a NaN.
  abbrev pub IsComparable : F → Type 0
  IsComparable x =
      (f.partial_cmp x t ≡ some (compare (key x) (key t)))
      × (f.partial_cmp t x ≡ some (compare (key t) (key x)))

  pub le_of :
      (x y : F)
      → f.partial_cmp x y ≡ some (compare (key x) (key y))
      → le_f f x y ≡ true
      → key x ≤ key y
  le_of x y c e = is_le_of (key x) (key y) (sym (ap is_le c) ∙ e)

  pub lt_of :
      (x y : F)
      → f.partial_cmp x y ≡ some (compare (key x) (key y))
      → le_f f x y ≡ false
      → key y < key x
  lt_of x y c e = is_lt_of (key x) (key y) (sym (ap is_le c) ∙ e)

  -- From an index on all times are later than `t`.
  abbrev IsAfter : List F → ℕ → Type 0
  IsAfter times i = (j : ℕ) (n : F) → i ≤ j → get_elem? times j ≡ some n → key t < key n

  -- The times are in order.
  abbrev pub IsAscending : List F → Type 0
  IsAscending times =
      (i j : ℕ) (a b : F)
      → i ≤ j
      → get_elem? times i ≡ some a
      → get_elem? times j ≡ some b
      → key a ≤ key b

  -- The halving ends at two neighbours around the time, or at an end.
  abbrev pub Around : List F → ℕ → Type 0
  Around times base =
      (k : F) × (get_elem? times base ≡ some k) × (key k ≤ key t) × IsAfter times (suc base)

  bisect_more :
      (fuel base size : ℕ) (times : List F) {n : F} {c : Ordering}
      → ltb 1 size ≡ true
      → get_elem? times (base + size / 2) ≡ some n
      → f.partial_cmp n t ≡ some c
      → bisect f (suc fuel) base size times t
        ≡ bisect f fuel (left_or_mid f c base (base + size / 2)) (size - size / 2) times t
  unfolding bisect
  bisect_more fuel base size times more at_mid cmp =
      if-true (ltb 1 size) _ _ more ∙ rw (at_mid, cmp) refl

  bisect_done :
      (fuel base size : ℕ) (times : List F)
      → ltb 1 size ≡ false
      → bisect f (suc fuel) base size times t ≡ some base
  unfolding bisect
  bisect_done fuel base size times done = if-false (ltb 1 size) _ _ done

  pub found_lt :
      (b : ℕ) (k : F) → key k < key t → found_at f b (compare (key k) (key t)) ≡ inr (suc b)
  found_lt b k h = ground arith

  pub found_eq : (b : ℕ) (k : F) → key k ≡ key t → found_at f b (compare (key k) (key t)) ≡ inl b
  found_eq b k h = ground arith

  -- A time earlier than `t`, which is earlier than the last, has a neighbour.
  pub has_next :
      (times : List F) (b : ℕ) (k last : F)
      → get_elem? times b ≡ some k
      → key k < key t
      → get_elem? times (length times - 1) ≡ some last
      → key t < key last
      → suc b < length times
  has_next times b k last at_b low at_last high = elim (dec_lt (suc b) (length times)) [
    | yes h ↦ h
    | no h ↦
        let e : length times - 1 ≡ b = omega (arith, lt_of_get_elem? times b at_b) in
        let l : last ≡ k = some-injective last k (sym at_last ∙ ap (get_elem? times) e ∙ at_b) in
        absurd (omega (arith, ap key l))
  ]

  pick_mid :
      (base mid : ℕ) (n : F)
      → key n ≤ key t
      → left_or_mid f (compare (key n) (key t)) base mid ≡ mid
  pick_mid base mid n h = ground arith

  pick_left :
      (base mid : ℕ) (n : F)
      → key t < key n
      → left_or_mid f (compare (key n) (key t)) base mid ≡ base
  pick_left base mid n h = ground arith

  pub bisect_lem :
      (fuel base size : ℕ) (times : List F) (k : F)
      → All IsComparable times
      → IsAscending times
      → size ≤ fuel
      → 0 < size
      → base + size ≤ length times
      → get_elem? times base ≡ some k
      → key k ≤ key t
      → IsAfter times (base + size)
      → (b : ℕ) × (bisect f fuel base size times t ≡ some b) × Around times b
  bisect_lem zero base size times k cmp asc enough pos bound at_base low high = absurd (omega arith)
  bisect_lem (suc fuel) base size times k cmp asc enough pos bound at_base low high =
      elim (Bool-cases (ltb 1 size)) [
        | inl more ↦
            let lt_size : 1 < size = ltb→lt 1 size more in
            let (n, at_mid) = get_elem?-in_bounds times (base + size / 2) (omega arith) in
            let c = All-get_elem? IsComparable times (base + size / 2) cmp at_mid in
            let q = bisect_more fuel base size times more at_mid c.0 in
            elim (dec_lt (key t) (key n)) [
              | yes above ↦
                  let r =
                    bisect_lem fuel base (size - size / 2) times k cmp asc (omega arith)
                      (omega arith) (omega arith) at_base low
                      (λ j m le_j at_j.
                        omega (arith, asc (base + size / 2) j n m (omega arith) at_mid at_j)) in
                  (r.0, q ∙ rw (pick_left base (base + size / 2) n above) r.1, r.2)
              | no above ↦
                  let r =
                    bisect_lem fuel (base + size / 2) (size - size / 2) times n cmp asc
                      (omega arith) (omega arith) (omega arith) at_mid (omega arith)
                      (λ j m le_j at_j. high j m (omega arith) at_j) in
                  (r.0, q ∙ rw (pick_mid base (base + size / 2) n (omega arith)) r.1, r.2)
            ]
        | inr done ↦
            let le_size : size ≤ 1 = ltb-false→le 1 size done in
            (
              base,
              bisect_done fuel base size times done,
              (k, at_base, low, λ j n le_j at_n. high j n (omega arith) at_n),
            )
      ]

  -- The search goes on with what stands at the end of the halving.
  pub searched :
      {D : Type 0} (first : F) (times : List F) (b : ℕ) (k : ℕ ⊎ ℕ → Option D)
      → bisect f (length (first ∷ times)) 0 (length (first ∷ times)) (first ∷ times) t ≡ some b
      → (binary_search f (first ∷ times) t >>= k)
        ≡ (get_elem? (first ∷ times) b >>= λ c. f.partial_cmp c t >>= λ o. k (found_at f b o))
  unfolding binary_search
  searched first times b k found = rw found (
      bind_bind_some (get_elem? (first ∷ times) b) (λ c. f.partial_cmp c t) (λ c o. found_at f b o)
        k)

-- ===== src/Audio/Resample/Picked.antt =====
-- crates/audio-capture/src/resample.rs: which samples are mixed and picked.
use pixi_ai.Common.{
  ℕ, if-split, zero, suc, ◌≤◌, ◌<◌, ◌≡◌, ◌≢◌, refl, sym, ap, subst, ◌∙◌, ◌⊎◌, inl, inr, Bool-cases,
  true, false, Option, none, some, List, [], ◌∷◌, ◌++◌, map, arith, All, ltb, ltb→lt, ◌==◌, length,
  take, drop, length-take, length-drop, append-take-drop, get_elem?, get_elem?-in_bounds, if-true,
  if-false, append_assoc,
}
use mathlib.Core.Option.{some-injective}
use pixi_ai.Audio.Resample.{
  Floats, chunks_exact, downmix_to_mono, onto, pick_from, resample_nearest,
}

abbrev joined : {F : Type 0} → List (List F) → List F
joined [] = []
joined (g ∷ gs) = g ++ joined gs

-- Groups of `n` samples from the front of a block; fewer than `n` are left.
abbrev pub Grouped : {F : Type 0} → ℕ → List F → List (List F) → Type 0
Grouped {F} n block groups =
    (rest : List F) × (joined groups ++ rest ≡ block)
    × All (λ g. length g ≡ n) groups
    × (length rest < n)

one_more :
    {F : Type 0} (n : ℕ) (block : List F) (groups : List (List F))
    → n ≤ length block
    → Grouped n (drop n block) groups
    → Grouped n block (take n block ∷ groups)
one_more n block groups le (rest, e, all, short) = (
  rest,
  append_assoc (take n block) (joined groups) rest
      ∙ ap (◌++◌ (take n block)) e
      ∙ append-take-drop n block,
  (length-take n block le, all),
  short,
)

chunks_exact-Grouped :
    {F : Type 0} (rounds n : ℕ) (block : List F)
    → length block ≤ rounds
    → 0 < n
    → Grouped n block (chunks_exact rounds n block)
unfolding chunks_exact
chunks_exact-Grouped zero n [] h z = ([], refl, tt, z)
chunks_exact-Grouped zero n (x ∷ block) h z = absurd (omega arith)
chunks_exact-Grouped (suc rounds) n block h z =
    if-split (Grouped n block) (ltb (length block) n)
      (λ e. (block, refl, tt, ltb→lt (length block) n e))
      (λ e.
        let le : n ≤ length block = at_least (length block) n e in
        one_more n block (chunks_exact rounds n (drop n block)) le
          (chunks_exact-Grouped rounds n (drop n block) (omega (arith, le, length-drop n block)) z))
  where
    at_least : (a b : ℕ) → ltb a b ≡ false → b ≤ a
    at_least a b e = ground arith

module _ {F P S : Type 0} (fl : Floats F P S) where
  -- From a position on, the sample at each position until one is behind the end, a ratio apart.
  pub data Picked (samples : List F) (r : P) : P → List F → Type 0 where
    behind : {pos : P} → length samples ≤ fl.as_usize pos → Picked samples r pos []
    picks :
        {pos : P} {x : F} {out : List F}
        → get_elem? samples (fl.as_usize pos) ≡ some x
        → Picked samples r (fl.plus pos r) out
        → Picked samples r pos (x ∷ out)

  onto-some :
      (x : F) (o : Option (List F)) (out : List F)
      → onto fl (some x) o ≡ some out
      → (later : List F) × (o ≡ some later) × (x ∷ later ≡ out)
  onto-some x none out e = absurd (cc e)
  onto-some x (some later) out e = (later, refl, some-injective (x ∷ later) out e)

  at_least : (a b : ℕ) → ltb a b ≡ false → b ≤ a
  at_least a b e = ground arith

  pick_from-Picked :
      (rounds : ℕ) (samples : List F) (r pos : P) (out : List F)
      → pick_from fl rounds samples r pos ≡ some out
      → Picked samples r pos out
  unfolding pick_from
  pick_from-Picked zero samples r pos out e = absurd (cc e)
  pick_from-Picked (suc rounds) samples r pos out e =
      let i = fl.as_usize pos in
      elim (Bool-cases (ltb i (length samples))) [
        | inl inside ↦
            let (x, g) = get_elem?-in_bounds samples i (ltb→lt i (length samples) inside) in
            let (later, k, same) = onto-some x (pick_from fl rounds samples r (fl.plus pos r)) out (
              ap (λ o. onto fl o (pick_from fl rounds samples r (fl.plus pos r))) (sym g)
              ∙ sym (if-true (ltb i (length samples)) _ _ inside)
              ∙ e) in
            subst (Picked samples r pos) same
              (picks g (pick_from-Picked rounds samples r (fl.plus pos r) later k))
        | inr outside ↦
            subst (Picked samples r pos)
              (some-injective [] out (sym (if-false (ltb i (length samples)) _ _ outside) ∙ e))
              (behind (at_least i (length samples) outside))
      ]

  -- Nothing is changed where the rates are the same; else the samples a ratio apart.
  abbrev pub Resampled : ℕ → ℕ → List F → List F → Type 0
  Resampled src dst samples out =
      ((src ≡ dst) × (out ≡ samples))
      ⊎ ((src ≢ dst) × Picked samples (fl.ratio src dst) fl.start_pos out)

  pub resample_nearest-Resampled :
      (samples : List F) (src dst : ℕ) (out : List F)
      → resample_nearest fl samples src dst ≡ some out
      → Resampled src dst samples out
  unfolding resample_nearest
  resample_nearest-Resampled samples src dst out e = elim (Bool-cases (src == dst)) [
    | inl same ↦
        inl (eq_of src dst same, sym (some-injective samples out (sym (if-true _ _ _ same) ∙ e)))
    | inr other ↦ inr (
      ne_of src dst other,
      pick_from-Picked (suc (fl.steps (fl.ratio src dst) (length samples))) samples
          (fl.ratio src dst) fl.start_pos out (sym (if-false _ _ _ other) ∙ e),
    )
  ]
    where
      eq_of : (a b : ℕ) → (a == b) ≡ true → a ≡ b
      eq_of a b e = ground arith

      ne_of : (a b : ℕ) → (a == b) ≡ false → a ≢ b
      ne_of a b e = ground arith

  -- The samples of one channel as they are, and else the mean of each group of a sample for each channel.
  abbrev pub Mixed : ℕ → List F → List F → Type 0
  Mixed channels block mono =
      ((channels ≡ 1) × (mono ≡ block))
      ⊎ ((groups : List (List F)) × Grouped channels block groups
          × (mono ≡ map (λ g. fl.over_count (fl.sum g) channels) groups))

  pub downmix_to_mono-Mixed :
      (block : List F) (channels : ℕ)
      → 0 < channels
      → Mixed channels block (downmix_to_mono fl block channels)
  unfolding downmix_to_mono
  downmix_to_mono-Mixed block channels z =
      if-split (Mixed channels block) (channels == 1) (λ e. inl (eq_one channels e, refl))
        (λ e. inr (
          chunks_exact (length block) channels block,
          chunks_exact-Grouped (length block) channels block (omega arith) z,
          refl,
        ))
    where
      eq_one : (a : ℕ) → (a == 1) ≡ true → a ≡ 1
      eq_one a e = ground arith

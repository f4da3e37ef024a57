-- ===== src/Audio/Resample.antt =====
-- crates/audio-capture/src/resample.rs. A float sample is of the type `F`, an i16 of the type `S`.
pub mod Loop
pub mod Picked
use pixi_ai.Common.{
  ℕ, zero, suc, ◌≤◌, ◌<◌, u32_mod, Option, none, some, List, [], ◌∷◌, map, leb, ltb, ◌==◌,
  if◌then◌else◌, length, get_elem?, take, drop,
}
use pixi_ai.Common.Options.{◌>>=◌}

abbrev pub iterate : {P : Type 0} → ℕ → (P → P) → P → P
iterate zero f p = p
iterate (suc n) f p = iterate n f (f p)

-- `f32`, `f64` (the type `P` of positions) and the conversion to i16. Adding a ratio over and over passes
-- every length that is below 2 ^ 32, so that no addition is lost to rounding: `steps` says after how many.
pub record Floats (F P S : Type 0) : Type 0 where
  pub sum : List F → F
  pub over_count : F → ℕ → F
  pub start_pos : P
  pub ratio : ℕ → ℕ → P
  pub plus : P → P → P
  pub as_usize : P → ℕ
  pub to_i16 : F → S
  pub from_i16 : S → F
  pub steps : P → ℕ → ℕ
  pub passed :
      (src dst n : ℕ)
      → 0 < src
      → dst < 65536
      → n < u32_mod
      → n ≤ as_usize (iterate (steps (ratio src dst) n) (λ p. plus p (ratio src dst)) start_pos)

-- `chunks_exact`, with a round for each element.
unfoldable pub chunks_exact : {F : Type 0} → ℕ → ℕ → List F → List (List F)
chunks_exact zero n samples = []
chunks_exact (suc rounds) n samples =
    let rest = chunks_exact rounds n (drop n samples) in
    if ltb (length samples) n then [] else take n samples ∷ rest

module _ {F P S : Type 0} (fl : Floats F P S) where
  unfoldable pub downmix_to_mono : List F → ℕ → List F
  unfolding chunks_exact
  downmix_to_mono samples channels =
      if channels == 1
      then samples
      else map (λ frame. fl.over_count (fl.sum frame) channels)
          (chunks_exact (length samples) channels samples)

  abbrev pub onto : Option F → Option (List F) → Option (List F)
  onto none out = none
  onto (some x) none = none
  onto (some x) (some out) = some (x ∷ out)

  -- The loop from a position; none where the rounds run out.
  unfoldable pub pick_from : ℕ → List F → P → P → Option (List F)
  pick_from zero samples r pos = none
  pick_from (suc rounds) samples r pos =
      let out = pick_from rounds samples r (fl.plus pos r) in
      if ltb (fl.as_usize pos) (length samples)
      then onto (get_elem? samples (fl.as_usize pos)) out
      else some []

  unfoldable pub resample_nearest : List F → ℕ → ℕ → Option (List F)
  unfolding pick_from
  resample_nearest samples src_rate dst_rate =
      if src_rate == dst_rate
      then some samples
      else (let r = fl.ratio src_rate dst_rate in
          pick_from (suc (fl.steps r (length samples))) samples r fl.start_pos)

  abbrev pub f32_to_i16 : List F → List S
  f32_to_i16 samples = map fl.to_i16 samples

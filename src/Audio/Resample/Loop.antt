-- ===== src/Audio/Resample/Loop.antt =====
-- crates/audio-capture/src/resample.rs: resampling ends.
use pixi_ai.Common.{
  ℕ, zero, suc, u32_mod, ◌≤◌, ◌<◌, ◌≡◌, refl, Option, some, List, [], if-split, arith, ltb, ltb→lt,
  length, get_elem?, get_elem?-in_bounds, ◌==◌, if-both,
}
use pixi_ai.Audio.Resample.{Floats, iterate, onto, pick_from, resample_nearest}

module _ {F P S : Type 0} (fl : Floats F P S) where
  abbrev pub Returns : Option (List F) → Type 0
  Returns o = (out : List F) × (o ≡ some out)

  onto-Returns :
      (samples : List F) (i : ℕ) (o : Option (List F))
      → i < length samples
      → Returns o
      → Returns (onto fl (get_elem? samples i) o)
  onto-Returns samples i o h (out, e) =
      let (x, g) = get_elem?-in_bounds samples i h in rw (g, e) (_, refl)

  -- The rounds reach a position behind the samples.
  pick_from-Returns :
      (rounds : ℕ) (samples : List F) (r pos : P)
      → length samples ≤ fl.as_usize (iterate rounds (λ p. fl.plus p r) pos)
      → Returns (pick_from fl (suc rounds) samples r pos)
  unfolding pick_from
  pick_from-Returns zero samples r pos h =
      if-split Returns (ltb (fl.as_usize pos) (length samples))
        (λ e. absurd (omega (arith, ltb→lt (fl.as_usize pos) (length samples) e))) (λ e. ([], refl))
  pick_from-Returns (suc rounds) samples r pos h =
      if-split Returns (ltb (fl.as_usize pos) (length samples))
        (λ e.
          onto-Returns samples (fl.as_usize pos)
            (pick_from fl (suc rounds) samples r (fl.plus pos r))
            (ltb→lt (fl.as_usize pos) (length samples) e)
            (pick_from-Returns rounds samples r (fl.plus pos r) h))
        (λ e. ([], refl))

  -- Resampling ends for fewer than 2 ^ 32 samples, from a rate that is not zero to one below 65536.
  pub resample_nearest-Returns :
      (samples : List F) (src_rate dst_rate : ℕ)
      → 0 < src_rate
      → dst_rate < 65536
      → length samples < u32_mod
      → Returns (resample_nearest fl samples src_rate dst_rate)
  unfolding resample_nearest
  resample_nearest-Returns samples src_rate dst_rate s d n =
      let r = fl.ratio src_rate dst_rate in
      if-both Returns (src_rate == dst_rate) (samples, refl)
        (pick_from-Returns (fl.steps r (length samples)) samples r fl.start_pos
          (fl.passed src_rate dst_rate (length samples) s d n))

-- ===== src/Audio/Capture/Frames.antt =====
-- crates/audio-capture/src/lib.rs, `build_input_stream`: the way of a stream's samples to frames.
use pixi_ai.Common.{
  ℕ, map, subst, zero, suc, u32_mod, ◌<◌, ◌≡◌, refl, sym, ap, ◌∙◌, true, false, Option, none, some,
  List, [], ◌∷◌, ◌++◌, append_assoc, append-nil, arith, leb, leb→le, if-split, length, take, drop,
  length-drop, append-take-drop, length-take, All, All-append,
}
use pixi_ai.Common.Options.{◌>>=◌}
use pixi_ai.Audio.Resample.{Floats, downmix_to_mono, resample_nearest, f32_to_i16}
use pixi_ai.Audio.Resample.Picked.{
  Mixed, Resampled, downmix_to_mono-Mixed, resample_nearest-Resampled,
}
use pixi_ai.Audio.Resample.Loop.{resample_nearest-Returns}
use pixi_ai.Audio.Capture.{AudioSource, AudioFrame, AudioConfig, drain, emit, on_block}

module _ {F P S : Type 0} (fl : Floats F P S) where
  abbrev pub samples_of : List (AudioFrame S) → List S
  samples_of [] = []
  samples_of (f ∷ fs) = f.samples ++ samples_of fs

  -- The frames are of the size that is wanted, hold the samples in order, and what is left is less than one.
  abbrev pub Cut : ℕ → List S → Option (List (AudioFrame S) × List S) → Type 0
  Cut size all o =
      (frames : List (AudioFrame S)) × (left : List S) × (o ≡ some (frames, left))
      × (samples_of frames ++ left ≡ all)
      × All (λ f. length f.samples ≡ size) frames
      × (length left < size)

  drain-Cut :
      (rounds : ℕ) (source : AudioSource) (size : ℕ) (elapsed : ℕ → ℕ) (n : ℕ) (buffer : List S)
      → length buffer < rounds
      → 0 < size
      → Cut size buffer (drain rounds source size elapsed n buffer)
  unfolding drain
  drain-Cut zero source size elapsed n buffer h z = absurd (omega arith)
  drain-Cut (suc rounds) source size elapsed n buffer h z =
      if-split (Cut size buffer) (leb size (length buffer))
        (λ e.
          let le = leb→le size (length buffer) e in
          let (frames, left, q, c, a, l) =
            drain-Cut rounds source size elapsed (suc n) (drop size buffer)
              (omega (arith, le, length-drop size buffer)) z in
          rw (q) (
            _,
            left,
            refl,
            append_assoc (take size buffer) (samples_of frames) left
                ∙ ap (◌++◌ (take size buffer)) c
                ∙ append-take-drop size buffer,
            (length-take size buffer le, a),
            l,
          ))
        (λ e. ([], buffer, refl, refl, tt, short size (length buffer) e))
    where
      short : (a b : ℕ) → leb a b ≡ false → b < a
      short a b e = ground arith

  abbrev pub or_nothing : Option (List F) → List F
  or_nothing none = []
  or_nothing (some xs) = xs

  -- A block that is resampled to an end: its mono samples are fewer than 2 ^ 32.
  abbrev pub Short : ℕ → List F → Type 0
  Short channels block = length (downmix_to_mono fl block channels) < u32_mod

  -- The samples of a block as they are to be told: mono, at 16 kHz, as i16.
  abbrev pub pcm : ℕ → ℕ → List F → List S
  pcm src_rate channels block =
      f32_to_i16 fl
        (or_nothing (resample_nearest fl (downmix_to_mono fl block channels) src_rate 16000))

  emit-Cut :
      (config : AudioConfig) (src_rate channels : ℕ) (elapsed : ℕ → ℕ) (buffer : List S)
      (block : List F)
      → 0 < config.frame_size
      → 0 < src_rate
      → Short channels block
      → Cut config.frame_size
          (buffer ++ pcm src_rate channels block)
          (emit fl config src_rate channels elapsed buffer block)
  unfolding emit
  emit-Cut config src_rate channels elapsed buffer block z r s =
      let (out, e) =
        resample_nearest-Returns fl (downmix_to_mono fl block channels) src_rate 16000 r
          (omega arith) s in
      let all = buffer ++ f32_to_i16 fl out in
      rw (e)
        (drain-Cut (suc (length all)) config.source config.frame_size elapsed 0 all (omega arith) z)

  -- The blocks of a stream while the capture runs, each with its clock.
  abbrev pub run :
      AudioConfig → ℕ → ℕ → List S → List ((ℕ → ℕ) × List F) → Option (List (AudioFrame S) × List S)
  run config src_rate channels buffer [] = some ([], buffer)
  run config src_rate channels buffer ((elapsed, block) ∷ blocks) = do
    (frames, left) ← on_block fl true config src_rate channels elapsed buffer block
    (more, rest) ← run config src_rate channels left blocks
    some (frames ++ more, rest)

  abbrev pub pcm_all : ℕ → ℕ → List ((ℕ → ℕ) × List F) → List S
  pcm_all src_rate channels [] = []
  pcm_all src_rate channels ((elapsed, block) ∷ blocks) =
      pcm src_rate channels block ++ pcm_all src_rate channels blocks

  samples_of-append :
      (fs gs : List (AudioFrame S)) → samples_of (fs ++ gs) ≡ samples_of fs ++ samples_of gs
  samples_of-append [] gs = refl
  samples_of-append (f ∷ fs) gs =
      ap (◌++◌ f.samples) (samples_of-append fs gs) ∙ sym (append_assoc f.samples _ _)

  regroup :
      (a b c d e f g : List S) → c ++ d ≡ b ++ e → a ++ b ≡ f ++ g → (a ++ c) ++ d ≡ f ++ (g ++ e)
  regroup a b c d e f g p q =
      append_assoc a c d
      ∙ ap (◌++◌ a) p
      ∙ sym (append_assoc a b e)
      ∙ ap (λ x. x ++ e) q
      ∙ append_assoc f g e

  run-pcm :
      (config : AudioConfig) (src_rate channels : ℕ) (buffer : List S)
      (blocks : List ((ℕ → ℕ) × List F))
      → length buffer < config.frame_size
      → 0 < src_rate
      → All (λ (elapsed, block). Short channels block) blocks
      → Cut config.frame_size
          (buffer ++ pcm_all src_rate channels blocks)
          (run config src_rate channels buffer blocks)
  unfolding on_block
  run-pcm config src_rate channels buffer [] h r s =
      ([], buffer, refl, sym (append-nil buffer), tt, h)
  run-pcm config src_rate channels buffer ((elapsed, block) ∷ blocks) h r (s, ss) =
      let (fs, left, e, c, a, l) =
        emit-Cut config src_rate channels elapsed buffer block (omega (arith, h)) r s in
      let (gs, rest, e', c', a', l') = run-pcm config src_rate channels left blocks l r ss in
      rw (e, e')
        (
          fs ++ gs,
          rest,
          refl,
          ap (λ x. x ++ rest) (samples_of-append fs gs)
              ∙ regroup (samples_of fs) left (samples_of gs) rest (pcm_all src_rate channels blocks)
                  buffer (pcm src_rate channels block) c' c,
          All-append (λ f. length f.samples ≡ config.frame_size) fs gs a a',
          l',
        )

  -- What the blocks of a stream bring: of each its samples mixed to one channel, resampled to 16 kHz and
  -- made i16.
  pub data Brought (src_rate channels : ℕ) : List ((ℕ → ℕ) × List F) → List S → Type 0 where
    nothing : Brought src_rate channels [] []
    block_brought :
        {elapsed : ℕ → ℕ} {block mono out : List F} {blocks : List ((ℕ → ℕ) × List F)}
        {rest : List S}
        → Mixed fl channels block mono
        → Resampled fl src_rate 16000 mono out
        → Brought src_rate channels blocks rest
        → Brought src_rate channels ((elapsed, block) ∷ blocks) (map fl.to_i16 out ++ rest)

  pcm_all-Brought :
      (src_rate channels : ℕ) (blocks : List ((ℕ → ℕ) × List F))
      → 0 < src_rate
      → 0 < channels
      → All (λ (elapsed, block). Short channels block) blocks
      → Brought src_rate channels blocks (pcm_all src_rate channels blocks)
  pcm_all-Brought src_rate channels [] r c s = nothing
  pcm_all-Brought src_rate channels ((elapsed, block) ∷ blocks) r c (s, ss) =
      let mono = downmix_to_mono fl block channels in
      let (out, e) = resample_nearest-Returns fl mono src_rate 16000 r (omega arith) s in
      subst
        (λ o.
          Brought src_rate channels ((elapsed, block) ∷ blocks)
            (f32_to_i16 fl (or_nothing o) ++ pcm_all src_rate channels blocks))
        (sym e)
        (block_brought (downmix_to_mono-Mixed fl block channels c)
          (resample_nearest-Resampled fl mono src_rate 16000 out e)
          (pcm_all-Brought src_rate channels blocks r c ss))

  -- From a buffer that is shorter than a frame, with a rate and a number of channels that are not zero, a
  -- running capture handles every block of a stream, where each has fewer than 2 ^ 32 mono samples: the
  -- frames are of that size and hold, in order and with what stays in the buffer, what the buffer held and
  -- what the blocks bring. Of a block that is its samples, or the mean of each group of one for each
  -- channel, at the positions a ratio apart up to the end, or all where the rate is 16 kHz, made i16.
  pub run-Cut :
      (config : AudioConfig) (src_rate channels : ℕ) (buffer : List S)
      (blocks : List ((ℕ → ℕ) × List F))
      → length buffer < config.frame_size
      → 0 < src_rate
      → 0 < channels
      → All (λ (elapsed, block). Short channels block) blocks
      → (brought : List S) × Brought src_rate channels blocks brought
        × Cut config.frame_size (buffer ++ brought) (run config src_rate channels buffer blocks)
  run-Cut config src_rate channels buffer blocks h r c s = (
    pcm_all src_rate channels blocks,
    pcm_all-Brought src_rate channels blocks r c s,
    run-pcm config src_rate channels buffer blocks h r s,
  )

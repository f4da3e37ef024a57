-- ===== src/Video/Mp4/Order.antt =====
-- The order in which the demuxer hands out packets, and where a seek resumes.
use pixi_ai.Common.{
  ℕ, zero, suc, ◌+◌, ◌≡◌, ◌≢◌, refl, ap, ◌∙◌, ◌⊎◌, inl, inr, true, false, Option, none, some, List,
  [], ◌∷◌, map, arith, length, get_elem?, drop, ◌==◌, ◌++◌, replicate, ℕ_discrete,
}
use pixi_ai.Video.Types.{demux, seek_failed, Result, ok, err}
use pixi_ai.Video.Annexb.{Bytes}
use pixi_ai.Video.Samples.{SampleEntry}
use pixi_ai.Video.Samples.Table.{Monotone}
use pixi_ai.Video.Samples.Seek.{LastReachable, seek_from-LastReachable}
use pixi_ai.Video.Mp4.{VideoPacket, Mp4Demuxer, packet, next_packet, seek}

zero_test : (n : ℕ) → n ≡ 0 → (n == 0) ≡ true
zero_test n e = ground arith

nonzero_test : (n : ℕ) → n ≢ 0 → (n == 0) ≡ false
nonzero_test n e = ground arith

module _ (read : ℕ → ℕ → Option Bytes) (ticks_to_duration duration_to_ticks : ℕ → ℕ → ℕ) where
  -- The results of `n` calls.
  pub packets : ℕ → Mp4Demuxer → List (Result (Option VideoPacket))
  packets zero m = []
  packets (suc n) m =
      let (m', r) = next_packet read ticks_to_duration duration_to_ticks m in r ∷ packets n m'

  -- What the call for a sample returns.
  abbrev pub reply : Mp4Demuxer → SampleEntry → Result (Option VideoPacket)
  reply m entry = elim (read entry.offset entry.size) [
    | none ↦ err demux
    | some raw ↦ ok (some (packet read ticks_to_duration duration_to_ticks m entry raw))
  ]

  drop-get :
      (ss : List SampleEntry) (i : ℕ)
      → ((get_elem? ss i ≡ none) × (drop i ss ≡ []))
        ⊎ ((s : SampleEntry) × (get_elem? ss i ≡ some s) × (drop i ss ≡ s ∷ drop (suc i) ss))
  drop-get [] zero = inl (refl, refl)
  drop-get [] (suc i) = inl (refl, refl)
  drop-get (s ∷ ss) zero = inr (s, refl, refl)
  drop-get (s ∷ ss) (suc i) = drop-get ss i

  next_packet-none :
      (m : Mp4Demuxer)
      → get_elem? m.samples m.cursor ≡ none
      → next_packet read ticks_to_duration duration_to_ticks m ≡ (m, ok none)
  unfolding next_packet
  next_packet-none m e = rw (e, next_packet)

  next_packet-some :
      (m : Mp4Demuxer) (s : SampleEntry)
      → get_elem? m.samples m.cursor ≡ some s
      → next_packet read ticks_to_duration duration_to_ticks m
        ≡ (record m { cursor = m.cursor + 1 }, reply m s)
  unfolding next_packet
  next_packet-some m s e = rw (e, next_packet)

  packets-rest :
      (rest : List SampleEntry) (calls k : ℕ) (m : Mp4Demuxer)
      → drop m.cursor m.samples ≡ rest
      → calls ≡ length rest + k
      → packets calls m ≡ map (reply m) rest ++ replicate k (ok none)
  unfolding packets packet
  packets-rest [] zero zero m e c = refl
  packets-rest [] zero (suc k) m e c = absurd (omega arith)
  packets-rest [] (suc calls) zero m e c = absurd (omega arith)
  packets-rest [] (suc calls) (suc k) m e c = elim (drop-get m.samples m.cursor) [
    | inl (g, _) ↦
        rw (next_packet-none m g) (ap (◌∷◌ (ok none)) (packets-rest [] calls k m e (omega arith)))
    | inr (s, _, d) ↦ absurd (cc)
  ]
  packets-rest (s ∷ rest) zero k m e c = absurd (omega arith)
  packets-rest (s ∷ rest) (suc calls) k m e c = elim (drop-get m.samples m.cursor) [
    | inl (_, d) ↦ absurd (cc)
    | inr (t, g, d) ↦
        let same : t ≡ s = ground arith in
        let left : drop (suc m.cursor) m.samples ≡ rest = ground arith in
        let next : m.cursor + 1 ≡ suc m.cursor = omega arith in
        rw (next_packet-some m t g, same)
          (ap (◌∷◌ (reply m s)) (
            packets-rest rest calls k (record m { cursor = m.cursor + 1 })
              (ap (λ i. drop i m.samples) next ∙ left) (omega arith)))
  ]

  -- As many calls as samples are left return the samples from the cursor on, each once and in
  -- order, an error for one that cannot be read; the calls after them return the end of the stream.
  pub packets_lem :
      (k : ℕ) (m : Mp4Demuxer)
      → let rest = drop m.cursor m.samples in
        packets (length rest + k) m ≡ map (reply m) rest ++ replicate k (ok none)
  packets_lem k m = packets-rest (drop m.cursor m.samples) _ k m refl refl

  -- A seek in a table whose times are in order resumes at the last key frame that is not behind the
  -- position, or at the first sample where there is none; without a time scale it fails and
  -- changes nothing.
  seek_lem :
      (m : Mp4Demuxer) (position : ℕ)
      → Monotone m.samples
      → let (m', r) = seek read ticks_to_duration duration_to_ticks m position in
        ((m.timescale ≡ 0) × (m' ≡ m) × (r ≡ err seek_failed))
        ⊎ ((m.timescale ≢ 0)
            × (r ≡ ok tt)
            × (m'.samples ≡ m.samples)
            × LastReachable (duration_to_ticks m.timescale position) 0 0 m.samples m'.cursor)
  unfolding seek
  seek_lem m position mono = elim (ℕ_discrete m.timescale 0) [
    | yes e ↦ rw (zero_test _ e) (inl (e, refl, refl))
    | no ne ↦
        rw (nonzero_test _ ne) (inr (ne, refl, refl, seek_from-LastReachable _ 0 0 m.samples mono))
  ]

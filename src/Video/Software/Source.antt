-- ===== src/Video/Software/Source.antt =====
-- crates/video-decoder/src/demux/mp4.rs, `impl Demuxer for Mp4Demuxer`: the source of a software session.
use pixi_ai.Common.{
  ℕ, ◌-◌, ◌≡◌, ◌<◌, inl, inr, Option, none, some, arith, length, get_elem?, lt_of_get_elem?,
}
use pixi_ai.Common.Options.{Option-cases}
use pixi_ai.Video.Types.{ok}
use pixi_ai.Video.Annexb.{Bytes}
use pixi_ai.Video.Mp4.{VideoPacket, Mp4Demuxer, next_packet, seek}
use pixi_ai.Video.Software.{Demuxer}

ok-ne : {p : VideoPacket} → ok none ≡ ok (some p) → ⊥
ok-ne e = absurd (ground arith)

module _ (read : ℕ → ℕ → Option Bytes) (ticks_to_duration duration_to_ticks : ℕ → ℕ → ℕ) where
  -- The samples behind the cursor.
  abbrev pub remaining : Mp4Demuxer → ℕ
  remaining m = length m.samples - m.cursor

  pub remaining-next_packet :
      (m : Mp4Demuxer) (p : VideoPacket)
      → (next_packet read ticks_to_duration duration_to_ticks m).1 ≡ ok (some p)
      → remaining (next_packet read ticks_to_duration duration_to_ticks m).0 < remaining m
  unfolding next_packet
  remaining-next_packet m p e = elim (Option-cases (get_elem? m.samples m.cursor)) [
    | inl q ↦ absurd (ok-ne (rw (q, next_packet) at e))
    | inr (a, q) ↦ rw (q, next_packet) (omega (arith, lt_of_get_elem? m.samples m.cursor q))
  ]

  abbrev pub mp4_source : Demuxer Mp4Demuxer
  mp4_source = record {
    next_packet = next_packet read ticks_to_duration duration_to_ticks;
    seek_to = seek read ticks_to_duration duration_to_ticks;
    left = remaining;
    left-next_packet = remaining-next_packet;
  }

-- ===== src/Video/Mp4.antt =====
-- crates/video-decoder/src/demux/mp4.rs: `Mp4Demuxer` over its sample table.
-- The file is the argument `read`, from an offset and a size to the bytes, `none` where seeking or
-- reading fails. The conversions between ticks and `Duration` go through `f64`: `ticks_to_duration`
-- and `duration_to_ticks` are arguments, from a time scale that is not zero.
pub mod Order
use pixi_ai.Common.{
  ℕ, suc, ◌+◌, ◌<◌, Bool, true, false, not, ◌&&◌, Option, none, some, List, [], ◌∷◌, ◌==◌,
  if◌then◌else◌, length, get_elem?,
}
use pixi_ai.Video.Types.{demux, seek_failed, Result, ok, err}
use pixi_ai.Video.Annexb.{Bytes, avcc_to_annex_b, annex_b_from_avcc_extra}
use pixi_ai.Video.Samples.{SampleEntry, seek_from, pts_ticks}

-- `VideoPacket`.
pub record VideoPacket : Type 0 where
  pub body : Bytes
  pub pts : ℕ
  pub dts : ℕ
  pub is_keyframe : Bool

pub record Mp4Demuxer : Type 0 where
  pub extra_data : Bytes
  pub samples : List SampleEntry
  pub timescale : ℕ
  pub cursor : ℕ
  pub nal_length_size : ℕ

abbrev pub is_empty : Bytes → Bool
is_empty [] = true
is_empty (b ∷ bs) = false

module _ (read : ℕ → ℕ → Option Bytes) (ticks_to_duration duration_to_ticks : ℕ → ℕ → ℕ) where
  abbrev pub to_duration : Mp4Demuxer → ℕ → ℕ
  to_duration m ticks = if m.timescale == 0 then 0 else ticks_to_duration m.timescale ticks

  -- The packet of a sample whose bytes were read.
  unfoldable pub packet : Mp4Demuxer → SampleEntry → Bytes → VideoPacket
  packet m entry raw = record {
    body = avcc_to_annex_b raw m.nal_length_size (
        if entry.is_sync && not (is_empty m.extra_data)
        then annex_b_from_avcc_extra m.extra_data []
        else []);
    pts = to_duration m (pts_ticks entry.dts_ticks entry.cts_offset);
    dts = to_duration m entry.dts_ticks;
    is_keyframe = entry.is_sync;
  }

  -- The cursor moves on before the sample is read.
  unfoldable pub next_packet : Mp4Demuxer → Mp4Demuxer × Result (Option VideoPacket)
  unfolding packet
  next_packet m = elim (get_elem? m.samples m.cursor) [
    | none ↦ (m, ok none)
    | some entry ↦ (
      record m { cursor = m.cursor + 1 },
      elim (read entry.offset entry.size) [
        | none ↦ err demux
        | some raw ↦ ok (some (packet m entry raw))
      ],
    )
  ]

  unfoldable pub seek : Mp4Demuxer → ℕ → Mp4Demuxer × Result (Unit {0})
  seek m position = if m.timescale == 0 then (m, err seek_failed) else (
    record m { cursor = seek_from (duration_to_ticks m.timescale position) 0 0 m.samples },
    ok tt,
  )

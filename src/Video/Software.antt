-- ===== src/Video/Software.antt =====
-- crates/video-decoder/src/backend/software.rs: the session that decodes on the processor.
-- The demuxer is an interface, which the MP4 demuxer fills. openh264 is the record `Library`: a decoder
-- turns the bytes of a packet into a failure, nothing yet, or a picture that overwrites a buffer.
pub mod Frames
pub mod Buffer
pub mod Source
use mathlib.Core.Option
use pixi_ai.Common.{
  ℕ, zero, suc, ◌-◌, ◌*◌, ◌≤◌, ◌<◌, ◌≡◌, Bool, true, false, not, ◌&&◌, Option, none, some, List, [],
  ◌++◌, ◌==◌, if◌then◌else◌, length, take, replicate, u32_mod,
}
use pixi_ai.Video.Annexb.{Bytes}
use pixi_ai.Video.Types.{
  Codec, h264, Backend, software, FrameStatus, new_frame, waiting, end_of_stream, OutputTarget,
  SessionConfig, Result, ok, err, unsupported_codec, decode,
}
use pixi_ai.Video.Playback
use pixi_ai.Video.Playback.{PlaybackState, tick, check_end_of_stream, pause, resume}
use pixi_ai.Video.Mp4.{VideoPacket}

-- `trait Demuxer`; `left` bounds the packets that are still to come.
pub record Demuxer (D : Type 0) : Type 0 where
  pub next_packet : D → D × Result (Option VideoPacket)
  pub seek_to : D → ℕ → D × Result (Unit {0})
  pub left : D → ℕ
  pub left-next_packet :
      (d : D) (p : VideoPacket) → (next_packet d).1 ≡ ok (some p) → left (next_packet d).0 < left d

-- A picture of openh264; writing it fills a buffer of its size.
pub record Picture : Type 0 where
  pub w : ℕ
  pub h : ℕ
  pub write_rgba8 : Bytes → Bytes
  pub narrow : (w < u32_mod) × (h < u32_mod)
  pub length-write_rgba8 : (b : Bytes) → length (write_rgba8 b) ≡ length b

pub data Decoded : Type 0 where
  failed nothing_yet : Decoded
  picture : Picture → Decoded

pub record Library (X : Type 0) : Type 0 where
  pub create : Option X
  pub decode_packet : X → Bytes → X × Decoded

pub record CodecParameters (F : Type 0) : Type 0 where
  pub codec : Codec
  pub width : ℕ
  pub height : ℕ
  pub fps : F
  pub duration : ℕ

pub record VideoInfo (F : Type 0) : Type 0 where
  pub codec : Codec
  pub width : ℕ
  pub height : ℕ
  pub duration : ℕ
  pub fps : F
  pub backend : Backend
  pub needs_color_conversion : Bool

pub record SwVideoSession (D X F : Type 0) : Type 0 where
  pub demuxer : D
  pub decoder : X
  pub frame_buffer : Bytes
  pub output : OutputTarget
  pub playback : PlaybackState F
  pub info : VideoInfo F
  pub ended : Bool

abbrev pub is_h264 : Codec → Bool
is_h264 h264 = true
is_h264 c = false

-- `Vec::resize` with zeros.
abbrev pub resize : ℕ → Bytes → Bytes
resize n b = take n b ++ replicate (n - length b) 0

abbrev pub created : {A B : Type 0} → Option A → (A → Result B) → Result B
created none f = err decode
created (some x) f = f x

module _ {D X F : Type 0} where
  -- The buffer gets the size of the picture, and the dimensions are taken over if the size changed.
  unfoldable pub paint : SwVideoSession D X F → Picture → SwVideoSession D X F
  paint s p =
      let needed = p.w * p.h * 4 in
      if length s.frame_buffer == needed
      then record s { frame_buffer = p.write_rgba8 s.frame_buffer }
      else record s {
        frame_buffer = p.write_rgba8 (resize needed s.frame_buffer);
        info = record (s.info) { width = p.w; height = p.h };
      }

  unfoldable pub take_decoded : SwVideoSession D X F → Decoded → SwVideoSession D X F × Result Bool
  unfolding paint
  take_decoded s failed = (s, ok false)
  take_decoded s nothing_yet = (s, ok false)
  take_decoded s (picture p) = (paint s p, ok true)

  abbrev pub set_looping : SwVideoSession D X F → Bool → SwVideoSession D X F
  set_looping s looping = record s { playback = record (s.playback) { looping = looping } }

  abbrev pub pause_session : SwVideoSession D X F → SwVideoSession D X F
  pause_session s = record s { playback = pause s.playback }

  abbrev pub resume_session : SwVideoSession D X F → SwVideoSession D X F
  resume_session s = record s { playback = resume s.playback }

  abbrev pub frame_rgba : SwVideoSession D X F → Bytes
  frame_rgba s = s.frame_buffer

abbrev pub moved_clock : {F : Type 0} → PlaybackState F → ℕ → Result (Unit {0}) → PlaybackState F
moved_clock p position (err e) = p
moved_clock p position (ok u) = Playback.seek p position

module _ {D X F : Type 0} (dem : Demuxer D) (lib : Library X) where
  -- From an open demuxer and its parameters.
  unfoldable pub new :
      (F → Bool)
      → (F → ℕ)
      → D
      → CodecParameters F
      → OutputTarget
      → SessionConfig
      → Result (SwVideoSession D X F)
  new is_positive frame_time d p output config =
      if is_h264 p.codec
      then created lib.create (λ x. ok (record {
        demuxer = d;
        decoder = x;
        frame_buffer = replicate (p.width * p.height * 4) 0;
        output = output;
        playback = Playback.new is_positive frame_time p.duration p.fps config.looping;
        info = record {
          codec = p.codec;
          width = p.width;
          height = p.height;
          duration = p.duration;
          fps = p.fps;
          backend = software;
          needs_color_conversion = false;
        };
        ended = false;
      }))
      else err unsupported_codec

  unfoldable pub take_packet :
      SwVideoSession D X F → Result (Option VideoPacket) → SwVideoSession D X F × Result Bool
  unfolding take_decoded
  take_packet s (err e) = (s, err e)
  take_packet s (ok none) = (record s { ended = true }, ok false)
  take_packet s (ok (some p)) =
      let (x, decoded) = lib.decode_packet s.decoder p.body in
      take_decoded (record s { decoder = x }) decoded

  unfoldable pub decode_next_packet : SwVideoSession D X F → SwVideoSession D X F × Result Bool
  unfolding take_packet
  decode_next_packet s =
      let (d, r) = dem.next_packet s.demuxer in take_packet (record s { demuxer = d }) r

  -- The loop, which goes on while a packet gives no picture; none where the rounds run out.
  unfoldable pub decode_loop :
      ℕ → SwVideoSession D X F → Option (SwVideoSession D X F × Result FrameStatus)
  unfolding decode_next_packet
  decode_loop zero s = none
  decode_loop (suc rounds) s =
      let (t, r) = decode_next_packet s in
      elim r [
        | err e ↦ some (t, err e)
        | ok painted ↦
            if painted
            then some (t, ok new_frame)
            else if t.ended
            then some (t, ok (if t.playback.looping then waiting else end_of_stream))
            else decode_loop rounds t
      ]

  unfoldable pub run_loop :
      SwVideoSession D X F → Option (SwVideoSession D X F × Result FrameStatus)
  unfolding decode_loop
  run_loop s =
      if s.ended then some (s, ok end_of_stream) else decode_loop (suc (dem.left s.demuxer)) s

  -- A new decoder, or the error of its creation.
  unfoldable pub renewed :
      SwVideoSession D X F → Option X → SwVideoSession D X F × Result (Unit {0})
  renewed s none = (s, err decode)
  renewed s (some x) = (record s { decoder = x; ended = false }, ok tt)

  -- After the demuxer has sought.
  unfoldable pub repositioned :
      SwVideoSession D X F → Result (Unit {0}) → SwVideoSession D X F × Result (Unit {0})
  unfolding renewed
  repositioned s (err e) = (s, err e)
  repositioned s (ok u) = renewed s lib.create

  -- Back to the start after a loop.
  unfoldable pub rewind : SwVideoSession D X F → SwVideoSession D X F × Result (Unit {0})
  unfolding repositioned
  rewind s = let (d, r) = dem.seek_to s.demuxer 0 in repositioned (record s { demuxer = d }) r

  unfoldable pub decode_due :
      SwVideoSession D X F → Option (SwVideoSession D X F × Result FrameStatus)
  unfolding rewind run_loop
  decode_due s =
      if s.ended && s.playback.looping
      then (let (t, r) = rewind s in elim r [ err e ↦ some (t, err e) | ok u ↦ run_loop t ])
      else run_loop s

  unfoldable pub decode_frame :
      SwVideoSession D X F → ℕ → Option (SwVideoSession D X F × Result FrameStatus)
  unfolding decode_due
  decode_frame s dt =
      if s.playback.paused
      then some (s, ok waiting)
      else (let (p, due) = tick s.playback dt in
          if not due
          then some (record s { playback = p }, ok waiting)
          else (let (q, goes_on) = check_end_of_stream p in
              if not goes_on
              then some (record s { playback = q }, ok end_of_stream)
              else decode_due (record s { playback = q })))

  unfoldable pub seek : SwVideoSession D X F → ℕ → SwVideoSession D X F × Result (Unit {0})
  unfolding repositioned
  seek s position =
      let (d, r) = dem.seek_to s.demuxer position in
      repositioned (record s { demuxer = d; playback = moved_clock s.playback position r }) r

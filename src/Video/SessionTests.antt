-- ===== src/Video/SessionTests.antt =====
-- The theorems about the software session at a concrete session over an MP4 demuxer.
use pixi_ai.Common.Int.{pos}
use pixi_ai.Common.{
  ℕ, ◌≡◌, refl, Bool, true, false, Option, some, [], ◌∷◌, arith, replicate, length, ◌*◌, map,
}
use pixi_ai.Video.Types
use pixi_ai.Video.Types.{
  h264, vulkan, rgba8_srgb, srgb, software, new_frame, waiting, end_of_stream, FrameStatus,
  OutputTarget, SessionConfig, default_config,
}
use pixi_ai.Video.Playback
use pixi_ai.Video.Playback.{PlaybackState, tick, check_end_of_stream}
use pixi_ai.Video.Annexb.{Bytes}
use pixi_ai.Video.Samples.{SampleEntry}
use pixi_ai.Video.Mp4.{Mp4Demuxer, next_packet}
use pixi_ai.Video.Software.{
  Demuxer, Library, Picture, Decoded, nothing_yet, picture, CodecParameters, SwVideoSession, new,
  paint, decode_frame, frame_rgba,
}
use pixi_ai.Video.Software.Frames.{Decided, decode_frame-Decided}
use pixi_ai.Video.Software.Buffer.{opened, framed, Reachable-Sized}
use pixi_ai.Video.Software.Source.{mp4_source}

abbrev no_bytes : ℕ → ℕ → Option Bytes
no_bytes offset size = some (replicate size 0)

abbrev scale : ℕ → ℕ → ℕ
scale a b = b

abbrev source : Demuxer Mp4Demuxer
source = mp4_source no_bytes scale scale

abbrev white : Bytes → Bytes
white = map (λ b. 255)

length-white : (b : Bytes) → length (white b) ≡ length b
length-white [] = refl
length-white (x ∷ b) = omega (arith, length-white b)

abbrev small : Picture
small = record {
  w = 2;
  h = 1;
  write_rgba8 = white;
  narrow = (omega arith, omega arith);
  length-write_rgba8 = length-white;
}

-- Every second packet completes a picture.
abbrev half : Bool → Bytes → Bool × Decoded
half true b = (false, picture small)
half false b = (true, nothing_yet)

abbrev openh264 : Library Bool
openh264 = record { create = some false; decode_packet = half }

abbrev sample : ℕ → SampleEntry
sample t = record { offset = t; size = 3; dts_ticks = t; cts_offset = pos 0; is_sync = true }

abbrev movie : Mp4Demuxer
movie = record {
  extra_data = [];
  samples = sample 0 ∷ sample 1 ∷ sample 2 ∷ [];
  timescale = 1000;
  cursor = 0;
  nal_length_size = 4;
}

abbrev parameters : CodecParameters ℕ
parameters = record { codec = h264; width = 1; height = 1; fps = 25; duration = 10000 }

abbrev target : OutputTarget
target = record {
  native_handle = vulkan;
  format = rgba8_srgb;
  width = 640;
  height = 360;
  color_space = srgb;
}

abbrev is_positive : ℕ → Bool
is_positive n = true

abbrev frame_time : ℕ → ℕ
frame_time n = 40

abbrev once : SessionConfig
once = record default_config { looping = false }

abbrev session : SwVideoSession Mp4Demuxer Bool ℕ
session = record {
  demuxer = movie;
  decoder = false;
  frame_buffer = replicate 4 0;
  output = target;
  playback = record {
    position = 0;
    duration = 10000;
    fps = 25;
    looping = false;
    paused = false;
    frame_interval = 40;
    elapsed_since_frame = 0;
  };
  info = record {
    codec = h264;
    width = 1;
    height = 1;
    duration = 10000;
    fps = 25;
    backend = software;
    needs_color_conversion = false;
  };
  ended = false;
}

made : new source openh264 is_positive frame_time movie parameters target once ≡ Types.ok session
unfolding new Playback.new
made = refl

-- The first two packets make a picture, which changes the dimensions.
abbrev shown : SwVideoSession Mp4Demuxer Bool ℕ
shown = record session {
  demuxer = record movie { cursor = 2 };
  frame_buffer = replicate 8 255;
  playback = record (session.playback) { position = 40 };
  info = record (session.info) { width = 2 };
}

painted : decode_frame source openh264 session 40 ≡ some (shown, Types.ok new_frame)
unfolding decode_frame tick check_end_of_stream next_packet
painted = refl

-- A picture with as many pixels as the last leaves the reported dimensions as they were.
abbrev turned : SwVideoSession Mp4Demuxer Bool ℕ
turned = paint shown (record small { w = 1; h = 2; narrow = (omega arith, omega arith) })

turned_width : turned.info.width ≡ 2
unfolding paint
turned_width = refl

decode_frame-Decided_example : Decided source openh264 (decode_frame source openh264 session 40)
decode_frame-Decided_example = decode_frame-Decided source openh264 session 40

abbrev over : SwVideoSession Mp4Demuxer Bool ℕ
over = record shown { ended = true }

Reachable-Sized_example : length (frame_rgba shown) ≡ 2 * 1 * 4
Reachable-Sized_example = Reachable-Sized source openh264 shown (
    framed 40 (Types.ok new_frame) painted
      (opened is_positive frame_time movie parameters target once made))

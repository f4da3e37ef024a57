-- ===== src/Video/SampleTests.antt =====
-- The theorems about the sample table and the sessions of crates/video-decoder at concrete inputs.
use pixi_ai.Common.{
  ℕ, ◌+◌, ◌≡◌, ◌⊎◌, refl, Bool, true, false, Option, none, some, List, [], ◌∷◌, ◌++◌, arith, take,
  map, replicate, Text, codes,
}
use pixi_ai.Common.Int.{pos, negsuc}
use pixi_ai.Video.Samples.{SampleEntry, SampleToChunk, Track, ok, build_sample_table}
use pixi_ai.Video.Samples.Timing.{begins, expand, offsets_of, times_of, build_sample_table_times}
use pixi_ai.Video.Types
use pixi_ai.Video.Types.{
  Backend, OutputTarget, SessionConfig, default_config, file_not_found, vulkan, rgba8_srgb, srgb,
  seek_failed, software, other,
}
use pixi_ai.Video.Backend.{Platform, linux, create_session}
use pixi_ai.Video.Backend.Choice.{Chosen, create_session_lem}
use pixi_ai.Video.Mp4.{Mp4Demuxer}
use pixi_ai.Video.Mp4.Order.{packets, reply, packets_lem}

-- Three samples in two chunks.
abbrev track : Track
track = record {
  stco = some (48 ∷ 96 ∷ []);
  stsz = some (0, 10 ∷ 20 ∷ 30 ∷ []);
  stsc = some (
      record { first_chunk = 1; samples_per_chunk = 2 }
      ∷ record { first_chunk = 2; samples_per_chunk = 1 }
      ∷ []);
  stts = some ((3, 512) ∷ []);
  stss = some (1 ∷ 3 ∷ []);
  ctts = some ((1, pos 0) ∷ (2, negsuc 255) ∷ []);
}

abbrev first_sample : SampleEntry
first_sample = record { offset = 48; size = 10; dts_ticks = 0; cts_offset = pos 0; is_sync = true }

abbrev second_sample : SampleEntry
second_sample = record {
  offset = 58;
  size = 20;
  dts_ticks = 512;
  cts_offset = negsuc 255;
  is_sync = false;
}

abbrev third_sample : SampleEntry
third_sample = record {
  offset = 96;
  size = 30;
  dts_ticks = 1024;
  cts_offset = negsuc 255;
  is_sync = true;
}

abbrev table : List SampleEntry
table = first_sample ∷ second_sample ∷ third_sample ∷ []

built : build_sample_table track ≡ ok table
unfolding build_sample_table
built = refl

abbrev chunks : List SampleToChunk
chunks =
    record { first_chunk = 1; samples_per_chunk = 2 }
    ∷ record { first_chunk = 2; samples_per_chunk = 1 }
    ∷ []

build_sample_table_times_example :
    (times_of table ≡ begins 0 (take 3 (expand ((3, 512) ∷ []))))
    × (offsets_of table ≡ take 3 (expand ((1, pos 0) ∷ (2, negsuc 255) ∷ [])))
build_sample_table_times_example =
    build_sample_table_times track (48 ∷ 96 ∷ []) (10 ∷ 20 ∷ 30 ∷ []) 0 chunks ((3, 512) ∷ [])
      ((1, pos 0) ∷ (2, negsuc 255) ∷ []) table refl refl refl refl refl built (ground arith)
      (ground arith) (ground arith) (ground arith)

abbrev movie : Mp4Demuxer
movie = record {
  extra_data = [];
  samples = table;
  timescale = 1000;
  cursor = 1;
  nal_length_size = 4;
}

abbrev scale : ℕ → ℕ → ℕ
scale a b = b

abbrev no_bytes : ℕ → ℕ → Option (List ℕ)
no_bytes offset size = some (replicate size 0)

packets_lem_example :
    packets no_bytes scale scale (2 + 2) movie
    ≡ map (reply no_bytes scale scale movie) (second_sample ∷ third_sample ∷ [])
      ++ replicate 2 (Types.ok none)
packets_lem_example = packets_lem no_bytes scale scale 2 movie

abbrev linux_box : Platform
linux_box = record {
  system = linux;
  gstreamer = true;
  v4l2_feature = false;
  d3d12_supported = false;
  vulkan_supported = true;
  v4l2_supported = false;
}

abbrev output : OutputTarget
output = record {
  native_handle = vulkan;
  format = rgba8_srgb;
  width = 640;
  height = 360;
  color_space = srgb;
}

-- Only the software session can be made, and its session is 7.
abbrev construct_soft : Backend → Text → OutputTarget → SessionConfig → Types.Result ℕ
construct_soft software path out config = Types.ok 7
construct_soft b path out config = Types.err other

abbrev exists_always : Text → Bool
exists_always path = true

create_session_lem_example :
    let r =
      create_session linux_box exists_always construct_soft (codes "a.mp4") output default_config in
    ((exists_always (codes "a.mp4") ≡ false) × (r ≡ Types.err file_not_found))
    ⊎ ((exists_always (codes "a.mp4") ≡ true)
        × Chosen linux_box exists_always construct_soft
            (codes "a.mp4")
            output
            default_config
            none
            r)
create_session_lem_example =
    create_session_lem linux_box exists_always construct_soft (codes "a.mp4") output default_config

-- ===== src/Video/Types.antt =====
-- crates/video-decoder/src/{types,error,session,handle}.rs: the shared types.
-- An error is its variant; its message is left out. A handle is its variant: the pointers in it
-- go to code that is not modelled.
use pixi_ai.Common.{ℕ, Bool, true, Option, none}

pub data Codec : Type 0 where
  h264 h265 vp9 av1 : Codec

pub data PixelFormat : Type 0 where
  rgba8_srgb rgba8_unorm bgra8_srgb bgra8_unorm : PixelFormat

pub data ColorSpace : Type 0 where
  bt601 bt709 srgb : ColorSpace

pub data FrameStatus : Type 0 where
  new_frame waiting end_of_stream : FrameStatus

pub data Backend : Type 0 where
  video_toolbox d3d12_video media_foundation vulkan_video gstreamer_vaapi v4l2 media_codec : Backend
  software : Backend

pub data VideoError : Type 0 where
  unsupported_codec no_hw_decoder demux decode gpu_interop seek_failed format_mismatch : VideoError
  file_not_found other : VideoError

pub data Result {ℓ} (A : Type ℓ) : Type ℓ where
  ok : A → Result A
  err : VideoError → Result A

pub data NativeHandle : Type 0 where
  metal d3d12 d3d11 vulkan wgpu : NativeHandle

pub record OutputTarget : Type 0 where
  pub native_handle : NativeHandle
  pub format : PixelFormat
  pub width : ℕ
  pub height : ℕ
  pub color_space : ColorSpace

pub record SessionConfig : Type 0 where
  pub looping : Bool
  pub preferred_backend : Option Backend
  pub allow_software_fallback : Bool
  pub decode_buffer_size : ℕ

-- `SessionConfig::default()`.
abbrev pub default_config : SessionConfig
default_config = record {
  looping = true;
  preferred_backend = none;
  allow_software_fallback = true;
  decode_buffer_size = 4;
}

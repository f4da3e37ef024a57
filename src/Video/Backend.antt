-- ===== src/Video/Backend.antt =====
-- crates/video-decoder/src/backend/mod.rs: which decoder a session gets.
-- The target system and the cargo features are arguments, and so is what the constructors of the
-- session types do: `construct` stands for the `new` of the type that belongs to a backend.
pub mod Choice
use pixi_ai.Common.{
  ℕ, Bool, true, false, ◌&&◌, Option, none, some, List, [], ◌∷◌, ◌++◌, if◌then◌else◌, Text,
}
use pixi_ai.Video.Types.{
  Backend, video_toolbox, d3d12_video, media_foundation, vulkan_video, gstreamer_vaapi, v4l2,
  media_codec, software, VideoError, no_hw_decoder, file_not_found, Result, ok, err, NativeHandle,
  metal, d3d12, d3d11, vulkan, wgpu, OutputTarget, SessionConfig,
}

pub data System : Type 0 where
  linux macos windows android other_system : System

-- `cfg(target_os)`, `cfg(feature)` and the run-time tests `is_supported`.
pub record Platform : Type 0 where
  pub system : System
  pub gstreamer : Bool
  pub v4l2_feature : Bool
  pub d3d12_supported : Bool
  pub vulkan_supported : Bool
  pub v4l2_supported : Bool

abbrev pub is_linux : System → Bool
is_linux linux = true
is_linux s = false

abbrev pub is_windows : System → Bool
is_windows windows = true
is_windows s = false

abbrev pub is_macos : System → Bool
is_macos macos = true
is_macos s = false

abbrev pub is_android : System → Bool
is_android android = true
is_android s = false

abbrev pub when : Bool → Backend → List Backend
when b x = if b then x ∷ [] else []

unfoldable pub detect_backends : Platform → NativeHandle → List Backend
detect_backends p metal = video_toolbox ∷ []
detect_backends p d3d12 =
    when (is_windows p.system && p.d3d12_supported) d3d12_video
    ++ when (is_windows p.system) media_foundation
detect_backends p d3d11 = when (is_windows p.system) media_foundation
detect_backends p vulkan =
    when (is_linux p.system && p.vulkan_supported) vulkan_video
    ++ (when (is_linux p.system && p.gstreamer) gstreamer_vaapi
        ++ (when (is_linux p.system && (p.v4l2_feature && p.v4l2_supported)) v4l2
            ++ when (is_android p.system) media_codec))
detect_backends p wgpu = software ∷ []

-- Whether `create_with_backend` has an arm for the backend on this platform.
unfoldable pub has_arm : Platform → Backend → Bool
has_arm p software = true
has_arm p video_toolbox = is_macos p.system
has_arm p d3d12_video = is_windows p.system
has_arm p media_foundation = is_windows p.system
has_arm p vulkan_video = is_linux p.system
has_arm p gstreamer_vaapi = is_linux p.system && p.gstreamer
has_arm p v4l2 = is_linux p.system && p.v4l2_feature
has_arm p media_codec = is_android p.system

module _ {ℓ} {Session : Type ℓ} (p : Platform) (exists : Text → Bool)
    (construct : Backend → Text → OutputTarget → SessionConfig → Result Session) where
  unfoldable pub create_with_backend :
      Text → OutputTarget → SessionConfig → Backend → Result Session
  unfolding has_arm
  create_with_backend path output config backend =
      if has_arm p backend then construct backend path output config else err no_hw_decoder

  abbrev pub fallback : Text → OutputTarget → SessionConfig → Result Session
  fallback path output config =
      if config.allow_software_fallback
      then create_with_backend path output config software
      else err no_hw_decoder

  -- The loop over the candidates, and what follows it.
  pub try_candidates : Text → OutputTarget → SessionConfig → List Backend → Result Session
  unfolding create_with_backend
  try_candidates path output config [] = fallback path output config
  try_candidates path output config (backend ∷ backends) =
      elim (create_with_backend path output config backend) [
        | ok session ↦ ok session
        | err e ↦ try_candidates path output config backends
      ]

  -- The preferred backend alone, or the candidates for the handle.
  pub open_with : Text → OutputTarget → SessionConfig → Option Backend → Result Session
  unfolding try_candidates detect_backends
  open_with path output config (some backend) = create_with_backend path output config backend
  open_with path output config none =
      try_candidates path output config (detect_backends p output.native_handle)

  unfoldable pub create_session : Text → OutputTarget → SessionConfig → Result Session
  unfolding open_with
  create_session path output config =
      if exists path
      then open_with path output config config.preferred_backend
      else err file_not_found

-- ===== src/Video/Playback.antt =====
-- crates/video-decoder/src/util/timestamp.rs: the playback clock.
-- A `Duration` is its number of nanoseconds, up to `Duration::MAX`. The frame rate is an `f64`: its
-- type, the test `fps > 0.0` and `Duration::from_secs_f64(1.0 / fps)` are parameters.
pub mod Frames
use pixi_ai.Common.{
  ℕ, ◌+◌, ◌-◌, ◌*◌, ◌^◌, ◌≤◌, ◌≡◌, refl, Bool, true, false, arith, leb, if◌then◌else◌,
}
use Prim.Native.Nat.{min}

-- `u64::MAX` seconds and 999_999_999 nanoseconds.
abbrev pub duration_max : ℕ
duration_max = (2 ^ 64 - 1) * 1_000_000_000 + 999_999_999

abbrev pub saturating_add : ℕ → ℕ → ℕ
saturating_add a b = min (a + b) duration_max

abbrev pub millis : ℕ → ℕ
millis ms = ms * 1_000_000

pub record PlaybackState {ℓ} (F : Type ℓ) : Type ℓ where
  pub position : ℕ
  pub duration : ℕ
  pub fps : F
  pub looping : Bool
  pub paused : Bool
  pub frame_interval : ℕ
  pub elapsed_since_frame : ℕ

module _ {ℓ} {F : Type ℓ} where
  unfoldable pub new : (F → Bool) → (F → ℕ) → ℕ → F → Bool → PlaybackState F
  new is_positive frame_time duration fps looping = record {
    position = 0;
    duration = duration;
    fps = fps;
    looping = looping;
    paused = false;
    frame_interval = if is_positive fps then frame_time fps else millis 33;
    elapsed_since_frame = 0;
  }

  -- `true` when a new frame is due.
  unfoldable pub tick : PlaybackState F → ℕ → PlaybackState F × Bool
  tick p dt =
      let elapsed = saturating_add p.elapsed_since_frame dt in
      let position = saturating_add p.position dt in
      if p.paused
      then (p, false)
      else if leb p.frame_interval elapsed
      then (
        record p { position = position; elapsed_since_frame = elapsed - p.frame_interval },
        true,
      )
      else (record p { position = position; elapsed_since_frame = elapsed }, false)

  -- `true` when playback goes on, from the start if it looped.
  unfoldable pub check_end_of_stream : PlaybackState F → PlaybackState F × Bool
  check_end_of_stream p =
      if leb p.duration p.position
      then if p.looping
        then (record p { position = 0; elapsed_since_frame = 0 }, true)
        else (p, false)
      else (p, true)

  unfoldable pub pause : PlaybackState F → PlaybackState F
  pause p = record p { paused = true }

  unfoldable pub resume : PlaybackState F → PlaybackState F
  resume p = record p { paused = false }

  unfoldable pub seek : PlaybackState F → ℕ → PlaybackState F
  seek p position = record p { position = position; elapsed_since_frame = 0 }

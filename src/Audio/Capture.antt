-- ===== src/Audio/Capture.antt =====
-- crates/audio-capture/src/lib.rs: the capture of a device, as frames of one size.
-- cpal is the record `Host`, ScreenCaptureKit the flags of `Platform` and whether it starts. A stream
-- calls back with blocks of samples; `elapsed n` is the time at the n-th frame of a block.
pub mod Frames
pub mod Lifecycle
use mathlib.Core.Option
use pixi_ai.Common.{
  ℕ, zero, suc, ◌+◌, Bool, true, false, not, ◌&&◌, ◌||◌, Option, none, some, List, [], ◌∷◌, ◌++◌,
  map, filter_map, leb, if◌then◌else◌, length, take, drop, find, Text, text_eq,
}
use pixi_ai.Common.Options.{◌>>=◌}
use pixi_ai.Audio.Resample.{Floats, downmix_to_mono, resample_nearest, f32_to_i16}

pub data AudioSource : Type 0 where
  input output : AudioSource

pub record AudioFrame (S : Type 0) : Type 0 where
  pub samples : List S
  pub sample_rate : ℕ
  pub timestamp : ℕ
  pub source : AudioSource

pub record AudioConfig : Type 0 where
  pub device_name : Option Text
  pub frame_size : ℕ
  pub source : AudioSource

-- `AudioConfig::default()`.
abbrev pub default_config : AudioConfig
default_config = record { device_name = none; frame_size = 256; source = input }

pub data AudioError : Type 0 where
  device_not_found stream_error format_error : AudioError

pub data Result {ℓ} (A : Type ℓ) : Type ℓ where
  ok : A → Result A
  err : AudioError → Result A

infixl 5 ◌>>=R◌
abbrev pub ◌>>=R◌ : {A B : Type 0} → Result A → (A → Result B) → Result B
ok a >>=R f = f a
err e >>=R f = err e

pub data StreamBackend : Type 0 where
  cpal screen_capture_kit : StreamBackend

pub record AudioCapture : Type 0 where
  pub config : AudioConfig
  pub running : Bool
  pub backend : Option StreamBackend

pub data SampleFormat : Type 0 where
  f32 i16 other : SampleFormat

-- Devices of type `D` with configurations of type `C`.
pub record Host (D C : Type 0) : Type 0 where
  pub input_devices : Option (List D)
  pub output_devices : Option (List D)
  pub default_input_device : Option D
  pub default_output_device : Option D
  pub name_of : D → Option Text
  pub default_input_config : D → Option C
  pub default_output_config : D → Option C
  pub sample_format : C → SampleFormat
  pub builds : D → C → Bool
  pub plays : D → C → Bool

pub record Platform : Type 0 where
  pub macos : Bool
  pub is_available : Bool
  pub has_catap : Bool
  pub sc_starts : Bool

abbrev pub ok_or : {A : Type 0} → AudioError → Option A → Result A
ok_or e none = err e
ok_or e (some a) = ok a

abbrev pub or_else : {A : Type 0} → Option A → Option A → Option A
or_else none o = o
or_else (some a) o = some a

abbrev pub is_output : AudioSource → Bool
is_output input = false
is_output output = true

abbrev pub is_none : {A : Type 0} → Option A → Bool
is_none none = true
is_none (some a) = false

abbrev pub is_supported : SampleFormat → Bool
is_supported other = false
is_supported f = true

unfoldable pub start_screencapturekit : Platform → AudioCapture → AudioCapture × Result (Unit {0})
start_screencapturekit p a =
    if p.sc_starts
    then (record a { running = true; backend = some screen_capture_kit }, ok tt)
    else (a, err stream_error)

abbrev pub contains : Text → List Text → Bool
contains name [] = false
contains name (n ∷ names) = text_eq n name || contains name names

-- Each name is pushed unless it is there.
abbrev pub add_names : List Text → List Text → List Text
add_names all [] = all
add_names all (n ∷ names) =
    if contains n all then add_names all names else add_names (all ++ n ∷ []) names

module _ {D C : Type 0} (host : Host D C) where
  abbrev pub named : Text → D → Bool
  named name d = elim (host.name_of d) [ none ↦ false | some n ↦ text_eq n name ]

  abbrev pub with_config : Result D → (D → Option C) → Result (D × C)
  with_config (err e) config = err e
  with_config (ok d) config = ok_or stream_error (Option.map (λ c. (d, c)) (config d))

  abbrev pub any_config : D → Option C
  any_config d = or_else (host.default_input_config d) (host.default_output_config d)

  abbrev pub input_device : Option Text → Result D
  input_device (some name) =
      ok_or stream_error host.input_devices >>=R λ ds. ok_or device_not_found (find (named name) ds)
  input_device none = ok_or device_not_found host.default_input_device

  abbrev pub found_or : Option D → Text → Result D
  found_or (some d) name = ok d
  found_or none name = ok_or stream_error host.output_devices >>=R λ ds.
      ok_or device_not_found (find (named name) ds)

  unfoldable pub resolve_device : AudioConfig → Result (D × C)
  unfolding text_eq
  resolve_device config = elim (config.source) [
    | input ↦ with_config (input_device config.device_name) host.default_input_config
    | output ↦ elim (config.device_name) [
      | some name ↦
          with_config
            (ok_or stream_error host.input_devices >>=R λ ds. found_or (find (named name) ds) name)
            any_config
      | none ↦
          with_config (ok_or device_not_found host.default_output_device) host.default_input_config
    ]
  ]

  unfoldable pub start_cpal : AudioCapture → D → C → AudioCapture × Result (Unit {0})
  start_cpal a d c =
      if not (is_supported (host.sample_format c))
      then (a, err format_error)
      else if host.builds d c && host.plays d c
      then (record a { running = true; backend = some cpal }, ok tt)
      else (a, err stream_error)

  -- What follows from the search for a device.
  unfoldable pub start_with :
      Platform → AudioCapture → Result (D × C) → AudioCapture × Result (Unit {0})
  unfolding start_cpal start_screencapturekit
  start_with p a (ok (d, c)) = start_cpal a d c
  start_with p a (err e) =
      if is_output a.config.source && (p.macos && p.is_available)
      then start_screencapturekit p a
      else (a, err e)

  unfoldable pub start : Platform → AudioCapture → AudioCapture × Result (Unit {0})
  unfolding start_with resolve_device
  start p a =
      if p.macos
        && (is_output a.config.source
            && (is_none a.config.device_name && (p.is_available && not p.has_catap)))
      then start_screencapturekit p a
      else start_with p a (resolve_device a.config)

  -- The names that can be read, of the input devices or of the output devices.
  abbrev pub list_of : Option (List D) → Result (List Text)
  list_of o = ok_or stream_error (Option.map (filter_map host.name_of) o)

  unfoldable pub list_devices : Result (List Text)
  unfolding text_eq
  list_devices = list_of host.input_devices >>=R λ all.
      list_of host.output_devices >>=R λ output. ok (add_names all output)

abbrev pub new : AudioConfig → AudioCapture
new config = record { config = config; running = false; backend = none }

abbrev pub stop : AudioCapture → AudioCapture
stop a = record a { running = false; backend = none }

module _ {S : Type 0} where
  -- The loop over whole frames, the n-th first; none where the rounds run out.
  unfoldable pub drain :
      ℕ → AudioSource → ℕ → (ℕ → ℕ) → ℕ → List S → Option (List (AudioFrame S) × List S)
  drain zero source size elapsed n buffer = none
  drain (suc rounds) source size elapsed n buffer =
      let frame : AudioFrame S = record {
        samples = take size buffer;
        sample_rate = 16000;
        timestamp = elapsed n;
        source = source;
      } in
      let rest = drain rounds source size elapsed (suc n) (drop size buffer) in
      if leb size (length buffer)
      then Option.map (λ (frames, left). (frame ∷ frames, left)) rest
      else some ([], buffer)

module _ {F P S : Type 0} (fl : Floats F P S) where
  -- The closure `emit` on a block of floats: the frames for the callback, and what stays in the buffer.
  unfoldable pub emit :
      AudioConfig → ℕ → ℕ → (ℕ → ℕ) → List S → List F → Option (List (AudioFrame S) × List S)
  unfolding drain downmix_to_mono resample_nearest
  emit config src_rate channels elapsed buffer block = do
    resampled ← resample_nearest fl (downmix_to_mono fl block channels) src_rate 16000
    let all = buffer ++ f32_to_i16 fl resampled
    drain (suc (length all)) config.source config.frame_size elapsed 0 all

  -- A stream's callback, which does nothing once the capture was stopped.
  unfoldable pub on_block :
      Bool → AudioConfig → ℕ → ℕ → (ℕ → ℕ) → List S → List F → Option (List (AudioFrame S) × List S)
  unfolding emit
  on_block running config src_rate channels elapsed buffer block =
      if running then emit config src_rate channels elapsed buffer block else some ([], buffer)

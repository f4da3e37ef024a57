-- ===== src/Audio/Capture/Lifecycle.antt =====
-- crates/audio-capture/src/lib.rs: starting and stopping a capture.
use pixi_ai.Common.{
  ◌≡◌, refl, sym, subst, ◌⊎◌, inl, inr, true, false, not, ◌&&◌, none, some, if-both,
}
use pixi_ai.Audio.Capture.{
  AudioConfig, AudioCapture, AudioError, Result, ok, err, StreamBackend, Host, Platform, is_output,
  is_none, is_supported, resolve_device, start_cpal, start_screencapturekit, start_with, start, new,
  stop,
}

-- A capture runs exactly while it holds a backend.
abbrev pub Consistent : AudioCapture → Type 0
Consistent a =
    ((a.running ≡ true) × (b : StreamBackend) × (a.backend ≡ some b))
    ⊎ ((a.running ≡ false) × (a.backend ≡ none))

-- A call of `start` fails and changes nothing, or leaves the capture running.
abbrev pub Starts : AudioCapture → AudioCapture × Result (Unit {0}) → Type 0
Starts a (b, r) =
    ((e : AudioError) × (r ≡ err e) × (b ≡ a))
    ⊎ ((r ≡ ok tt)
        × (backend : StreamBackend) × (b ≡ record a { running = true; backend = some backend }))

module _ {D C : Type 0} (host : Host D C) where
  start_cpal-Starts : (a : AudioCapture) (d : D) (c : C) → Starts a (start_cpal host a d c)
  unfolding start_cpal
  start_cpal-Starts a d c =
      if-both (Starts a) (not (is_supported (host.sample_format c))) (inl (_, refl, refl)) (
        if-both (Starts a) (host.builds d c && host.plays d c) (inr (refl, _, refl))
          (inl (_, refl, refl)))

  start_screencapturekit-Starts :
      (p : Platform) (a : AudioCapture) → Starts a (start_screencapturekit p a)
  unfolding start_screencapturekit
  start_screencapturekit-Starts p a =
      if-both (Starts a) p.sc_starts (inr (refl, _, refl)) (inl (_, refl, refl))

  start_with-Starts :
      (p : Platform) (a : AudioCapture) (r : Result (D × C)) → Starts a (start_with host p a r)
  unfolding start_with
  start_with-Starts p a (ok (d, c)) = start_cpal-Starts a d c
  start_with-Starts p a (err e) =
      if-both (Starts a) (is_output a.config.source && (p.macos && p.is_available))
        (start_screencapturekit-Starts p a) (inl (e, refl, refl))

  -- Starting a capture fails and changes nothing, or succeeds with a backend that runs.
  pub start-Starts : (p : Platform) (a : AudioCapture) → Starts a (start host p a)
  unfolding start
  start-Starts p a =
      if-both (Starts a)
        (p.macos
          && (is_output a.config.source
              && (is_none a.config.device_name && (p.is_available && not p.has_catap))))
        (start_screencapturekit-Starts p a) (start_with-Starts p a (resolve_device host a.config))

-- The states of a capture, on any platform with any devices.
pub data Reachable (D C : Type 0) : AudioCapture → Type 0 where
  created : (config : AudioConfig) → Reachable D C (new config)
  started :
      (host : Host D C) (p : Platform) {a : AudioCapture}
      → Reachable D C a
      → Reachable D C (start host p a).0
  stopped : {a : AudioCapture} → Reachable D C a → Reachable D C (stop a)

Starts-Consistent :
    (a : AudioCapture) (r : AudioCapture × Result (Unit {0}))
    → Consistent a
    → Starts a r
    → Consistent r.0
Starts-Consistent a (b, r) c (inl (e, q, s)) = subst Consistent (sym s) c
Starts-Consistent a (b, r) c (inr (q, backend, s)) =
    subst Consistent (sym s) (inl (refl, backend, refl))

-- After any calls of `start` and `stop` a capture runs exactly while it holds a backend.
pub Reachable-Consistent : (D C : Type 0) (a : AudioCapture) → Reachable D C a → Consistent a
Reachable-Consistent D C a (created config) = inr (refl, refl)
Reachable-Consistent D C a (started host p {a = b} r) =
    Starts-Consistent b (start host p b) (Reachable-Consistent D C b r) (start-Starts host p b)
Reachable-Consistent D C a (stopped {a = b} r) = inr (refl, refl)

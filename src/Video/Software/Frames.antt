-- ===== src/Video/Software/Frames.antt =====
-- crates/video-decoder/src/backend/software.rs: `decode_frame` returns, and what it leaves in place.
use pixi_ai.Common.{
  ℕ, zero, suc, ◌&&◌, not, ◌≢◌, if-both, leb, ◌<◌, ◌≡◌, ◌∙◌, refl, ◌⊎◌, inl, inr, Bool, true, false,
  Option, none, some, arith, Bool-cases,
}
use pixi_ai.Video.Types.{
  FrameStatus, new_frame, waiting, end_of_stream, Result, ok, err, VideoError,
}
use pixi_ai.Video.Playback.{PlaybackState, saturating_add, tick, check_end_of_stream}
use pixi_ai.Video.Mp4.{VideoPacket}
use pixi_ai.Video.Software.{
  Demuxer, Library, SwVideoSession, Decoded, failed, nothing_yet, picture, take_decoded,
  take_packet, decode_next_packet, decode_loop, run_loop, rewind, decode_due, decode_frame,
}

module _ {D X F : Type 0} (dem : Demuxer D) (lib : Library X) where
  -- How a step of the loop ends: with an error, a picture, the end of the stream, or with fewer packets.
  abbrev StepEnds : ℕ → SwVideoSession D X F × Result Bool → Type 0
  StepEnds n (t, r) =
      ((e : VideoError) × (r ≡ err e))
      ⊎ (r ≡ ok true)
      ⊎ ((r ≡ ok false) × (t.ended ≡ true))
      ⊎ ((r ≡ ok false) × (dem.left t.demuxer < n))

  take_decoded-StepEnds :
      (n : ℕ) (s : SwVideoSession D X F) (g : Decoded)
      → dem.left s.demuxer < n
      → StepEnds n (take_decoded s g)
  unfolding take_decoded
  take_decoded-StepEnds n s failed h = inr (inr (inr (refl, h)))
  take_decoded-StepEnds n s nothing_yet h = inr (inr (inr (refl, h)))
  take_decoded-StepEnds n s (picture p) h = inr (inl refl)

  take_packet-StepEnds :
      (n : ℕ) (s : SwVideoSession D X F) (r : Result (Option VideoPacket))
      → ((p : VideoPacket) → r ≡ ok (some p) → dem.left s.demuxer < n)
      → StepEnds n (take_packet dem lib s r)
  unfolding take_packet
  take_packet-StepEnds n s (err e) h = inl (e, refl)
  take_packet-StepEnds n s (ok none) h = inr (inr (inl (refl, refl)))
  take_packet-StepEnds n s (ok (some p)) h =
      take_decoded-StepEnds n (record s { decoder = (lib.decode_packet s.decoder p.body).0 })
        (lib.decode_packet s.decoder p.body).1 (h p refl)

  decode_next_packet-StepEnds :
      (s : SwVideoSession D X F) → StepEnds (dem.left s.demuxer) (decode_next_packet dem lib s)
  unfolding decode_next_packet
  decode_next_packet-StepEnds s =
      take_packet-StepEnds (dem.left s.demuxer)
        (record s { demuxer = (dem.next_packet s.demuxer).0 }) (dem.next_packet s.demuxer).1
        (λ p e. dem.left-next_packet s.demuxer p e)

  abbrev pub Decided : Option (SwVideoSession D X F × Result FrameStatus) → Type 0
  Decided o = (r : SwVideoSession D X F × Result FrameStatus) × (o ≡ some r)

  decode_loop-Decided :
      (rounds : ℕ) (s : SwVideoSession D X F)
      → dem.left s.demuxer < rounds
      → Decided (decode_loop dem lib rounds s)
  unfolding decode_loop
  decode_loop-Decided zero s h = absurd (omega arith)
  decode_loop-Decided (suc rounds) s h = elim (decode_next_packet-StepEnds s) [
    | inl (e, q) ↦ rw (q, decode_loop) (_, refl)
    | inr (inl q) ↦ rw (q, decode_loop) (_, refl)
    | inr (inr (inl (q, t))) ↦ rw (q, t, decode_loop) (_, refl)
    | inr (inr (inr (q, lt))) ↦ elim (Bool-cases (decode_next_packet dem lib s).0.ended) [
      | inl t ↦ rw (q, t, decode_loop) (_, refl)
      | inr t ↦
          rw (q, t, decode_loop)
            (decode_loop-Decided rounds (decode_next_packet dem lib s).0 (omega arith))
    ]
  ]

  run_loop-Decided : (s : SwVideoSession D X F) → Decided (run_loop dem lib s)
  unfolding run_loop
  run_loop-Decided s =
      if-both Decided s.ended (_, refl)
        (decode_loop-Decided (suc (dem.left s.demuxer)) s (omega arith))

  due-Decided :
      (t : SwVideoSession D X F) (r : Result (Unit {0}))
      → Decided (elim r [ err e ↦ some (t, err e) | ok u ↦ run_loop dem lib t ])
  due-Decided t (err e) = (_, refl)
  due-Decided t (ok u) = run_loop-Decided t

  decode_due-Decided : (s : SwVideoSession D X F) → Decided (decode_due dem lib s)
  unfolding decode_due
  decode_due-Decided s =
      if-both Decided (s.ended && s.playback.looping)
        (due-Decided (rewind dem lib s).0 (rewind dem lib s).1) (run_loop-Decided s)

  -- Every call of `decode_frame` returns.
  pub decode_frame-Decided :
      (s : SwVideoSession D X F) (dt : ℕ) → Decided (decode_frame dem lib s dt)
  unfolding decode_frame
  decode_frame-Decided s dt =
      if-both Decided s.playback.paused (_, refl)
        (if-both Decided (not (tick s.playback dt).1) (_, refl)
          (if-both Decided (not (check_end_of_stream (tick s.playback dt).0).1) (_, refl)
            (decode_due-Decided
              (record s { playback = (check_end_of_stream (tick s.playback dt).0).0 }))))

  -- A session that has come to the end of its packets and does not loop.
  abbrev pub Over : SwVideoSession D X F → Type 0
  Over s = (s.ended ≡ true) × (s.playback.looping ≡ false)

  abbrev OnlyClock :
      SwVideoSession D X F → Option (SwVideoSession D X F × Result FrameStatus) → Type 0
  OnlyClock s o =
      (p : PlaybackState F) × (r : FrameStatus) × (o ≡ some (record s { playback = p }, ok r))
      × (r ≢ new_frame)
      × (p.looping ≡ false)

  abbrev SameLooping : PlaybackState F → PlaybackState F × Bool → Type 0
  SameLooping p x = x.0.looping ≡ p.looping

  tick-SameLooping : (p : PlaybackState F) (dt : ℕ) → SameLooping p (tick p dt)
  unfolding tick
  tick-SameLooping p dt = if-both (SameLooping p) p.paused refl (
      if-both (SameLooping p) (leb p.frame_interval (saturating_add p.elapsed_since_frame dt)) refl
        refl)

  check_end_of_stream-SameLooping : (p : PlaybackState F) → SameLooping p (check_end_of_stream p)
  unfolding check_end_of_stream
  check_end_of_stream-SameLooping p =
      if-both (SameLooping p) (leb p.duration p.position)
        (if-both (SameLooping p) p.looping refl refl) refl

  decode_due-Over :
      (s : SwVideoSession D X F) → Over s → decode_due dem lib s ≡ some (s, ok end_of_stream)
  unfolding decode_due run_loop
  decode_due-Over s (e, l) = rw (e, l) refl

  -- A call on a session that is over moves the clock only, and brings no new frame; it stays over.
  pub decode_frame-Over :
      (s : SwVideoSession D X F) (dt : ℕ) → Over s → OnlyClock s (decode_frame dem lib s dt)
  unfolding decode_frame
  decode_frame-Over s dt (e, l) =
      let p = (tick s.playback dt).0 in
      let q = (check_end_of_stream p).0 in
      let p-looping : p.looping ≡ s.playback.looping = tick-SameLooping s.playback dt in
      let q-looping : q.looping ≡ s.playback.looping =
        check_end_of_stream-SameLooping p ∙ p-looping in
      if-both (OnlyClock s) s.playback.paused (s.playback, waiting, refl, (λ n. cc), l)
        (if-both (OnlyClock s) (not (tick s.playback dt).1)
          (p, waiting, refl, (λ n. cc), p-looping ∙ l)
          (if-both (OnlyClock s) (not (check_end_of_stream p).1)
            (q, end_of_stream, refl, (λ n. cc), q-looping ∙ l)
            (
              q,
              end_of_stream,
              decode_due-Over (record s { playback = q }) (e, q-looping ∙ l),
              (λ n. cc),
              q-looping ∙ l,
            )))

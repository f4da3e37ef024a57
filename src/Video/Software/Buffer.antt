-- ===== src/Video/Software/Buffer.antt =====
-- crates/video-decoder/src/backend/software.rs: the size of the buffer that is handed to the caller.
use pixi_ai.Common.{
  ℕ, zero, suc, ◌+◌, ◌-◌, ◌*◌, ◌≡◌, ◌∙◌, subst, Bool, true, false, not, ◌&&◌, Option, none, some,
  arith, [], ◌∷◌, ◌==◌, if◌then◌else◌, if-both, length, take, length-append, length-replicate,
  replicate, inl, inr, Bool-cases,
}
use pixi_ai.Video.Types.{
  FrameStatus, new_frame, waiting, end_of_stream, OutputTarget, SessionConfig, Result, ok, err,
}
use pixi_ai.Video.Annexb.{Bytes}
use pixi_ai.Video.Playback.{tick, check_end_of_stream}
use pixi_ai.Video.Mp4.{VideoPacket}
use pixi_ai.Video.Software.{
  Demuxer, Library, Picture, SwVideoSession, Decoded, failed, nothing_yet, picture, paint,
  take_decoded, take_packet, decode_next_packet, decode_loop, run_loop, renewed, repositioned,
  created, moved_clock, is_h264, rewind, decode_due, decode_frame, seek, set_looping, pause_session,
  resume_session, new, CodecParameters, resize, frame_rgba,
}

length-take_resize : (n : ℕ) (b : Bytes) → length (take n b) + (n - length b) ≡ n
length-take_resize zero b = omega arith
length-take_resize (suc n) [] = omega arith
length-take_resize (suc n) (x ∷ b) = omega (arith, length-take_resize n b)

length-resize : (n : ℕ) (b : Bytes) → length (resize n b) ≡ n
length-resize n b =
    length-append (take n b) (replicate (n - length b) 0)
    ∙ omega (arith, length-replicate {A = ℕ} (n - length b) 0, length-take_resize n b)

module _ {D X F : Type 0} (dem : Demuxer D) (lib : Library X) where
  abbrev pub Sized : SwVideoSession D X F → Type 0
  Sized s = length (frame_rgba s) ≡ s.info.width * s.info.height * 4

  abbrev SizedAfter : {R : Type 0} → Option (SwVideoSession D X F × R) → Type 0
  SizedAfter none = Unit
  SizedAfter (some (t, r)) = Sized t

  -- Every state of a session: from its creation by the operations of the trait.
  pub data Reachable : SwVideoSession D X F → Type 0 where
    opened :
        (is_positive : F → Bool) (frame_time : F → ℕ) (d : D) (p : CodecParameters F)
        (output : OutputTarget) (config : SessionConfig) {s : SwVideoSession D X F}
        → new dem lib is_positive frame_time d p output config ≡ ok s
        → Reachable s
    framed :
        {s t : SwVideoSession D X F} (dt : ℕ) (r : Result FrameStatus)
        → decode_frame dem lib s dt ≡ some (t, r)
        → Reachable s
        → Reachable t
    sought :
        {s : SwVideoSession D X F} (position : ℕ)
        → Reachable s
        → Reachable (seek dem lib s position).0
    looped :
        {s : SwVideoSession D X F} (looping : Bool)
        → Reachable s
        → Reachable (set_looping s looping)
    paused : {s : SwVideoSession D X F} → Reachable s → Reachable (pause_session s)
    resumed : {s : SwVideoSession D X F} → Reachable s → Reachable (resume_session s)

  paint-Sized : (s : SwVideoSession D X F) (p : Picture) → Sized s → Sized (paint s p)
  unfolding paint
  paint-Sized s p h = elim (Bool-cases (length s.frame_buffer == p.w * p.h * 4)) [
    | inl e ↦ rw (e) (p.length-write_rgba8 s.frame_buffer ∙ h)
    | inr e ↦ rw (e) (
        p.length-write_rgba8 (resize (p.w * p.h * 4) s.frame_buffer)
        ∙ length-resize (p.w * p.h * 4) s.frame_buffer)
  ]

  take_decoded-Sized :
      (s : SwVideoSession D X F) (g : Decoded) → Sized s → Sized (take_decoded s g).0
  unfolding take_decoded
  take_decoded-Sized s failed h = h
  take_decoded-Sized s nothing_yet h = h
  take_decoded-Sized s (picture p) h = paint-Sized s p h

  take_packet-Sized :
      (s : SwVideoSession D X F) (r : Result (Option VideoPacket))
      → Sized s
      → Sized (take_packet dem lib s r).0
  unfolding take_packet
  take_packet-Sized s (err e) h = h
  take_packet-Sized s (ok none) h = h
  take_packet-Sized s (ok (some p)) h =
      take_decoded-Sized (record s { decoder = (lib.decode_packet s.decoder p.body).0 })
        (lib.decode_packet s.decoder p.body).1 h

  decode_next_packet-Sized :
      (s : SwVideoSession D X F) → Sized s → Sized (decode_next_packet dem lib s).0
  unfolding decode_next_packet
  decode_next_packet-Sized s h =
      take_packet-Sized (record s { demuxer = (dem.next_packet s.demuxer).0 })
        (dem.next_packet s.demuxer).1 h

  goes_on-Sized :
      (t : SwVideoSession D X F) (r : Result Bool)
      (rest : Option (SwVideoSession D X F × Result FrameStatus))
      → Sized t
      → SizedAfter rest
      → SizedAfter {R = Result FrameStatus} (elim r [
        | err e ↦ some (t, err e)
        | ok painted ↦
            if painted
            then some (t, ok new_frame)
            else if t.ended
            then some (t, ok (if t.playback.looping then waiting else end_of_stream))
            else rest
      ])
  goes_on-Sized t (err e) rest h k = h
  goes_on-Sized t (ok true) rest h k = h
  goes_on-Sized t (ok false) rest h k = if-both SizedAfter t.ended h k

  decode_loop-Sized :
      (n : ℕ) (s : SwVideoSession D X F) → Sized s → SizedAfter (decode_loop dem lib n s)
  unfolding decode_loop
  decode_loop-Sized zero s h = tt
  decode_loop-Sized (suc n) s h =
      let t = (decode_next_packet dem lib s).0 in
      goes_on-Sized t (decode_next_packet dem lib s).1 (decode_loop dem lib n t)
        (decode_next_packet-Sized s h) (decode_loop-Sized n t (decode_next_packet-Sized s h))

  run_loop-Sized : (s : SwVideoSession D X F) → Sized s → SizedAfter (run_loop dem lib s)
  unfolding run_loop
  run_loop-Sized s h =
      if-both SizedAfter s.ended h (decode_loop-Sized (suc (dem.left s.demuxer)) s h)

  renewed-Sized :
      (s : SwVideoSession D X F) (o : Option X) → Sized s → Sized (renewed dem lib s o).0
  unfolding renewed
  renewed-Sized s none h = h
  renewed-Sized s (some x) h = h

  repositioned-Sized :
      (s : SwVideoSession D X F) (r : Result (Unit {0}))
      → Sized s
      → Sized (repositioned dem lib s r).0
  unfolding repositioned
  repositioned-Sized s (err e) h = h
  repositioned-Sized s (ok u) h = renewed-Sized s lib.create h

  rewound-Sized :
      (t : SwVideoSession D X F) (r : Result (Unit {0}))
      → Sized t
      → SizedAfter {R = Result FrameStatus}
          (elim r [ err e ↦ some (t, err e) | ok u ↦ run_loop dem lib t ])
  rewound-Sized t (err e) h = h
  rewound-Sized t (ok u) h = run_loop-Sized t h

  decode_due-Sized : (s : SwVideoSession D X F) → Sized s → SizedAfter (decode_due dem lib s)
  unfolding decode_due rewind
  decode_due-Sized s h =
      let (d, r) = dem.seek_to s.demuxer 0 in
      if-both SizedAfter (s.ended && s.playback.looping)
        (rewound-Sized (rewind dem lib s).0 (rewind dem lib s).1
          (repositioned-Sized (record s { demuxer = d }) r h))
        (run_loop-Sized s h)

  decode_frame-Sized :
      (s : SwVideoSession D X F) (dt : ℕ) → Sized s → SizedAfter (decode_frame dem lib s dt)
  unfolding decode_frame
  decode_frame-Sized s dt h =
      let p = (tick s.playback dt).0 in
      if-both SizedAfter s.playback.paused h (
        if-both SizedAfter (not (tick s.playback dt).1) h (
          if-both SizedAfter (not (check_end_of_stream p).1) h
            (decode_due-Sized (record s { playback = (check_end_of_stream p).0 }) h)))

  seek-Sized :
      (s : SwVideoSession D X F) (position : ℕ) → Sized s → Sized (seek dem lib s position).0
  unfolding seek
  seek-Sized s position h =
      let (d, r) = dem.seek_to s.demuxer position in
      repositioned-Sized (record s { demuxer = d; playback = moved_clock s.playback position r }) r
        h

  SizedResult : Result (SwVideoSession D X F) → Type 0
  SizedResult (ok s) = Sized s
  SizedResult (err e) = Unit

  created-Sized :
      (o : Option X) (f : X → Result (SwVideoSession D X F))
      → ((x : X) → SizedResult (f x))
      → SizedResult (created o f)
  unfolding SizedResult
  created-Sized none f h = tt
  created-Sized (some x) f h = h x

  new-Sized :
      (is_positive : F → Bool) (frame_time : F → ℕ) (d : D) (p : CodecParameters F)
      (output : OutputTarget) (config : SessionConfig)
      → SizedResult (new dem lib is_positive frame_time d p output config)
  unfolding new SizedResult
  new-Sized is_positive frame_time d p output config =
      if-both SizedResult (is_h264 p.codec)
        (created-Sized lib.create _ (λ x. length-replicate {A = ℕ} (p.width * p.height * 4) 0)) tt

  -- In every state of a session the buffer holds four bytes for each pixel of the reported dimensions.
  pub Reachable-Sized : (s : SwVideoSession D X F) → Reachable s → Sized s
  Reachable-Sized s (opened is_positive frame_time d p output config e) =
      unfold SizedResult in subst SizedResult e (new-Sized is_positive frame_time d p output config)
  Reachable-Sized s (framed {s = r} dt x e h) =
      subst SizedAfter e (decode_frame-Sized r dt (Reachable-Sized r h))
  Reachable-Sized s (sought {s = r} position h) = seek-Sized r position (Reachable-Sized r h)
  Reachable-Sized s (looped {s = r} looping h) = Reachable-Sized r h
  Reachable-Sized s (paused {s = r} h) = Reachable-Sized r h
  Reachable-Sized s (resumed {s = r} h) = Reachable-Sized r h

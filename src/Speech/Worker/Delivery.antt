-- ===== src/Speech/Worker/Delivery.antt =====
-- What reaches the callback of `SpeechCapture::start`.
use pixi_ai.Common.{
  ℕ, ◌≡◌, refl, ap, ap₂, ◌∙◌, ◌⊎◌, map, ◌++◌, inl, inr, Bool, true, ◌&&◌, Option, none, some, List,
  [], ◌∷◌, arith, All, All-map, if◌then◌else◌, Text, Option-cases,
}
use pixi_ai.Speech.Segmenter.{
  EarlyCutResult, SpeechEvent, voice_start, transcript_interim, voice_end, vad_status, VadSegmenter,
  feed,
}
use pixi_ai.Speech.Segmenter.Timeout.{Reported, feed-Reported}
use pixi_ai.Speech.Worker.{
  Worker, AudioFrame, VadResult, is_enabled, fill_turn, attach, deliver, deliver_all, interim,
  after_vad, worker_step,
}

module _ {S F P V : Type 0} (predict : P → List S → P × Option (EarlyCutResult F))
    (process : V → List S → V × Option (VadResult F)) (transcribe : List S → Option Text) where
  -- The batch fallback never asks the detector: whatever the segmenter reports already says whether
  -- the turn is over, so the event and the detector pass through unchanged.
  pub fill_turn-Reported :
      (min_ms : ℕ) (p : Option P) (event : SpeechEvent S F)
      → Reported min_ms event
      → fill_turn predict process transcribe p event ≡ (p, event)
  unfolding fill_turn
  fill_turn-Reported min_ms p (voice_start t) r = refl
  fill_turn-Reported min_ms p (transcript_interim t text) r = absurd r
  fill_turn-Reported min_ms p (voice_end t audio d transcript none f) r = absurd (ground arith)
  fill_turn-Reported min_ms p (voice_end t audio d transcript (some b) f) r = refl
  fill_turn-Reported min_ms p (vad_status t f b) r = absurd r

  -- So it is for every event of every frame: the batch fallback leaves it as it is.
  pub fill_turn-feed :
      (g : VadSegmenter S P) (is_voice : Bool) (samples : List S) (timestamp : ℕ) (p : Option P)
      → All
          (λ event. fill_turn predict process transcribe p event ≡ (p, event))
          (feed predict g is_voice samples timestamp).1
  fill_turn-feed g is_voice samples timestamp p =
      All-map (fill_turn-Reported g.min_speech_ms p) (feed predict g is_voice samples timestamp).1
        (feed-Reported predict g is_voice samples timestamp)

  -- An event as it is to reach the callback: a segment's end with the transcription of its audio, and
  -- any other event as it is.
  abbrev pub told : SpeechEvent S F → SpeechEvent S F
  told (voice_end t audio d transcript turn f) = voice_end t audio d (transcribe audio) turn f
  told (voice_start t) = voice_start t
  told (transcript_interim t text) = transcript_interim t text
  told (vad_status t f b) = vad_status t f b

  abbrev pub IsInterim : SpeechEvent S F → Type 0
  IsInterim (transcript_interim t text) = Unit {0}
  IsInterim (voice_start t) = ⊥
  IsInterim (voice_end t audio d transcript turn f) = ⊥
  IsInterim (vad_status t f b) = ⊥

  abbrev status : Worker S P V → AudioFrame S → VadResult F → List (SpeechEvent S F)
  status w frame r =
      if w.emit_vad_status then vad_status frame.timestamp r.probability r.is_voice ∷ [] else []

  attach-told :
      (w : Worker S P V) (event : SpeechEvent S F)
      → w.engine && is_enabled w.stt_mode ≡ true
      → ((attach predict process transcribe w event).1 ≡ told event)
        × ((attach predict process transcribe w event).0.engine ≡ w.engine)
        × ((attach predict process transcribe w event).0.stt_mode ≡ w.stt_mode)
  unfolding attach
  attach-told w (voice_start t) on = (refl, refl, refl)
  attach-told w (transcript_interim t text) on = (refl, refl, refl)
  attach-told w (voice_end t audio d transcript turn f) on = rw on (refl, refl, refl)
  attach-told w (vad_status t f b) on = (refl, refl, refl)

  deliver_all-told :
      (min_ms : ℕ) (events : List (SpeechEvent S F)) (w : Worker S P V)
      → All (Reported min_ms) events
      → w.engine && is_enabled w.stt_mode ≡ true
      → (deliver_all predict process transcribe w events).1 ≡ map told events
  unfolding deliver_all deliver
  deliver_all-told min_ms [] w rep on = refl
  deliver_all-told min_ms (event ∷ events) w (r, rep) on =
      let put = λ (x : Option P × SpeechEvent S F).
        attach predict process transcribe (record w { seg = record (w.seg) { etd_predict = x.0 } })
          x.1 in
      let (same_event, same, same') =
        attach-told (record w { seg = record (w.seg) { etd_predict = w.seg.etd_predict } }) event
          on in
      ap (λ x. (put x).1 ∷ (deliver_all predict process transcribe (put x).0 events).1)
        (fill_turn-Reported min_ms w.seg.etd_predict event r)
      ∙ ap₂ ◌∷◌ same_event (
          deliver_all-told min_ms events (put (w.seg.etd_predict, event)).0 rep
            (rw (same, same') on))

  interim-IsInterim :
      (w : Worker S P V) (timestamp : ℕ)
      → All IsInterim (interim predict process transcribe w timestamp).1
        × ((interim predict process transcribe w timestamp).0.engine ≡ w.engine)
        × ((interim predict process transcribe w timestamp).0.stt_mode ≡ w.stt_mode)
        × ((interim predict process transcribe w timestamp).0.seg ≡ w.seg)
  unfolding interim
  interim-IsInterim w timestamp = ground arith

  -- What a frame gives: nothing where the VAD fails; else its status, if that is wanted, then interim
  -- transcriptions, then all that the segmenter reports, with the transcriptions.
  abbrev pub Told : Worker S P V → AudioFrame S → List (SpeechEvent S F) → Type 0
  Told w frame out =
      (((process w.vad frame.samples).1 ≡ none) × (out ≡ []))
      ⊎ ((r : VadResult F) × (partial : List (SpeechEvent S F)) × ((process w.vad frame.samples).1
            ≡ some r)
          × All IsInterim partial
          × (out
              ≡ (if w.emit_vad_status
                  then vad_status frame.timestamp r.probability r.is_voice ∷ []
                  else [])
                ++ (partial
                    ++ map told (feed predict w.seg r.is_voice frame.samples frame.timestamp).1)))

  after_vad-told :
      (w : Worker S P V) (frame : AudioFrame S) (r : VadResult F)
      → w.engine && is_enabled w.stt_mode ≡ true
      → (after_vad predict process transcribe w frame r).1
        ≡ status w frame r
          ++ ((interim predict process transcribe w frame.timestamp).1
              ++ map told (feed predict w.seg r.is_voice frame.samples frame.timestamp).1)
  after_vad-told w frame r on =
      let (w', partial) = interim predict process transcribe w frame.timestamp in
      let (fine, same, same', seg_same) = interim-IsInterim w frame.timestamp in
      let (seg, events) = feed predict w'.seg r.is_voice frame.samples frame.timestamp in
      ap (λ out. status w frame r ++ (partial ++ out))
        (deliver_all-told w'.seg.min_speech_ms events (record w' { seg = seg })
            (feed-Reported predict w'.seg r.is_voice frame.samples frame.timestamp)
            (rw (same, same') on)
          ∙ ap (λ g. map told (feed predict g r.is_voice frame.samples frame.timestamp).1) seg_same)

  -- With a whisper engine that is not disabled, a frame that the VAD takes gives the callback its status,
  -- if that is wanted, then interim transcriptions, and then every event that the segmenter reports for
  -- the frame, in order, each segment's end with the transcription of its audio; a frame that the VAD
  -- fails on gives nothing.
  pub worker_step-Told :
      (w : Worker S P V) (frame : AudioFrame S)
      → w.engine && is_enabled w.stt_mode ≡ true
      → Told w frame (worker_step predict process transcribe w frame).1
  unfolding worker_step
  worker_step-Told w frame on = elim (Option-cases (process w.vad frame.samples).1) [
    | inl e ↦ rw (e, worker_step) (inl (refl, refl))
    | inr (r, e) ↦
        let w' = record w { vad = (process w.vad frame.samples).0 } in
        inr (
          r,
          (interim predict process transcribe w' frame.timestamp).1,
          e,
          (interim-IsInterim w' frame.timestamp).0,
          rw (e, worker_step) (after_vad-told w' frame r on),
        )
  ]

-- ===== src/Speech/Segmenter/Timeout.antt =====
-- When silence ends a segment, and what a whole run of frames reports.
use pixi_ai.Common.{
  ℕ, ◌-◌, ◌≤◌, ◌≡◌, refl, ◌↔◌, inl, inr, Bool, true, false, Option, none, some, List, [], ◌∷◌, ◌++◌,
  arith, if◌then◌else◌, All, All-append, Bool-cases, length,
}
use pixi_ai.Speech.Segmenter.{
  State, idle, speaking, trailing_silence, EarlyCutResult, SpeechEvent, voice_start, voice_end,
  VadSegmenter, millis, is_active, ask, timeout_of, feed,
}
use pixi_ai.Speech.Segmenter.Contract.{feed_idle, feed-Continues}

-- A start, or an end that is at least `min_ms` long and says whether the turn is over.
abbrev pub Reported : {S F : Type 0} → ℕ → SpeechEvent S F → Type 0
Reported min_ms (voice_start t) = Unit {0}
Reported min_ms (voice_end t audio d transcript turn p) =
    (millis min_ms ≤ d) × (transcript ≡ none) × ((b : Bool) × (turn ≡ some b))
Reported min_ms e = ⊥

closed_of_inactive : (s : State) → is_active s ≡ false → s ≡ idle
closed_of_inactive idle e = refl
closed_of_inactive speaking e = absurd (ground arith)
closed_of_inactive (trailing_silence t b) e = absurd (ground arith)

module _ {S F P : Type 0} (predict : P → List S → P × Option (EarlyCutResult F)) where
  -- In trailing silence a silent frame ends the segment exactly when the silence has lasted the
  -- timeout, the extended one after the predictor said that the turn is not complete; a voice frame
  -- goes back to speaking.
  pub feed_trailing :
      (g : VadSegmenter S P) (since timestamp : ℕ) (incomplete : Bool) (samples : List S)
      → g.state ≡ trailing_silence since incomplete
      → (((feed predict g false samples timestamp).0.state ≡ idle)
          ↔ (timeout_of g incomplete ≤ timestamp - since))
        × ((feed predict g true samples timestamp).0.state ≡ speaking)
        × ((feed predict g true samples timestamp).1 ≡ [])
  unfolding feed
  feed_trailing g since timestamp incomplete samples e = ground arith

  -- What the predictor says of the segment when silence sets in.
  abbrev pub onset_answer : VadSegmenter S P → List S → Option (EarlyCutResult F)
  onset_answer g samples = (ask predict g.etd_predict (g.audio_buffer ++ samples)).1

  -- A silent frame while speaking ends the segment at once if the predictor says that the turn is
  -- complete; else silence is awaited from this frame on, with the extended timeout exactly if the
  -- predictor answered.
  pub feed_onset :
      (g : VadSegmenter S P) (timestamp : ℕ) (samples : List S)
      → g.state ≡ speaking
      → (feed predict g false samples timestamp).0.state ≡ elim (onset_answer g samples) [
        | none ↦ trailing_silence timestamp false
        | some r ↦ if r.prediction then idle else trailing_silence timestamp true
      ]
  unfolding feed
  feed_onset g timestamp samples e = ground arith

  pub run : VadSegmenter S P → List (Bool × List S × ℕ) → VadSegmenter S P × List (SpeechEvent S F)
  run g [] = (g, [])
  run g ((is_voice, samples, timestamp) ∷ frames) =
      let (g', events) = feed predict g is_voice samples timestamp in
      let (end, more) = run g' frames in (end, events ++ more)

  feed-min_speech_ms :
      (g : VadSegmenter S P) (is_voice : Bool) (samples : List S) (timestamp : ℕ)
      → (feed predict g is_voice samples timestamp).0.min_speech_ms ≡ g.min_speech_ms
  unfolding feed
  feed-min_speech_ms g is_voice samples timestamp = ground arith

  pub feed-Reported :
      (g : VadSegmenter S P) (is_voice : Bool) (samples : List S) (timestamp : ℕ)
      → All (Reported g.min_speech_ms) (feed predict g is_voice samples timestamp).1
  feed-Reported g is_voice samples timestamp = elim (Bool-cases (is_active g.state)) [
    | inl active ↦
        elim (feed-Continues predict g _ _ is_voice samples timestamp (active, refl, refl)) [
          | inl (e, _) ↦ rw e tt
          | inr (inl (_, _, e, _)) ↦ rw e tt
          | inr (inr (turn, p, _, long, e, _)) ↦ rw e ((long, refl, (turn, refl)), tt)
        ]
    | inr inactive ↦
        elim (feed_idle predict g is_voice samples timestamp
          (closed_of_inactive g.state inactive)) [
            | inl (_, e) ↦ rw e tt
            | inr (_, e, _) ↦ rw e (tt, tt)
          ]
  ]

  -- Whatever frames are fed, each event is a start, or an end that is at least the minimum long,
  -- carries no transcript and always says whether the turn is over.
  pub run-Reported :
      (g : VadSegmenter S P) (frames : List (Bool × List S × ℕ))
      → All (Reported g.min_speech_ms) (run g frames).1
  unfolding run
  run-Reported g [] = tt
  run-Reported g ((is_voice, samples, timestamp) ∷ frames) =
      let g' = (feed predict g is_voice samples timestamp).0 in
      All-append _ (feed predict g is_voice samples timestamp).1 (run g' frames).1
        (feed-Reported g is_voice samples timestamp)
        (rw (feed-min_speech_ms g is_voice samples timestamp) at (run-Reported g' frames))

  -- One frame gives at most one event.
  pub length-feed :
      (g : VadSegmenter S P) (is_voice : Bool) (samples : List S) (timestamp : ℕ)
      → length (feed predict g is_voice samples timestamp).1 ≤ 1
  unfolding feed
  length-feed g is_voice samples timestamp = ground arith

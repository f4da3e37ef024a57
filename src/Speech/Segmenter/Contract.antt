-- ===== src/Speech/Segmenter/Contract.antt =====
-- What a caller of `feed` sees: segments that begin with a voice frame, collect every sample and end
-- in silence, each at most once.
use pixi_ai.Common.{
  ℕ, ◌-◌, ◌≤◌, ◌<◌, ◌≡◌, refl, ◌⊎◌, inl, inr, Bool, true, false, not, Option, none, some, List, [],
  ◌∷◌, ◌++◌, arith, leb, Bool-cases, subst, ap,
}
use pixi_ai.Speech.Segmenter.{
  State, idle, speaking, trailing_silence, EarlyCutResult, SpeechEvent, voice_start, voice_end,
  VadSegmenter, millis, is_active, finish, ask, onset, timeout_of, step_in, feed,
}

module _ {S P : Type 0} where
  -- The segment that is open: when it began and what it holds.
  abbrev pub Open : VadSegmenter S P → ℕ → List S → Type 0
  Open g start audio =
      (is_active g.state ≡ true) × (g.voice_start_at ≡ start) × (g.audio_buffer ≡ audio)

  abbrev pub Closed : VadSegmenter S P → Type 0
  Closed g = g.state ≡ idle

module _ {S F P : Type 0} where
  -- A frame in an open segment either joins it, or ends it in silence. The segment that ends is
  -- reported with all its audio if it is long enough, and dropped if not.
  abbrev pub Continues :
      VadSegmenter S P → ℕ → List S → Bool → ℕ → VadSegmenter S P × List (SpeechEvent S F) → Type 0
  Continues g start audio is_voice timestamp r =
      ((r.1 ≡ []) × Open r.0 start audio)
      ⊎ ((is_voice ≡ false)
          × (timestamp - start < millis g.min_speech_ms)
          × (r.1 ≡ [])
          × Closed r.0)
      ⊎ ((turn : Bool) × (p : Option F) × (is_voice ≡ false)
          × (millis g.min_speech_ms ≤ timestamp - start)
          × (r.1 ≡ voice_end timestamp audio (timestamp - start) none (some turn) p ∷ [])
          × Closed r.0)

  finish-Continues :
      (g : VadSegmenter S P) (timestamp : ℕ) (turn : Bool) (p : Option F)
      → Continues g g.voice_start_at g.audio_buffer false timestamp (finish g timestamp turn p)
  unfolding finish
  finish-Continues g timestamp turn p =
      elim (Bool-cases (leb (millis g.min_speech_ms) (timestamp - g.voice_start_at))) [
        | inl long ↦ rw long (inr (inr (turn, p, refl, ground arith, refl, refl)))
        | inr short ↦ rw short (inr (inl (refl, ground arith, refl, refl)))
      ]

  onset-Continues :
      (g : VadSegmenter S P) (timestamp : ℕ) (answer : Option (EarlyCutResult F))
      → Continues g g.voice_start_at g.audio_buffer false timestamp (onset g timestamp answer)
  unfolding onset
  onset-Continues g timestamp none = inl (refl, (refl, refl, refl))
  onset-Continues g timestamp (some r) = elim (Bool-cases r.prediction) [
    | inl done ↦ rw done (finish-Continues g timestamp true (some r.probability))
    | inr more ↦ rw more (inl (refl, (refl, refl, refl)))
  ]

module _ {S F P : Type 0} (predict : P → List S → P × Option (EarlyCutResult F)) where
  -- A frame outside a segment: a voice frame opens one that holds its samples.
  pub feed_idle :
      (g : VadSegmenter S P) (is_voice : Bool) (samples : List S) (timestamp : ℕ)
      → Closed g
      → let r = feed predict g is_voice samples timestamp in
        ((is_voice ≡ false) × (r ≡ (g, [])))
        ⊎ ((is_voice ≡ true) × (r.1 ≡ voice_start timestamp ∷ []) × Open r.0 timestamp samples)
  unfolding feed
  feed_idle g is_voice samples timestamp closed = ground arith

  step_in-Continues :
      (s : State) (g : VadSegmenter S P) (is_voice : Bool) (samples : List S) (timestamp : ℕ)
      → g.state ≡ s
      → is_active s ≡ true
      → Continues g g.voice_start_at
          (g.audio_buffer ++ samples)
          is_voice
          timestamp
          (step_in predict s g is_voice samples timestamp)
  unfolding step_in
  step_in-Continues idle g is_voice samples timestamp e active = absurd (ground arith)
  step_in-Continues speaking g true samples timestamp e active =
      inl (refl, (ap is_active e, refl, refl))
  step_in-Continues speaking g false samples timestamp e active =
      onset-Continues
        (record g {
          audio_buffer = g.audio_buffer ++ samples;
          etd_predict = (ask predict g.etd_predict (g.audio_buffer ++ samples)).0;
        })
        timestamp (ask predict g.etd_predict (g.audio_buffer ++ samples)).1
  step_in-Continues (trailing_silence t b) g true samples timestamp e active =
      inl (refl, (refl, refl, refl))
  step_in-Continues (trailing_silence t b) g false samples timestamp e active =
      elim (Bool-cases (leb (timeout_of g b) (timestamp - t))) [
        | inl late ↦ rw late (
            finish-Continues (record g { audio_buffer = g.audio_buffer ++ samples }) timestamp
              (not b) none)
        | inr early ↦ rw early (inl (refl, (ap is_active e, refl, refl)))
      ]

  -- A frame in an open segment joins it with its samples, or is silence and ends it. The segment
  -- that ends is reported with all its audio, its length and an end-of-turn flag if it is at least
  -- the minimum long, and dropped without an event if not.
  pub feed-Continues :
      (g : VadSegmenter S P) (start : ℕ) (audio : List S) (is_voice : Bool) (samples : List S)
      (timestamp : ℕ)
      → Open g start audio
      → Continues g start
          (audio ++ samples)
          is_voice
          timestamp
          (feed predict g is_voice samples timestamp)
  unfolding feed
  feed-Continues g start audio is_voice samples timestamp (active, at, holds) =
      subst
        (λ b.
          Continues g start (b ++ samples) is_voice timestamp
            (feed predict g is_voice samples timestamp))
        holds
        (subst
          (λ t.
            Continues g t (g.audio_buffer ++ samples) is_voice timestamp
              (feed predict g is_voice samples timestamp))
          at (step_in-Continues g.state g is_voice samples timestamp refl active))

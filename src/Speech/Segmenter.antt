-- ===== src/Speech/Segmenter.antt =====
-- crates/speech-capture/src/segmenter.rs: the segmentation state machine.
-- A `Duration` is its nanoseconds. Samples and probabilities are only moved, so their types are
-- arguments. The predictor is a `FnMut`: its own state is threaded through its calls.
pub mod Contract
pub mod Timeout
use pixi_ai.Common.{
  ℕ, ◌-◌, ◌*◌, ◌%◌, u32_mod, Bool, true, false, not, Option, none, some, List, [], ◌∷◌, ◌++◌, leb,
  if◌then◌else◌, Text,
}

pub data State : Type 0 where
  idle speaking : State
  trailing_silence : ℕ → Bool → State

pub record EarlyCutResult (F : Type 0) : Type 0 where
  pub prediction : Bool
  pub probability : F

-- `SpeechEvent` (lib.rs).
pub data SpeechEvent (S F : Type 0) : Type 0 where
  voice_start : ℕ → SpeechEvent S F
  transcript_interim : ℕ → Text → SpeechEvent S F
  voice_end : ℕ → List S → ℕ → Option Text → Option Bool → Option F → SpeechEvent S F
  vad_status : ℕ → F → Bool → SpeechEvent S F

-- `etd_predict` holds the state of the predictor, if one is set.
pub record VadSegmenter (S P : Type 0) : Type 0 where
  pub state : State
  pub min_speech_ms : ℕ
  pub silence_timeout_ms : ℕ
  pub extended_silence_timeout_ms : ℕ
  pub audio_buffer : List S
  pub voice_start_at : ℕ
  pub etd_predict : Option P

abbrev pub millis : ℕ → ℕ
millis ms = ms * 1_000_000

-- `u32` multiplication.
unfoldable pub new : {S P : Type 0} → ℕ → ℕ → VadSegmenter S P
new min_speech_ms silence_timeout_ms = record {
  state = idle;
  min_speech_ms = min_speech_ms;
  silence_timeout_ms = silence_timeout_ms;
  extended_silence_timeout_ms = silence_timeout_ms * 3 % u32_mod;
  audio_buffer = [];
  voice_start_at = 0;
  etd_predict = none;
}

abbrev pub is_active : State → Bool
is_active idle = false
is_active speaking = true
is_active (trailing_silence t b) = true

module _ {S P : Type 0} where
  unfoldable pub set_extended_silence_timeout_ms : VadSegmenter S P → ℕ → VadSegmenter S P
  set_extended_silence_timeout_ms g ms = record g { extended_silence_timeout_ms = ms }

  unfoldable pub set_etd_predict : VadSegmenter S P → P → VadSegmenter S P
  set_etd_predict g p = record g { etd_predict = some p }

  unfoldable pub is_speaking : VadSegmenter S P → Bool
  is_speaking g = is_active g.state

  abbrev pub timeout_of : VadSegmenter S P → Bool → ℕ
  timeout_of g incomplete =
      millis (if incomplete then g.extended_silence_timeout_ms else g.silence_timeout_ms)

  unfoldable pub accumulated_audio : VadSegmenter S P → List S
  accumulated_audio g = g.audio_buffer

module _ {S F P : Type 0} where
  -- The end of a segment: `VoiceEnd` with its audio if the speech was long enough, else nothing.
  unfoldable pub finish :
      VadSegmenter S P → ℕ → Bool → Option F → VadSegmenter S P × List (SpeechEvent S F)
  finish g timestamp turn probability =
      let speech_dur = timestamp - g.voice_start_at in
      (
        record g { state = idle; audio_buffer = [] },
        if leb (millis g.min_speech_ms) speech_dur
            then voice_end timestamp g.audio_buffer speech_dur none (some turn) probability ∷ []
            else [],
      )

  abbrev pub wait_for_more : VadSegmenter S P → ℕ → Bool → VadSegmenter S P × List (SpeechEvent S F)
  wait_for_more g timestamp incomplete =
      (record g { state = trailing_silence timestamp incomplete }, [])

  pub onset :
      VadSegmenter S P → ℕ → Option (EarlyCutResult F) → VadSegmenter S P × List (SpeechEvent S F)
  unfolding finish
  onset g timestamp none = wait_for_more g timestamp false
  onset g timestamp (some r) =
      if r.prediction
      then finish g timestamp true (some r.probability)
      else wait_for_more g timestamp true

module _ {S F P : Type 0} (predict : P → List S → P × Option (EarlyCutResult F)) where
  -- Silence set in: the answer of the predictor, beside its new state.
  pub ask : Option P → List S → Option P × Option (EarlyCutResult F)
  ask none audio = (none, none)
  ask (some p) audio = let (p', answer) = predict p audio in (some p', answer)

  pub step_in :
      State → VadSegmenter S P → Bool → List S → ℕ → VadSegmenter S P × List (SpeechEvent S F)
  unfolding onset ask
  step_in idle g is_voice samples timestamp =
      if is_voice
      then (
        record g { voice_start_at = timestamp; audio_buffer = samples; state = speaking },
        voice_start timestamp ∷ [],
      )
      else (g, [])
  step_in speaking g is_voice samples timestamp =
      let audio = g.audio_buffer ++ samples in
      let (predictor, answer) = ask g.etd_predict audio in
      if is_voice
      then (record g { audio_buffer = audio }, [])
      else onset (record g { audio_buffer = audio; etd_predict = predictor }) timestamp answer
  step_in (trailing_silence silence_start incomplete) g is_voice samples timestamp =
      let audio = g.audio_buffer ++ samples in
      if is_voice
      then (record g { audio_buffer = audio; state = speaking }, [])
      else if leb (timeout_of g incomplete) (timestamp - silence_start)
      then finish (record g { audio_buffer = audio }) timestamp (not incomplete) none
      else (record g { audio_buffer = audio }, [])

  -- One frame of voice activity: the new state and the events.
  unfoldable pub feed :
      VadSegmenter S P → Bool → List S → ℕ → VadSegmenter S P × List (SpeechEvent S F)
  unfolding step_in
  feed g is_voice samples timestamp = step_in g.state g is_voice samples timestamp

-- ===== src/Speech/Worker.antt =====
-- crates/speech-capture/src/lib.rs: the body of `SpeechCapture::vad_worker` for one audio frame, with
-- the features `stt` and `end-of-turn`. The VAD and whisper are arguments; the end-of-turn detector
-- is one shared object, and its state is the one that the segmenter holds.
pub mod Delivery
use pixi_ai.Common.{
  ℕ, ◌-◌, Bool, true, false, not, ◌&&◌, Option, none, some, List, [], ◌∷◌, ◌++◌, leb, if◌then◌else◌,
  Text,
}
use pixi_ai.Speech.Segmenter.{
  EarlyCutResult, SpeechEvent, voice_start, transcript_interim, voice_end, vad_status, VadSegmenter,
  millis, is_speaking, accumulated_audio, feed,
}

pub data SttMode : Type 0 where
  disabled batch : SttMode
  streaming : ℕ → SttMode

pub record VadResult (F : Type 0) : Type 0 where
  pub probability : F
  pub is_voice : Bool

pub record AudioFrame (S : Type 0) : Type 0 where
  pub samples : List S
  pub timestamp : ℕ

-- The variables of the loop. `engine` is whether a whisper engine was made.
pub record Worker (S P V : Type 0) : Type 0 where
  pub vad : V
  pub seg : VadSegmenter S P
  pub last_interim_time : ℕ
  pub emit_vad_status : Bool
  pub engine : Bool
  pub stt_mode : SttMode

abbrev pub is_empty {ℓ} : {A : Type ℓ} → List A → Bool
is_empty [] = true
is_empty (x ∷ xs) = false

abbrev pub is_enabled : SttMode → Bool
is_enabled disabled = false
is_enabled batch = true
is_enabled (streaming n) = true

module _ {S F P V : Type 0} (predict : P → List S → P × Option (EarlyCutResult F))
    (process : V → List S → V × Option (VadResult F)) (transcribe : List S → Option Text) where
  abbrev pub interim_text : ℕ → Option Text → List (SpeechEvent S F)
  interim_text timestamp none = []
  interim_text timestamp (some text) =
      if is_empty text then [] else transcript_interim timestamp text ∷ []

  -- The interim transcription of streaming mode.
  interim_in : SttMode → Worker S P V → ℕ → Worker S P V × List (SpeechEvent S F)
  interim_in disabled w timestamp = (w, [])
  interim_in batch w timestamp = (w, [])
  interim_in (streaming interval) w timestamp =
      let audio = accumulated_audio w.seg in
      if w.engine && (is_speaking w.seg && leb (millis interval) (timestamp - w.last_interim_time))
      then (
        record w { last_interim_time = timestamp },
        if is_empty audio then [] else interim_text timestamp (transcribe audio),
      )
      else (w, [])

  unfoldable pub interim : Worker S P V → ℕ → Worker S P V × List (SpeechEvent S F)
  unfolding interim_in is_speaking accumulated_audio
  interim w timestamp = interim_in w.stt_mode w timestamp

  -- The detector's answer for a segment that ended without one.
  abbrev pub fill_answer :
      ℕ → List S → ℕ → Option Text → Option F → Option (EarlyCutResult F) → SpeechEvent S F
  fill_answer timestamp audio duration transcript probability none =
      voice_end timestamp audio duration transcript none probability
  fill_answer timestamp audio duration transcript probability (some r) =
      voice_end timestamp audio duration transcript (some r.prediction) (some r.probability)

  abbrev pub fill_with :
      Option P → ℕ → List S → ℕ → Option Text → Option F → Option P × SpeechEvent S F
  fill_with none timestamp audio duration transcript probability =
      (none, voice_end timestamp audio duration transcript none probability)
  fill_with (some p) timestamp audio duration transcript probability =
      let (p', answer) = predict p audio in
      (some p', fill_answer timestamp audio duration transcript probability answer)

  -- The batch fallback, for a `VoiceEnd` whose end-of-turn flag is not set.
  unfoldable pub fill_turn : Option P → SpeechEvent S F → Option P × SpeechEvent S F
  fill_turn p (voice_start t) = (p, voice_start t)
  fill_turn p (transcript_interim t text) = (p, transcript_interim t text)
  fill_turn p (vad_status t f b) = (p, vad_status t f b)
  fill_turn p (voice_end t audio d transcript (some b) f) =
      (p, voice_end t audio d transcript (some b) f)
  fill_turn p (voice_end t audio d transcript none f) = fill_with p t audio d transcript f

  -- The transcription of a `VoiceEnd`; the interim timer starts afresh after it.
  unfoldable pub attach : Worker S P V → SpeechEvent S F → Worker S P V × SpeechEvent S F
  attach w (voice_start t) = (w, voice_start t)
  attach w (transcript_interim t text) = (w, transcript_interim t text)
  attach w (vad_status t f b) = (w, vad_status t f b)
  attach w (voice_end t audio d transcript turn f) =
      if w.engine && is_enabled w.stt_mode
      then (record w { last_interim_time = 0 }, voice_end t audio d (transcribe audio) turn f)
      else (w, voice_end t audio d transcript turn f)

  -- One event of the segmenter on its way to the callback.
  unfoldable pub deliver : Worker S P V → SpeechEvent S F → Worker S P V × SpeechEvent S F
  unfolding fill_turn attach
  deliver w event =
      let (p, filled) = fill_turn w.seg.etd_predict event in
      attach (record w { seg = record (w.seg) { etd_predict = p } }) filled

  pub deliver_all : Worker S P V → List (SpeechEvent S F) → Worker S P V × List (SpeechEvent S F)
  unfolding deliver
  deliver_all w [] = (w, [])
  deliver_all w (event ∷ events) =
      let (w', event') = deliver w event in
      let (w'', rest) = deliver_all w' events in (w'', event' ∷ rest)

  abbrev pub after_vad :
      Worker S P V → AudioFrame S → VadResult F → Worker S P V × List (SpeechEvent S F)
  after_vad w frame r =
      let (w', partial) = interim w frame.timestamp in
      let (seg, events) = feed predict w'.seg r.is_voice frame.samples frame.timestamp in
      let (w'', delivered) = deliver_all (record w' { seg = seg }) events in
      (
        w'',
        (if w.emit_vad_status then vad_status frame.timestamp r.probability r.is_voice ∷ [] else [])
            ++ (partial ++ delivered),
      )

  -- The callbacks of one frame, in order; a frame that the VAD fails on gives none.
  unfoldable pub worker_step : Worker S P V → AudioFrame S → Worker S P V × List (SpeechEvent S F)
  unfolding interim deliver_all feed
  worker_step w frame =
      let (vad, result) = process w.vad frame.samples in
      let w' = record w { vad = vad } in
      elim result [ none ↦ (w', []) | some r ↦ after_vad w' frame r ]

-- ===== src/Speech/Tests.antt =====
-- The theorems about crates/speech-capture at concrete inputs.
use pixi_ai.Common.{ℕ, refl, true, false, Option, some, List, [], ◌∷◌, ◌++◌, Text, codes}
use pixi_ai.Speech.Segmenter.{idle, speaking, trailing_silence, EarlyCutResult, VadSegmenter, feed}
use pixi_ai.Speech.Segmenter.Contract.{Continues, feed-Continues}
use pixi_ai.Speech.Worker.{batch, VadResult, Worker, worker_step}
use pixi_ai.Speech.Worker.Delivery.{Told, worker_step-Told}

-- The turn is never complete.
abbrev predict : ℕ → List ℕ → ℕ × Option (EarlyCutResult ℕ)
predict p audio = (p, some (record { prediction = false; probability = 10 }))

-- Half a second of speech at least, 600 ms of silence.
abbrev quiet : VadSegmenter ℕ ℕ
quiet = record {
  state = idle;
  min_speech_ms = 500;
  silence_timeout_ms = 600;
  extended_silence_timeout_ms = 1800;
  audio_buffer = [];
  voice_start_at = 0;
  etd_predict = some 0;
}

abbrev talking : VadSegmenter ℕ ℕ
talking = record quiet { state = speaking; audio_buffer = 3 ∷ 4 ∷ []; voice_start_at = 100 }

abbrev pausing : VadSegmenter ℕ ℕ
pausing = record talking { state = trailing_silence 900 true }

feed-Continues_example :
    Continues talking 100
      ((3 ∷ 4 ∷ []) ++ (5 ∷ []))
      false
      900
      (feed predict talking false (5 ∷ []) 900)
feed-Continues_example =
    feed-Continues predict talking 100 (3 ∷ 4 ∷ []) false (5 ∷ []) 900 (refl, refl, refl)

abbrev process : ℕ → List ℕ → ℕ × Option (VadResult ℕ)
process v samples = (v, some (record { probability = 0; is_voice = false }))

abbrev transcribe : List ℕ → Option Text
transcribe audio = some (codes "hello")

abbrev worker : Worker ℕ ℕ ℕ
worker = record {
  vad = 0;
  seg = pausing;
  last_interim_time = 0;
  emit_vad_status = true;
  engine = true;
  stt_mode = batch;
}

worker_step-Told_example :
    Told predict process transcribe worker
      (record { samples = []; timestamp = 2700 })
      (worker_step predict process transcribe worker (record { samples = []; timestamp = 2700 })).1
worker_step-Told_example =
    worker_step-Told predict process transcribe worker (record { samples = []; timestamp = 2700 })
      refl

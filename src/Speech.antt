-- ===== src/Speech.antt =====
-- crates/speech-capture: voice activity to speech events.
pub mod Segmenter
pub mod Worker
mod Tests

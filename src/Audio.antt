-- ===== src/Audio.antt =====
-- crates/audio-capture: sound from a device as frames of 16 kHz mono samples.
pub mod Resample
pub mod Capture
mod Tests

-- ===== src/Video.antt =====
-- crates/video-decoder.
pub mod Dpb
pub mod Playback
pub mod Annexb
pub mod Samples
pub mod Types
pub mod Backend
pub mod Mp4
pub mod Software
mod SessionTests
mod Tests
mod SampleTests

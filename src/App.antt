-- ===== src/App.antt =====
-- crates/app: the application around the avatar.
pub mod AutoBlink
pub mod TrackerThread
pub mod Frame
pub mod Mascot
pub mod Rig
mod Tests
mod RigTests
mod FrameTests

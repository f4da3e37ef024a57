-- ===== src/Vrm.antt =====
-- crates/vrm: the skeleton of an avatar, its animation and its blend shapes.
pub mod F32
pub mod BoneName
pub mod Bone
pub mod BoneGroup
pub mod AnimationPlayer
pub mod BlendShape
pub mod LookAt
pub mod Tests

-- ===== src/App/Rig/Types.antt =====
-- crates/solver/src/types.rs, crates/app/src/state.rs and rig_config.rs: what the solvers find, and what it
-- is applied to.
use pixi_ai.Common.{Option, none}
use pixi_ai.Vrm.F32.{F32, zero_f}
use pixi_ai.Vrm.AnimationPlayer.{AnimationPlayer, Quats}
use pixi_ai.Vrm.Bone.{Glam, HumanoidBones}
use pixi_ai.Vrm.BlendShape.{BlendShapeGroup}
use pixi_ai.Vrm.LookAt.{LookAtApplyer}
use pixi_ai.App.AutoBlink.{BlinkMode}

pub record EulerAngles (F : Type 0) : Type 0 where
  pub x : F
  pub y : F
  pub z : F

pub record EyeValues (F : Type 0) : Type 0 where
  pub l : F
  pub r : F

pub record MouthShape (F : Type 0) : Type 0 where
  pub a : F
  pub i : F
  pub u : F
  pub e : F
  pub o : F

pub record RiggedFace (F : Type 0) : Type 0 where
  pub head : EulerAngles F
  pub eye : EyeValues F
  pub pupil_x : F
  pub pupil_y : F
  pub mouth : MouthShape F
  pub brow : F

-- A position has the three fields of angles.
pub record HipTransform (F : Type 0) : Type 0 where
  pub rotation : EulerAngles F
  pub position : EulerAngles F

pub record RiggedPose (F : Type 0) : Type 0 where
  pub hips : HipTransform F
  pub spine : EulerAngles F
  pub chest : EulerAngles F
  pub right_upper_arm : EulerAngles F
  pub right_lower_arm : EulerAngles F
  pub left_upper_arm : EulerAngles F
  pub left_lower_arm : EulerAngles F
  pub right_upper_leg : EulerAngles F
  pub right_lower_leg : EulerAngles F
  pub left_upper_leg : EulerAngles F
  pub left_lower_leg : EulerAngles F
  pub left_hand : EulerAngles F
  pub right_hand : EulerAngles F

pub record RiggedHand (F : Type 0) : Type 0 where
  pub wrist : EulerAngles F
  pub thumb_proximal : EulerAngles F
  pub thumb_intermediate : EulerAngles F
  pub thumb_distal : EulerAngles F
  pub index_proximal : EulerAngles F
  pub index_intermediate : EulerAngles F
  pub index_distal : EulerAngles F
  pub middle_proximal : EulerAngles F
  pub middle_intermediate : EulerAngles F
  pub middle_distal : EulerAngles F
  pub ring_proximal : EulerAngles F
  pub ring_intermediate : EulerAngles F
  pub ring_distal : EulerAngles F
  pub little_proximal : EulerAngles F
  pub little_intermediate : EulerAngles F
  pub little_distal : EulerAngles F

pub record RigState (F : Type 0) : Type 0 where
  pub face : Option (RiggedFace F)
  pub pose : Option (RiggedPose F)
  pub left_hand : Option (RiggedHand F)
  pub right_hand : Option (RiggedHand F)
  pub prev_look_x : F
  pub prev_look_y : F

pub record BoneConfig (F : Type 0) : Type 0 where
  pub dampener : F
  pub lerp_amount : F

pub record RigConfig (F : Type 0) : Type 0 where
  pub neck : BoneConfig F
  pub hips_rotation : BoneConfig F
  pub hips_position : BoneConfig F
  pub chest : BoneConfig F
  pub spine : BoneConfig F
  pub limbs : BoneConfig F
  pub eye_blink : F
  pub mouth_shape : F
  pub pupil : F

-- The parts of the application's state and of its model that the rig is applied to.
pub record RigTarget (F V Q M : Type 0) : Type 0 where
  pub rig : RigState F
  pub config : RigConfig F
  pub blink_mode : BlinkMode
  pub idle_animation : Option (AnimationPlayer F Q)
  pub bones : HumanoidBones V Q M
  pub blend_shapes : BlendShapeGroup F
  pub look_at : Option (LookAtApplyer F)

-- The arithmetic: f32, glam, and the quaternions of Euler angles.
pub record Rigging (F V Q M : Type 0) : Type 0 where
  pub f : F32 F
  pub g : Glam F V Q M
  pub mul_q : Q → Q → Q
  pub normalize : Q → Q
  pub from_euler : F → F → F → Q
  pub from_yaw_pitch : F → F → Q
  pub vec3 : F → F → F → V
  pub to_radians : F → F
  pub pi : F

module _ {F V Q M : Type 0} (r : Rigging F V Q M) where
  abbrev pub quats : Quats F Q
  quats = record {
    identity = (r.g).identity_q;
    mul_q = r.mul_q;
    normalize = r.normalize;
    slerp = (r.g).slerp;
  }

  abbrev pub to_quat_dampened : EulerAngles F → F → Q
  to_quat_dampened e d = r.from_euler ((r.f).mul e.x d) ((r.f).mul e.y d) ((r.f).mul e.z d)

module _ {F : Type 0} (f : F32 F) where
  -- `RigState::default`.
  abbrev pub no_rig : RigState F
  no_rig = record {
    face = none;
    pose = none;
    left_hand = none;
    right_hand = none;
    prev_look_x = zero_f f;
    prev_look_y = zero_f f;
  }

  abbrev pub bone_config : F → F → BoneConfig F
  bone_config d l = record { dampener = d; lerp_amount = l }

  -- `RigConfig::default`.
  abbrev pub default_config : RigConfig F
  default_config = record {
    neck = bone_config (f.ratio 7 10) (f.ratio 3 10);
    hips_rotation = bone_config (f.ratio 7 10) (f.ratio 3 10);
    hips_position = bone_config (f.ratio 1 1) (f.ratio 7 100);
    chest = bone_config (f.ratio 25 100) (f.ratio 3 10);
    spine = bone_config (f.ratio 45 100) (f.ratio 3 10);
    limbs = bone_config (f.ratio 1 1) (f.ratio 3 10);
    eye_blink = f.ratio 5 10;
    mouth_shape = f.ratio 5 10;
    pupil = f.ratio 4 10;
  }

-- ===== src/App/Rig/Body.antt =====
-- crates/app/src/update.rs: the body and the hands on the model.
use pixi_ai.Common.{Bool, false, ◌||◌, Option, none, some, List, [], ◌∷◌, ◌++◌}
use pixi_ai.Vrm.BoneName.{HumanoidBoneName, same_bone}
use pixi_ai.Vrm.BoneName
use pixi_ai.Vrm.F32.{zero_f, one_f}
use pixi_ai.Vrm.AnimationPlayer.{AnimationPlayer}
use pixi_ai.Vrm.Bone.{HumanoidBones}
use pixi_ai.Vrm.Bone.Pose.{set_rotation_interpolated, set_position_interpolated}
use pixi_ai.App.Rig.Types.{
  Rigging, RigTarget, RigState, RiggedPose, RiggedHand, EulerAngles, BoneConfig, to_quat_dampened,
}
use pixi_ai.App.Rig.Face.{blend_with_idle}

abbrev pub contains : List HumanoidBoneName → HumanoidBoneName → Bool
contains [] b = false
contains (c ∷ cs) b = same_bone c b || contains cs b

abbrev pub or_nothing : {A B : Type 0} → List B → Option A → List B
or_nothing bs none = []
or_nothing bs (some a) = bs

abbrev pub face_bones : List HumanoidBoneName
face_bones = BoneName.neck ∷ BoneName.left_eye ∷ BoneName.right_eye ∷ []

abbrev pub pose_bones : List HumanoidBoneName
pose_bones =
    BoneName.hips ∷ BoneName.spine ∷ BoneName.chest ∷ BoneName.right_upper_arm
    ∷ BoneName.right_lower_arm ∷ BoneName.left_upper_arm ∷ BoneName.left_lower_arm
    ∷ BoneName.right_upper_leg ∷ BoneName.right_lower_leg ∷ BoneName.left_upper_leg
    ∷ BoneName.left_lower_leg ∷ []

abbrev pub left_hand_bones : List HumanoidBoneName
left_hand_bones =
    BoneName.left_hand ∷ BoneName.left_thumb_proximal ∷ BoneName.left_thumb_intermediate
    ∷ BoneName.left_thumb_distal ∷ BoneName.left_index_proximal ∷ BoneName.left_index_intermediate
    ∷ BoneName.left_index_distal ∷ BoneName.left_middle_proximal ∷ BoneName.left_middle_intermediate
    ∷ BoneName.left_middle_distal ∷ BoneName.left_ring_proximal ∷ BoneName.left_ring_intermediate
    ∷ BoneName.left_ring_distal ∷ BoneName.left_little_proximal ∷ BoneName.left_little_intermediate
    ∷ BoneName.left_little_distal ∷ []

abbrev pub right_hand_bones : List HumanoidBoneName
right_hand_bones =
    BoneName.right_hand ∷ BoneName.right_thumb_proximal ∷ BoneName.right_thumb_intermediate
    ∷ BoneName.right_thumb_distal ∷ BoneName.right_index_proximal
    ∷ BoneName.right_index_intermediate ∷ BoneName.right_index_distal
    ∷ BoneName.right_middle_proximal ∷ BoneName.right_middle_intermediate
    ∷ BoneName.right_middle_distal ∷ BoneName.right_ring_proximal ∷ BoneName.right_ring_intermediate
    ∷ BoneName.right_ring_distal ∷ BoneName.right_little_proximal
    ∷ BoneName.right_little_intermediate ∷ BoneName.right_little_distal ∷ []

-- A set is the list of what is put into it.
abbrev pub collect_tracked_bones : {F : Type 0} → RigState F → List HumanoidBoneName
collect_tracked_bones rig =
    or_nothing face_bones rig.face
    ++ or_nothing pose_bones rig.pose
    ++ or_nothing left_hand_bones rig.left_hand
    ++ or_nothing right_hand_bones rig.right_hand

module _ {F : Type 0} where
  abbrev pub arms_of : RiggedPose F → List (HumanoidBoneName × EulerAngles F)
  arms_of pose =
      (BoneName.right_upper_arm, pose.right_upper_arm)
      ∷ (BoneName.right_lower_arm, pose.right_lower_arm)
      ∷ (BoneName.left_upper_arm, pose.left_upper_arm)
      ∷ (BoneName.left_lower_arm, pose.left_lower_arm)
      ∷ []

  abbrev pub legs_of : RiggedPose F → List (HumanoidBoneName × EulerAngles F)
  legs_of pose =
      (BoneName.right_upper_leg, pose.right_upper_leg)
      ∷ (BoneName.right_lower_leg, pose.right_lower_leg)
      ∷ (BoneName.left_upper_leg, pose.left_upper_leg)
      ∷ (BoneName.left_lower_leg, pose.left_lower_leg)
      ∷ []

  -- The mappings of `apply_hand_bones`, for either side.
  abbrev pub left_mappings : RiggedHand F → EulerAngles F → List (HumanoidBoneName × EulerAngles F)
  left_mappings hand wrist_combined =
      (BoneName.left_hand, wrist_combined)
      ∷ (BoneName.left_thumb_proximal, hand.thumb_proximal)
      ∷ (BoneName.left_thumb_intermediate, hand.thumb_intermediate)
      ∷ (BoneName.left_thumb_distal, hand.thumb_distal)
      ∷ (BoneName.left_index_proximal, hand.index_proximal)
      ∷ (BoneName.left_index_intermediate, hand.index_intermediate)
      ∷ (BoneName.left_index_distal, hand.index_distal)
      ∷ (BoneName.left_middle_proximal, hand.middle_proximal)
      ∷ (BoneName.left_middle_intermediate, hand.middle_intermediate)
      ∷ (BoneName.left_middle_distal, hand.middle_distal)
      ∷ (BoneName.left_ring_proximal, hand.ring_proximal)
      ∷ (BoneName.left_ring_intermediate, hand.ring_intermediate)
      ∷ (BoneName.left_ring_distal, hand.ring_distal)
      ∷ (BoneName.left_little_proximal, hand.little_proximal)
      ∷ (BoneName.left_little_intermediate, hand.little_intermediate)
      ∷ (BoneName.left_little_distal, hand.little_distal)
      ∷ []

  abbrev pub right_mappings : RiggedHand F → EulerAngles F → List (HumanoidBoneName × EulerAngles F)
  right_mappings hand wrist_combined =
      (BoneName.right_hand, wrist_combined)
      ∷ (BoneName.right_thumb_proximal, hand.thumb_proximal)
      ∷ (BoneName.right_thumb_intermediate, hand.thumb_intermediate)
      ∷ (BoneName.right_thumb_distal, hand.thumb_distal)
      ∷ (BoneName.right_index_proximal, hand.index_proximal)
      ∷ (BoneName.right_index_intermediate, hand.index_intermediate)
      ∷ (BoneName.right_index_distal, hand.index_distal)
      ∷ (BoneName.right_middle_proximal, hand.middle_proximal)
      ∷ (BoneName.right_middle_intermediate, hand.middle_intermediate)
      ∷ (BoneName.right_middle_distal, hand.middle_distal)
      ∷ (BoneName.right_ring_proximal, hand.ring_proximal)
      ∷ (BoneName.right_ring_intermediate, hand.ring_intermediate)
      ∷ (BoneName.right_ring_distal, hand.ring_distal)
      ∷ (BoneName.right_little_proximal, hand.little_proximal)
      ∷ (BoneName.right_little_intermediate, hand.little_intermediate)
      ∷ (BoneName.right_little_distal, hand.little_distal)
      ∷ []

module _ {F V Q M : Type 0} (r : Rigging F V Q M)
    (idle : Option (List (HumanoidBoneName × Q))) where
  -- One bone after the other, each blended with the idle pose.
  abbrev pub set_bones :
      Option (AnimationPlayer F Q)
      → BoneConfig F
      → List (HumanoidBoneName × EulerAngles F)
      → HumanoidBones V Q M
      → HumanoidBones V Q M
  set_bones anim cfg [] h = h
  set_bones anim cfg ((bone, euler) ∷ rest) h = set_bones anim cfg rest (
      set_rotation_interpolated r.g bone
        (blend_with_idle r (to_quat_dampened r euler cfg.dampener) bone idle anim) cfg.lerp_amount
        h)

  abbrev pub hip_position : RiggedPose F → V
  hip_position pose =
      let p = (pose.hips).position in
      r.vec3 ((r.f).neg p.x) ((r.f).add p.y (one_f r.f)) ((r.f).neg p.z)

  abbrev pub apply_pose_of : Option (RiggedPose F) → RigTarget F V Q M → RigTarget F V Q M
  apply_pose_of none s = s
  apply_pose_of (some pose) s =
      let cfg = s.config in
      let anim = s.idle_animation in
      record s {
        bones =
            set_position_interpolated r.g BoneName.hips (hip_position pose)
              (cfg.hips_position).dampener (cfg.hips_position).lerp_amount
              (set_bones anim cfg.limbs (legs_of pose) (
                set_bones anim cfg.limbs (arms_of pose) (
                  set_bones anim cfg.chest ((BoneName.chest, pose.chest) ∷ []) (
                    set_bones anim cfg.spine ((BoneName.spine, pose.spine) ∷ []) (
                      set_bones anim cfg.hips_rotation ((BoneName.hips, (pose.hips).rotation) ∷ [])
                        s.bones)))));
      }

  abbrev pub apply_pose : RigTarget F V Q M → RigTarget F V Q M
  apply_pose s = apply_pose_of (s.rig).pose s

  -- The z of the wrist is the pose's, or 0.0.
  abbrev pub wrist_z : (RiggedPose F → EulerAngles F) → Option (RiggedPose F) → F
  wrist_z hand none = zero_f r.f
  wrist_z hand (some pose) = (hand pose).z

  abbrev pub combined : RiggedHand F → F → EulerAngles F
  combined hand z = record { x = (hand.wrist).x; y = (hand.wrist).y; z = z }

  abbrev pub apply_left_of : Option (RiggedHand F) → RigTarget F V Q M → RigTarget F V Q M
  apply_left_of none s = s
  apply_left_of (some hand) s =
      let z = wrist_z (λ p. p.left_hand) (s.rig).pose in
      record s {
        bones =
            set_bones s.idle_animation (s.config).limbs (left_mappings hand (combined hand z))
              s.bones;
      }

  abbrev pub apply_right_of : Option (RiggedHand F) → RigTarget F V Q M → RigTarget F V Q M
  apply_right_of none s = s
  apply_right_of (some hand) s =
      let z = wrist_z (λ p. p.right_hand) (s.rig).pose in
      record s {
        bones =
            set_bones s.idle_animation (s.config).limbs (right_mappings hand (combined hand z))
              s.bones;
      }

  abbrev pub apply_left_hand : RigTarget F V Q M → RigTarget F V Q M
  apply_left_hand s = apply_left_of (s.rig).left_hand s

  abbrev pub apply_right_hand : RigTarget F V Q M → RigTarget F V Q M
  apply_right_hand s = apply_right_of (s.rig).right_hand s

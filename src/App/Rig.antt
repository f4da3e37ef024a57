-- ===== src/App/Rig.antt =====
-- crates/app/src/update.rs: apply_rig_to_model, from what the solvers found to bones and blend shapes.
-- The types are those of crates/solver/src/types.rs and of state.rs and rig_config.rs of crates/app. A panic
-- while the idle animation is sampled is `none`. The skins, meshes and materials of the model are left out.
pub mod Types
pub mod Face
pub mod Body
pub mod Tracked
pub mod Resting
use pixi_ai.Common.{Bool, true, false, not, Option, none, some, List, [], ◌∷◌, if◌then◌else◌}
use pixi_ai.Common.Options.{◌>>=◌}
use pixi_ai.Vrm.BoneName.{HumanoidBoneName}
use pixi_ai.Vrm.AnimationPlayer.{AnimationPlayer, sample}
use pixi_ai.Vrm.Bone.{HumanoidBones}
use pixi_ai.Vrm.Bone.Pose.{set_rotation}
use Types.{Rigging, RigState, RigTarget, quats}
use Face.{apply_face}
use Body.{apply_pose, apply_left_hand, apply_right_hand, collect_tracked_bones, contains}

module _ {F V Q M : Type 0} (r : Rigging F V Q M) where
  -- Bones that no tracking drives take the idle pose.
  abbrev pub apply_idle :
      List HumanoidBoneName
      → List (HumanoidBoneName × Q)
      → HumanoidBones V Q M
      → HumanoidBones V Q M
  apply_idle tracked [] h = h
  apply_idle tracked ((bone, rot) ∷ idle) h =
      apply_idle tracked idle (if contains tracked bone then h else set_rotation bone rot h)

  abbrev pub idle_pose :
      Option (AnimationPlayer F Q) → Option (Option (List (HumanoidBoneName × Q)))
  idle_pose none = some none
  idle_pose (some anim) =
      if anim.enabled then (sample r.f (quats r) anim >>= λ pose. some (some pose)) else some none

  abbrev pub apply_idle_pose :
      RigState F → Option (List (HumanoidBoneName × Q)) → HumanoidBones V Q M → HumanoidBones V Q M
  apply_idle_pose rig none h = h
  apply_idle_pose rig (some idle) h = apply_idle (collect_tracked_bones rig) idle h

  -- The rig on a target whose idle pose is known.
  abbrev pub apply_with :
      Option (List (HumanoidBoneName × Q)) → RigTarget F V Q M → RigTarget F V Q M
  apply_with idle s =
      let s1 = record s { bones = apply_idle_pose s.rig idle s.bones } in
      apply_right_hand r idle (apply_left_hand r idle (apply_pose r idle (apply_face r idle s1)))

  unfoldable pub apply_rig_to_model : RigTarget F V Q M → Option (RigTarget F V Q M)
  apply_rig_to_model s = idle_pose s.idle_animation >>= λ idle. some (apply_with idle s)

-- ===== src/App/RigTests.antt =====
-- The theorem about apply_rig_to_model of crates/app/src/update.rs at a concrete input.
use pixi_ai.Common.{ℕ, ◌+◌, ◌≡◌, refl, none, some, List, [], ◌∷◌, true, codes}
use pixi_ai.Common.Options.{◌>>=◌}
use pixi_ai.Vrm.BoneName.{hips}
use pixi_ai.Vrm.AnimationPlayer.{AnimationPlayer, default_weights, sample, binary_search, bisect}
use pixi_ai.Vrm.Bone.Pose.{set_rotation_interpolated}
use pixi_ai.Vrm.Tests.{thousandths, bones, faces, paths, times, rotations}
use pixi_ai.App.AutoBlink.{tracking}
use pixi_ai.App.Rig.{apply_rig_to_model}
use pixi_ai.App.Rig.Types.{Rigging, RigTarget, RiggedFace, EulerAngles, no_rig, default_config}
use pixi_ai.App.Rig.Tracked.{rested, turned}
use pixi_ai.App.Rig.Resting.{idle_rotation, apply_rig_to_model-rested}

abbrev pub rigging : Rigging ℕ ℕ ℕ (List ℕ)
rigging = record {
  f = thousandths;
  g = paths;
  mul_q = ◌+◌;
  normalize = λ a. a;
  from_euler = λ x y z. x + y + z;
  from_yaw_pitch = ◌+◌;
  vec3 = λ x y z. x + y + z;
  to_radians = λ a. a;
  pi = 3142;
}

-- One bone moves in the idle animation.
abbrev breathing : AnimationPlayer ℕ ℕ
breathing = record {
  clip = record {
    name = codes "idle";
    duration = 3000;
    channels = (record { bone = hips; times = times; rotations = rotations }) ∷ [];
  };
  time = 1000;
  speed = 1000;
  looping = true;
  weights = default_weights thousandths;
  enabled = true;
  vrm_bind_pose = (hips, 3) ∷ [];
}

abbrev pub angles : EulerAngles ℕ
angles = record { x = 1; y = 2; z = 3 }

abbrev pub looking : RiggedFace ℕ
looking = record {
  head = angles;
  eye = record { l = 900; r = 800 };
  pupil_x = 10;
  pupil_y = 20;
  mouth = record { a = 100; i = 0; u = 0; e = 0; o = 0 };
  brow = 0;
}

-- A face is tracked, and no body.
abbrev pub seen : RigTarget ℕ ℕ ℕ (List ℕ)
seen = record {
  rig = record (no_rig thousandths) { face = some looking };
  config = default_config thousandths;
  blink_mode = tracking;
  idle_animation = some breathing;
  bones = bones;
  blend_shapes = faces;
  look_at = none;
}

hips_rest : (apply_rig_to_model rigging seen >>= λ t. turned t.bones hips) ≡ some 23
unfolding apply_rig_to_model sample binary_search bisect set_rotation_interpolated
hips_rest = refl

apply_rig_to_model-rested_example :
    (apply_rig_to_model rigging seen >>= λ t. turned t.bones hips)
    ≡ rested (idle_rotation (some ((hips, 23) ∷ [])) hips) (turned seen.bones hips)
unfolding sample binary_search bisect
apply_rig_to_model-rested_example =
    apply_rig_to_model-rested rigging seen hips (some ((hips, 23) ∷ [])) refl refl

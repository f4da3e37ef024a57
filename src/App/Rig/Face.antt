-- ===== src/App/Rig/Face.antt =====
-- crates/app/src/update.rs: the face on the model, with stabilize_blink of crates/solver/src/face.rs.
use pixi_ai.Common.{not, ◌&&◌, Option, none, some, List, if◌then◌else◌}
use pixi_ai.Common.Keyed
use pixi_ai.Vrm.BoneName.{HumanoidBoneName, index, neck, left_eye, right_eye}
use pixi_ai.Vrm.F32.{F32, lt_f, le_f, zero_f, one_f}
use pixi_ai.Vrm.F32
use pixi_ai.Vrm.AnimationPlayer.{AnimationPlayer, tracking_weight}
use pixi_ai.Vrm.Bone.{HumanoidBones}
use pixi_ai.Vrm.Bone.Pose.{set_rotation_interpolated}
use pixi_ai.Vrm.BlendShape
use pixi_ai.Vrm.BlendShape.{BlendShapeGroup, BlendShapePreset, blink, a, i, u, e, o, set_preset}
use pixi_ai.Vrm.LookAt.{LookAtApplyer, apply}
use pixi_ai.App.AutoBlink.{BlinkMode, tracking, auto}
use pixi_ai.App.Rig.Types.{Rigging, RigTarget, RiggedFace, EyeValues, quats, to_quat_dampened}

module _ {F : Type 0} (f : F32 F) where
  abbrev pub lerp : F → F → F → F
  lerp from to t = f.add from (f.mul (f.sub to from) t)

  -- `clamp` of crates/solver.
  abbrev pub clamp_unit : F → F
  clamp_unit x = f.min_f (f.max_f x (zero_f f)) (one_f f)

  abbrev pub eyes : F → F → EyeValues F
  eyes l r = record { l = l; r = r }

  abbrev pub blend_eyes : F → F → EyeValues F
  blend_eyes l r =
      if lt_f f l r
      then eyes (lerp r l (f.ratio 95 100)) (lerp r l (f.ratio 5 100))
      else eyes (lerp r l (f.ratio 5 100)) (lerp r l (f.ratio 95 100))

  unfoldable pub stabilize_blink : EyeValues F → F → EyeValues F
  stabilize_blink eye head_y =
      let l = clamp_unit eye.l in
      let r = clamp_unit eye.r in
      let is_closing = lt_f f l (f.ratio 3 10) && lt_f f r (f.ratio 3 10) in
      let is_open = lt_f f (f.ratio 6 10) l && lt_f f (f.ratio 6 10) r in
      if lt_f f (f.ratio 5 10) head_y
      then eyes r r
      else (if lt_f f head_y (f.neg (f.ratio 5 10))
          then eyes l l
          else (if le_f f (f.ratio 8 10) (f.abs (f.sub l r)) && not is_closing && not is_open
              then eyes l r
              else blend_eyes l r))

  -- Half way from the new value to the one before.
  abbrev pub smoothed : F → F → F
  smoothed new_val prev_val = f.add new_val (f.mul (f.sub prev_val new_val) (f.ratio 5 10))

  abbrev pub closed : F → F
  closed openness = F32.clamp f (f.sub (one_f f) openness) (zero_f f) (one_f f)

  unfoldable pub apply_blink : BlinkMode → RiggedFace F → BlendShapeGroup F → BlendShapeGroup F
  unfolding stabilize_blink
  apply_blink auto face b = b
  apply_blink tracking face b =
      let prev = BlendShape.get f b blink in
      let stabilized =
        stabilize_blink
          (eyes (smoothed (closed (face.eye).l) prev) (smoothed (closed (face.eye).r) prev))
          (face.head).y in
      set_preset f blink stabilized.l b

  abbrev pub lerp_mouth : F → F → F
  lerp_mouth new_val prev_val = F32.clamp f (smoothed new_val prev_val) (zero_f f) (one_f f)

  -- The values before are all read first.
  abbrev pub apply_mouth : RiggedFace F → BlendShapeGroup F → BlendShapeGroup F
  apply_mouth face b = set_preset f o (lerp_mouth (face.mouth).o (BlendShape.get f b o)) (
      set_preset f e (lerp_mouth (face.mouth).e (BlendShape.get f b e)) (
        set_preset f u (lerp_mouth (face.mouth).u (BlendShape.get f b u)) (
          set_preset f i (lerp_mouth (face.mouth).i (BlendShape.get f b i))
            (set_preset f a (lerp_mouth (face.mouth).a (BlendShape.get f b a)) b))))

module _ {F V Q M : Type 0} (r : Rigging F V Q M) where
  abbrev pub idle_slerp : Q → Option Q → F → Q
  idle_slerp tracking_quat none tw = tracking_quat
  idle_slerp tracking_quat (some idle_quat) tw = (r.g).slerp idle_quat tracking_quat tw

  abbrev pub blend_with_idle :
      Q → HumanoidBoneName → Option (List (HumanoidBoneName × Q)) → Option (AnimationPlayer F Q) → Q
  blend_with_idle tracking_quat bone none anim = tracking_quat
  blend_with_idle tracking_quat bone (some idle) none = tracking_quat
  blend_with_idle tracking_quat bone (some idle) (some anim) =
      idle_slerp tracking_quat (Keyed.get index bone idle) (tracking_weight r.f (quats r) anim bone)

  abbrev pub turn_eyes :
      Option (LookAtApplyer F) → F → F → HumanoidBones V Q M → HumanoidBones V Q M
  turn_eyes none x y h = h
  turn_eyes (some look_at) x y h =
      let rad2deg = (r.f).div ((r.f).ratio 180 1) r.pi in
      let eye_quat =
        apply r.f r.to_radians r.from_yaw_pitch look_at
          (record { yaw = (r.f).mul y rad2deg; pitch = (r.f).mul x rad2deg }) in
      set_rotation_interpolated r.g right_eye eye_quat ((r.f).ratio 3 10)
        (set_rotation_interpolated r.g left_eye eye_quat ((r.f).ratio 3 10) h)

  abbrev pub apply_found_face :
      Option (List (HumanoidBoneName × Q)) → RiggedFace F → RigTarget F V Q M → RigTarget F V Q M
  apply_found_face idle face s =
      let cfg = s.config in
      let neck_quat =
        blend_with_idle (to_quat_dampened r face.head (cfg.neck).dampener) neck idle
          s.idle_animation in
      let look_x = lerp r.f (s.rig).prev_look_x face.pupil_y cfg.pupil in
      let look_y = lerp r.f (s.rig).prev_look_y face.pupil_x cfg.pupil in
      record s {
        blend_shapes = apply_mouth r.f face (apply_blink r.f s.blink_mode face s.blend_shapes);
        rig = record (s.rig) { prev_look_x = look_x; prev_look_y = look_y };
        bones =
            turn_eyes s.look_at look_x look_y
              (set_rotation_interpolated r.g neck neck_quat (cfg.neck).lerp_amount s.bones);
      }

  abbrev pub apply_face_of :
      Option (RiggedFace F)
      → Option (List (HumanoidBoneName × Q))
      → RigTarget F V Q M
      → RigTarget F V Q M
  apply_face_of none idle s = s
  apply_face_of (some face) idle s = apply_found_face idle face s

  abbrev pub apply_face :
      Option (List (HumanoidBoneName × Q)) → RigTarget F V Q M → RigTarget F V Q M
  apply_face idle s = apply_face_of (s.rig).face idle s

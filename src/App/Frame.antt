-- ===== src/App/Frame.antt =====
-- crates/app/src/update.rs: the part of update_frame in front of the physics and the drawing, and of app.rs
-- the keys that turn tracking and the idle animation on and off.
-- The solvers of crates/solver are the record `Solvers`; an instant is its number of nanoseconds. What is
-- left of a frame, with the physics of the hair, reads what is modelled here and changes none of it.
pub mod Toggles
pub mod Running
use pixi_ai.Common.{
  ℕ, Bool, true, false, not, ◌||◌, Option, none, some, List, [], ltb, if◌then◌else◌,
}
use pixi_ai.Common.Options.{◌>>=◌}
use pixi_ai.Vrm.F32.{F32}
use pixi_ai.Vrm.AnimationPlayer.{AnimationPlayer}
use pixi_ai.Vrm.AnimationPlayer
use pixi_ai.Vrm.Bone.{NodeTransform}
use pixi_ai.Vrm.Bone.Pose.{reset_to_bind_pose}
use pixi_ai.Vrm.BlendShape.{blink, set_preset}
use pixi_ai.App.AutoBlink.{AutoBlink, BlinkMode, tracking, auto, Floats, duration_since, update}
use pixi_ai.App.TrackerThread
use pixi_ai.App.TrackerThread.{TrackerThread}
use pixi_ai.App.Rig.{apply_rig_to_model}
use pixi_ai.App.Rig.Types.{
  Rigging, RigTarget, RigState, RiggedFace, RiggedPose, RiggedHand, quats, no_rig,
}

pub data Side : Type 0 where
  left right : Side

pub record VideoInfo : Type 0 where
  pub width : ℕ
  pub height : ℕ

pub record HolisticResult (L : Type 0) : Type 0 where
  pub face_landmarks : Option L
  pub pose_landmarks_3d : Option L
  pub pose_landmarks_2d : Option L
  pub left_hand_landmarks : Option L
  pub right_hand_landmarks : Option L

-- `centred` is the list of 33 points in the middle.
pub record Solvers (F L : Type 0) : Type 0 where
  pub face : L → VideoInfo → RiggedFace F
  pub pose : L → L → VideoInfo → RiggedPose F
  pub hand : L → Side → RiggedHand F
  pub is_empty : L → Bool
  pub centred : L

-- What the frame update works on; `I` are the images of the camera.
pub record FrameState (F V Q M I L : Type 0) : Type 0 where
  pub last_frame_time : ℕ
  pub last_camera_frame : Option I
  pub tracking_enabled : Bool
  pub tracker_thread : TrackerThread (I × VideoInfo) (HolisticResult L)
  pub last_tracking_result : Option (HolisticResult L)
  pub target : RigTarget F V Q M
  pub node_transforms : List (NodeTransform V Q)
  pub auto_blink : AutoBlink F
  pub rig_dirty : Bool

-- What a frame finds: the time, the time a little later, and the camera's image with its size.
pub record FrameInput (I : Type 0) : Type 0 where
  pub now : ℕ
  pub later : ℕ
  pub frame : I
  pub video : VideoInfo

abbrev pub target_frame_duration : ℕ
target_frame_duration = 16_000_000

abbrev pub is_some : {A : Type 0} → Option A → Bool
is_some none = false
is_some (some a) = true

abbrev pub is_auto : BlinkMode → Bool
is_auto tracking = false
is_auto auto = true

abbrev pub newer : {A : Type 0} → Bool → Option A → Option A → Option A
newer enabled none old = old
newer enabled (some r) old = if enabled then some r else old

module _ {F L : Type 0} (so : Solvers F L) (video : VideoInfo) where
  abbrev pub points_2d : Option L → L
  points_2d none = so.centred
  points_2d (some l) = if so.is_empty l then so.centred else l

  abbrev pub solve_face : Option L → RigState F → RigState F
  solve_face none rig = rig
  solve_face (some l) rig = record rig { face = some (so.face l video) }

  abbrev pub solve_pose : Option L → Option L → RigState F → RigState F
  solve_pose none l2 rig = rig
  solve_pose (some l) l2 rig = record rig { pose = some (so.pose l (points_2d l2) video) }

  -- The camera's image is mirrored: the right hand's landmarks are those of the left hand.
  abbrev pub solve_left : Option L → RigState F → RigState F
  solve_left none rig = rig
  solve_left (some l) rig = record rig { left_hand = some (so.hand l left) }

  abbrev pub solve_right : Option L → RigState F → RigState F
  solve_right none rig = rig
  solve_right (some l) rig = record rig { right_hand = some (so.hand l right) }

  -- The rig, and whether it has changed.
  abbrev pub solve : Option (HolisticResult L) → RigState F → RigState F × Bool
  solve none rig = (rig, false)
  solve (some res) rig = (
    solve_right res.left_hand_landmarks (
        solve_left res.right_hand_landmarks (
          solve_pose res.pose_landmarks_3d res.pose_landmarks_2d
            (solve_face res.face_landmarks rig))),
    is_some res.face_landmarks
        || is_some res.pose_landmarks_3d
        || is_some res.right_hand_landmarks
        || is_some res.left_hand_landmarks,
  )

module _ {F V Q M I L : Type 0} (r : Rigging F V Q M) (fl : Floats F) (so : Solvers F L)
    (detect : I × VideoInfo → Bool → Option (HolisticResult L)) where
  -- Steps 1 and 2: the frame to the tracker's thread, and a result from it, which counts if tracking is on.
  abbrev pub track : FrameInput I → FrameState F V Q M I L → FrameState F V Q M I L
  track i s =
      let t0 = s.tracker_thread in
      let sent =
        if s.tracking_enabled
        then (TrackerThread.step detect (t0, []) (TrackerThread.send_frame (i.frame, i.video))).0
        else t0 in
      record s {
        last_camera_frame = some i.frame;
        tracker_thread = (TrackerThread.step detect (sent, []) TrackerThread.try_recv_result).0;
        last_tracking_result = newer s.tracking_enabled sent.result s.last_tracking_result;
      }

  abbrev pub blink_step : FrameInput I → FrameState F V Q M I L → FrameState F V Q M I L
  blink_step i s =
      let b = update fl i.now i.later s.auto_blink in
      if is_auto (s.target).blink_mode
      then record s {
        auto_blink = b;
        target = record (s.target) {
          blend_shapes = set_preset r.f blink b.value (s.target).blend_shapes;
        };
      }
      else s

  abbrev pub advance : F → Option (AnimationPlayer F Q) → Option (AnimationPlayer F Q)
  advance dt none = none
  advance dt (some anim) = some (AnimationPlayer.update r.f (quats r) dt anim)

  -- The rig on the model, if anything of it may have changed.
  abbrev pub apply_step : Bool → FrameState F V Q M I L → Option (FrameState F V Q M I L)
  apply_step rig_changed s =
      if rig_changed || s.rig_dirty || is_some (s.target).idle_animation
      then (apply_rig_to_model r s.target >>= λ t.
          some (record s { target = t; rig_dirty = false }))
      else some s

  -- A frame that is due; a panic is `none`.
  unfoldable pub due_frame : FrameInput I → FrameState F V Q M I L → Option (FrameState F V Q M I L)
  due_frame i s =
      let dt = fl.as_secs_f32 (duration_since i.now s.last_frame_time) in
      let s1 = track i (record s { last_frame_time = i.now }) in
      let (rig, changed) = solve so i.video s1.last_tracking_result (s1.target).rig in
      let s2 = blink_step i (record s1 { target = record (s1.target) { rig = rig } }) in
      apply_step (changed || is_auto (s2.target).blink_mode) (record s2 {
        target = record (s2.target) { idle_animation = advance dt (s2.target).idle_animation };
      })

  -- A frame less than 16 ms after the last is skipped.
  unfoldable pub update_frame :
      FrameInput I → FrameState F V Q M I L → Option (FrameState F V Q M I L)
  unfolding due_frame
  update_frame i s =
      if ltb (duration_since i.now s.last_frame_time) target_frame_duration
      then some s
      else due_frame i s

module _ {F V Q M I L : Type 0} (f : F32 F) where
  abbrev pub reset_bones : FrameState F V Q M I L → FrameState F V Q M I L
  reset_bones s = record s {
    target = record (s.target) { bones = reset_to_bind_pose s.node_transforms (s.target).bones };
    rig_dirty = true;
  }

  -- Key T.
  unfoldable pub toggle_tracking : FrameState F V Q M I L → FrameState F V Q M I L
  toggle_tracking s =
      if s.tracking_enabled
      then reset_bones
          (record s { tracking_enabled = false; target = record (s.target) { rig = no_rig f } })
      else record s { tracking_enabled = true }

  abbrev pub toggle_idle_of :
      Option (AnimationPlayer F Q) → FrameState F V Q M I L → FrameState F V Q M I L
  toggle_idle_of none s = s
  toggle_idle_of (some anim) s =
      let s1 = record s {
        target = record (s.target) {
          idle_animation = some (record anim { enabled = not anim.enabled });
        };
        rig_dirty = true;
      } in
      if anim.enabled then reset_bones s1 else s1

  -- Key I.
  unfoldable pub toggle_idle : FrameState F V Q M I L → FrameState F V Q M I L
  toggle_idle s = toggle_idle_of (s.target).idle_animation s

-- ===== src/App/Frame/Toggles.antt =====
-- crates/app/src/app.rs and update.rs: what the frame after key T does.
use pixi_ai.Common.{
  ◌≡◌, refl, ap, ◌∙◌, Bool, true, false, ◌||◌, Option, none, some, List, ltb, if-true, if-false,
  if-both,
}
use pixi_ai.Common.Options.{◌>>=◌}
use pixi_ai.Vrm.BoneName.{HumanoidBoneName}
use pixi_ai.App.AutoBlink.{Floats, duration_since}
use pixi_ai.App.Rig.{idle_pose, apply_with, apply_rig_to_model}
use pixi_ai.App.Rig.Types.{Rigging, RigTarget, RigState, RiggedFace, RiggedPose, RiggedHand, no_rig}
use pixi_ai.App.Rig.Face.{apply_face_of}
use pixi_ai.App.Rig.Body.{apply_pose_of, apply_left_of, apply_right_of}
use pixi_ai.App.Frame.{
  VideoInfo, HolisticResult, Solvers, FrameState, FrameInput, target_frame_duration, is_some,
  is_auto, newer, solve_face, solve_pose, solve_left, solve_right, solve, track, blink_step,
  advance, apply_step, due_frame, update_frame, reset_bones, toggle_tracking,
}

newer-off : {A : Type 0} (b : Bool) (o old : Option A) → b ≡ false → newer b o old ≡ old
newer-off b none old e = refl
newer-off b (some r) old e = if-false b _ _ e

or_dirty : (a b c : Bool) → b ≡ true → (a || b || c) ≡ true
or_dirty true b c e = refl
or_dirty false true c e = refl
or_dirty false false c e = cc e

module _ {F V Q M : Type 0} (r : Rigging F V Q M)
    (idle : Option (List (HumanoidBoneName × Q))) where
  face_keeps :
      (o : Option (RiggedFace F)) (s : RigTarget F V Q M)
      → (apply_face_of r o idle s).rig.face ≡ s.rig.face
  face_keeps none s = refl
  face_keeps (some face) s = refl

  pose_keeps :
      (o : Option (RiggedPose F)) (s : RigTarget F V Q M)
      → (apply_pose_of r idle o s).rig.face ≡ s.rig.face
  pose_keeps none s = refl
  pose_keeps (some pose) s = refl

  left_keeps :
      (o : Option (RiggedHand F)) (s : RigTarget F V Q M)
      → (apply_left_of r idle o s).rig.face ≡ s.rig.face
  left_keeps none s = refl
  left_keeps (some hand) s = refl

  right_keeps :
      (o : Option (RiggedHand F)) (s : RigTarget F V Q M)
      → (apply_right_of r idle o s).rig.face ≡ s.rig.face
  right_keeps none s = refl
  right_keeps (some hand) s = refl

  -- Applying the rig leaves the face that was found.
  apply_with-face : (s : RigTarget F V Q M) → (apply_with r idle s).rig.face ≡ s.rig.face
  apply_with-face s = right_keeps _ _ ∙ left_keeps _ _ ∙ pose_keeps _ _ ∙ face_keeps _ _

module _ {F L : Type 0} (so : Solvers F L) (video : VideoInfo) where
  pose_solved :
      (o o2 : Option L) (rig : RigState F) → (solve_pose so video o o2 rig).face ≡ rig.face
  pose_solved none o2 rig = refl
  pose_solved (some l) o2 rig = refl

  left_solved : (o : Option L) (rig : RigState F) → (solve_left so video o rig).face ≡ rig.face
  left_solved none rig = refl
  left_solved (some l) rig = refl

  right_solved : (o : Option L) (rig : RigState F) → (solve_right so video o rig).face ≡ rig.face
  right_solved none rig = refl
  right_solved (some l) rig = refl

  -- A result with a face gives the face of the rig.
  solve-face :
      (res : HolisticResult L) (rig : RigState F) {l : L}
      → res.face_landmarks ≡ some l
      → (solve so video (some res) rig).0.face ≡ some (so.face l video)
  solve-face res rig e =
      right_solved res.left_hand_landmarks _
      ∙ left_solved res.right_hand_landmarks _
      ∙ pose_solved res.pose_landmarks_3d res.pose_landmarks_2d _
      ∙ ap (λ o. (solve_face so video o rig).face) e

-- The face of the rig after a step that may panic.
abbrev pub face_after :
    {F V Q M I L : Type 0} → Option (FrameState F V Q M I L) → Option (Option (RiggedFace F))
face_after o = o >>= λ t. some t.target.rig.face

module _ {F V Q M I L : Type 0} (r : Rigging F V Q M) (fl : Floats F) (so : Solvers F L)
    (detect : I × VideoInfo → Bool → Option (HolisticResult L)) where
  apply_step-face :
      (changed : Bool) (x : FrameState F V Q M I L) (idle : Option (List (HumanoidBoneName × Q)))
      → x.rig_dirty ≡ true
      → idle_pose r x.target.idle_animation ≡ some idle
      → face_after (apply_step r fl so detect changed x) ≡ some x.target.rig.face
  unfolding apply_rig_to_model
  apply_step-face changed x idle dirty e =
      ap face_after (
        if-true (changed || x.rig_dirty || is_some (x.target).idle_animation) _ _
          (or_dirty changed x.rig_dirty _ dirty))
      ∙ rw e (ap some (apply_with-face r idle x.target))

  pub blink_keeps :
      {X : Type 0} (look : FrameState F V Q M I L → X) (i : FrameInput I)
      (y : FrameState F V Q M I L)
      → ((b : _) (v : _)
          → look (record y { auto_blink = b; target = record (y.target) { blend_shapes = v } })
            ≡ look y)
      → look (blink_step r fl so detect i y) ≡ look y
  blink_keeps look i y same =
      if-both (λ z. look z ≡ look y) (is_auto (y.target).blink_mode) (same _ _) refl

  -- A due frame with tracking off solves the last result that there is.
  due_frame-face :
      (i : FrameInput I) (x : FrameState F V Q M I L) (res : HolisticResult L) (l : L)
      (idle : Option (List (HumanoidBoneName × Q)))
      → x.tracking_enabled ≡ false
      → x.last_tracking_result ≡ some res
      → res.face_landmarks ≡ some l
      → x.rig_dirty ≡ true
      → idle_pose r (
          advance r fl so detect
            (fl.as_secs_f32 (duration_since i.now x.last_frame_time))
            x.target.idle_animation)
        ≡ some idle
      → face_after (due_frame r fl so detect i x) ≡ some (some (so.face l i.video))
  unfolding due_frame
  due_frame-face i x res l idle off last has dirty e =
      let dt = fl.as_secs_f32 (duration_since i.now x.last_frame_time) in
      let s1 = track r fl so detect i (record x { last_frame_time = i.now }) in
      let seen : s1.last_tracking_result ≡ some res =
        newer-off x.tracking_enabled _ x.last_tracking_result off ∙ last in
      let solved = solve so i.video s1.last_tracking_result (s1.target).rig in
      let y : FrameState F V Q M I L = record s1 {
        target = record (s1.target) { rig = solved.0 };
      } in
      let s2 = blink_step r fl so detect i y in
      let face : solved.0.face ≡ some (so.face l i.video) =
        ap (λ o. (solve so i.video o (s1.target).rig).0.face) seen
        ∙ solve-face so i.video res (s1.target).rig has in
      apply_step-face (solved.1 || is_auto (s2.target).blink_mode)
        (record s2 {
          target = record (s2.target) {
            idle_animation = advance r fl so detect dt (s2.target).idle_animation;
          };
        })
        idle (blink_keeps (λ z. z.rig_dirty) i y (λ b v. refl) ∙ dirty)
        (ap (λ a. idle_pose r (advance r fl so detect dt a))
            (blink_keeps (λ z. z.target.idle_animation) i y (λ b v. refl))
          ∙ e)
      ∙ ap some (blink_keeps (λ z. z.target.rig.face) i y (λ b v. refl) ∙ face)

  -- Key T takes the rig away and the next frame puts the face back: where tracking was on, the last result
  -- had a face and the idle animation can be sampled, the first frame that is due after the key leaves the
  -- face that is solved from that old result, though tracking is off.
  pub toggle_tracking-stale :
      (i : FrameInput I) (s : FrameState F V Q M I L) (res : HolisticResult L) (l : L)
      (idle : Option (List (HumanoidBoneName × Q)))
      → s.tracking_enabled ≡ true
      → s.last_tracking_result ≡ some res
      → res.face_landmarks ≡ some l
      → ltb (duration_since i.now s.last_frame_time) target_frame_duration ≡ false
      → idle_pose r (
          advance r fl so detect
            (fl.as_secs_f32 (duration_since i.now s.last_frame_time))
            s.target.idle_animation)
        ≡ some idle
      → ((toggle_tracking r.f s).target.rig.face ≡ none)
        × (face_after (update_frame r fl so detect i (toggle_tracking r.f s))
            ≡ some (some (so.face l i.video)))
  unfolding update_frame toggle_tracking
  toggle_tracking-stale i s res l idle on last has due e =
      let off : FrameState F V Q M I L =
        reset_bones r.f (record s {
          tracking_enabled = false;
          target = record (s.target) { rig = no_rig r.f };
        }) in
      let toggled : toggle_tracking r.f s ≡ off = if-true s.tracking_enabled _ _ on in
      (
        ap (λ (x : FrameState F V Q M I L). x.target.rig.face) toggled,
        rw toggled (
            ap face_after (
              if-false (ltb (duration_since i.now s.last_frame_time) target_frame_duration) _ _ due)
            ∙ due_frame-face i off res l idle refl last has refl e),
      )

-- ===== src/App/Rig/Resting.antt =====
-- crates/app/src/update.rs: a bone that collect_tracked_bones does not name rests in the idle pose.
use pixi_ai.Common.{
  ◌≡◌, refl, sym, ap, ap₂, subst, ◌∙◌, inl, inr, Bool, true, false, ◌||◌, ◌==◌, Option, none, some,
  List, [], ◌∷◌, if◌then◌else◌, Bool-cases, if-false, if-true, if-both, ==_iff, arith,
}
use mathlib.Core.Option.{some-injective}
use pixi_ai.Common.Keyed
use pixi_ai.Common.Keyed.{get-modify, Distinct, insert-Distinct, get_same}
use pixi_ai.Common.Options.{◌>>=◌, Option-cases}
use pixi_ai.Vrm.BoneName.{HumanoidBoneName, index, same_bone}
use pixi_ai.Vrm.AnimationPlayer.{
  AnimationPlayer, Channel, add_sample, sample_channels, sample_rotation, sample,
}
use pixi_ai.Vrm.Bone.{HumanoidBones}
use pixi_ai.App.Rig.{apply_idle, idle_pose, apply_idle_pose, apply_rig_to_model}
use pixi_ai.App.Rig.Types.{Rigging, RigTarget, RigState, RiggedFace, RiggedPose, RiggedHand, quats}
use pixi_ai.App.Rig.Face.{apply_face, apply_face_of}
use pixi_ai.App.Rig.Body.{
  contains, or_nothing, face_bones, pose_bones, left_hand_bones, right_hand_bones,
  collect_tracked_bones, apply_pose, apply_pose_of, apply_left_hand, apply_left_of,
}
use pixi_ai.App.Rig.Tracked.{
  rested, turned, turned-set_rotation, turned-rest, contains-append, turned-apply_face,
  turned-apply_pose, turned-apply_left, turned-apply_right,
}

contains_same :
    (tracked : List HumanoidBoneName) (c b : HumanoidBoneName)
    → index c ≡ index b
    → contains tracked c ≡ contains tracked b
contains_same [] c b e = refl
contains_same (x ∷ xs) c b e = ap₂ ◌||◌ (ap (λ k. index x == k) e) (contains_same xs c b e)

posed :
    {A : Type 0} (b : Bool) (o : Option (List A)) {idle : List A}
    → (if b then (if b then o else some []) >>= (λ pose. some (some pose)) else some none)
      ≡ some (some idle)
    → o ≡ some idle
posed true none e = cc e
posed true (some pose) e = some-injective (some pose) (some _) e
posed false o e = absurd (ground arith)

-- The rotation of a bone in the idle pose, if there is one.
abbrev pub idle_rotation :
    {Q : Type 0} → Option (List (HumanoidBoneName × Q)) → HumanoidBoneName → Option Q
idle_rotation none b = none
idle_rotation (some idle) b = Keyed.get index b idle

module _ {F V Q M : Type 0} (r : Rigging F V Q M) where
  -- An idle pose with one rotation for each bone is taken by the bones that are not tracked.
  turned-apply_idle :
      (tracked : List HumanoidBoneName) (b : HumanoidBoneName) (idle : List (HumanoidBoneName × Q))
      (h : HumanoidBones V Q M)
      → contains tracked b ≡ false
      → Distinct index idle
      → turned (apply_idle r tracked idle h) b ≡ rested (Keyed.get index b idle) (turned h b)
  turned-apply_idle tracked b [] h free d = refl
  turned-apply_idle tracked b ((c, q) ∷ idle) h free (fresh, d) =
      turned-apply_idle tracked b idle _ free d ∙ elim (Bool-cases (same_bone c b)) [
        | inl e ↦
            let c_b : index c ≡ index b = (==_iff (index c) (index b)).0 e in
            ap₂ rested (get_same index b c idle c_b ∙ fresh) (
              ap (λ (k : HumanoidBones V Q M). turned k b)
                (if-false (contains tracked c) h _ (contains_same tracked c b c_b ∙ free))
              ∙ turned-rest c b q h e)
            ∙ sym (ap (λ o. rested o (turned h b)) (if-true (same_bone c b) (some q) _ e))
        | inr e ↦
            ap (rested (Keyed.get index b idle)) (
              if-both (λ (k : HumanoidBones V Q M). turned k b ≡ turned h b) (contains tracked c)
                refl (turned-set_rotation c b q h e))
            ∙ sym (ap (λ o. rested o (turned h b)) (if-false (same_bone c b) (some q) _ e))
      ]

  add_sample-Distinct :
      (p : AnimationPlayer F Q) (channel : Channel F Q) (delta : Option Q)
      (pose : List (HumanoidBoneName × Q))
      → Distinct index pose
      → Distinct index (add_sample r.f (quats r) p channel delta pose)
  add_sample-Distinct p channel none pose d = d
  add_sample-Distinct p channel (some x) pose d = insert-Distinct index channel.bone _ pose d

  sample_channels-Distinct :
      (p : AnimationPlayer F Q) (cs : List (Channel F Q)) (pose : List (HumanoidBoneName × Q))
      {idle : List (HumanoidBoneName × Q)}
      → Distinct index pose
      → sample_channels r.f (quats r) p cs pose ≡ some idle
      → Distinct index idle
  unfolding sample_channels
  sample_channels-Distinct p [] pose {idle} d e =
      subst (Distinct index) (some-injective pose idle e) d
  sample_channels-Distinct p (c ∷ cs) pose d e =
      elim (Option-cases (sample_rotation r.f (quats r) c.times c.rotations p.time)) [
        | inl k ↦ let none_some = rw k at e in cc none_some
        | inr (delta, k) ↦
            sample_channels-Distinct p cs (add_sample r.f (quats r) p c delta pose)
              (add_sample-Distinct p c delta pose d) (rw k at e)
      ]

  idle_pose-Distinct :
      (anim : Option (AnimationPlayer F Q)) {idle : List (HumanoidBoneName × Q)}
      → idle_pose r anim ≡ some (some idle)
      → Distinct index idle
  unfolding sample
  idle_pose-Distinct none e = cc
  idle_pose-Distinct (some anim) e =
      sample_channels-Distinct anim (anim.clip).channels [] tt
        (posed anim.enabled (sample_channels r.f (quats r) anim (anim.clip).channels []) e)

  turned-idle :
      (rig : RigState F) (b : HumanoidBoneName) (idle : Option (List (HumanoidBoneName × Q)))
      (anim : Option (AnimationPlayer F Q)) (h : HumanoidBones V Q M)
      → contains (collect_tracked_bones rig) b ≡ false
      → idle_pose r anim ≡ some idle
      → turned (apply_idle_pose r rig idle h) b ≡ rested (idle_rotation idle b) (turned h b)
  turned-idle rig b none anim h free e = refl
  turned-idle rig b (some idle) anim h free e =
      turned-apply_idle (collect_tracked_bones rig) b idle h free (idle_pose-Distinct anim e)

  keeps-rig :
      (o : Option (RiggedFace F)) (idle : Option (List (HumanoidBoneName × Q)))
      (s : RigTarget F V Q M)
      → ((apply_face_of r o idle s).rig.pose ≡ s.rig.pose)
        × ((apply_face_of r o idle s).rig.left_hand ≡ s.rig.left_hand)
        × ((apply_face_of r o idle s).rig.right_hand ≡ s.rig.right_hand)
  keeps-rig none idle s = (refl, refl, refl)
  keeps-rig (some face) idle s = (refl, refl, refl)

  keeps_pose :
      (o : Option (RiggedPose F)) (idle : Option (List (HumanoidBoneName × Q)))
      (s : RigTarget F V Q M)
      → (apply_pose_of r idle o s).rig ≡ s.rig
  keeps_pose none idle s = refl
  keeps_pose (some pose) idle s = refl

  keeps_left :
      (o : Option (RiggedHand F)) (idle : Option (List (HumanoidBoneName × Q)))
      (s : RigTarget F V Q M)
      → (apply_left_of r idle o s).rig ≡ s.rig
  keeps_left none idle s = refl
  keeps_left (some hand) idle s = refl

  -- Where the idle animation can be sampled, applying the rig succeeds, and a bone that tracking is not
  -- collected for takes its rotation in the idle pose, if the pose and the model have the bone, and
  -- otherwise keeps the rotation it had.
  pub apply_rig_to_model-rested :
      (s : RigTarget F V Q M) (b : HumanoidBoneName) (idle : Option (List (HumanoidBoneName × Q)))
      → idle_pose r s.idle_animation ≡ some idle
      → contains (collect_tracked_bones s.rig) b ≡ false
      → (apply_rig_to_model r s >>= λ t. turned t.bones b)
        ≡ rested (idle_rotation idle b) (turned s.bones b)
  unfolding apply_rig_to_model
  apply_rig_to_model-rested s b idle e free =
      let (l3, right) = contains-append _ (or_nothing right_hand_bones (s.rig).right_hand) b free in
      let (l2, left) = contains-append _ (or_nothing left_hand_bones (s.rig).left_hand) b l3 in
      let (face, pose) =
        contains-append (or_nothing face_bones (s.rig).face) (or_nothing pose_bones (s.rig).pose) b
          l2 in
      let s1 : RigTarget F V Q M = record s { bones = apply_idle_pose r s.rig idle s.bones } in
      let s2 = apply_face r idle s1 in
      let s3 = apply_pose r idle s2 in
      let s4 = apply_left_hand r idle s3 in
      let (k_pose, k_left, k_right) = keeps-rig (s.rig).face idle s1 in
      let k3 = keeps_pose (s2.rig).pose idle s2 in
      let k4 = keeps_left (s3.rig).left_hand idle s3 in
      rw e (
        turned-apply_right r b (s4.rig).right_hand idle s4 (
          ap (λ o. contains (or_nothing right_hand_bones o) b)
            (ap (λ (x : RigState F). x.right_hand) (k4 ∙ k3) ∙ k_right)
          ∙ right)
        ∙ turned-apply_left r b (s3.rig).left_hand idle s3 (
            ap (λ o. contains (or_nothing left_hand_bones o) b)
              (ap (λ (x : RigState F). x.left_hand) k3 ∙ k_left)
            ∙ left)
        ∙ turned-apply_pose r b (s2.rig).pose idle s2
            (ap (λ o. contains (or_nothing pose_bones o) b) k_pose ∙ pose)
        ∙ turned-apply_face r b (s.rig).face idle s1 face
        ∙ turned-idle s.rig b idle s.idle_animation s.bones free e)

-- ===== src/App/Rig/Tracked.antt =====
-- crates/app/src/update.rs: the bones that collect_tracked_bones names are those that the rig turns.
use pixi_ai.Common.{
  ◌≡◌, refl, ap, ◌∙◌, Bool, true, false, ◌||◌, Option, none, some, List, [], ◌∷◌, ◌++◌, map,
  if-false, if-true, if-both,
}
use mathlib.Core.Option
use mathlib.Core.Option.{some-injective}
use pixi_ai.Common.Keyed
use pixi_ai.Common.Keyed.{get-modify, Distinct, insert-Distinct, get_same}
use pixi_ai.Vrm.BoneName.{HumanoidBoneName, index, same_bone}
use pixi_ai.Vrm.BoneName
use pixi_ai.Vrm.AnimationPlayer.{AnimationPlayer}
use pixi_ai.Vrm.Bone.{Bone, HumanoidBones}
use pixi_ai.Vrm.Bone.Pose.{
  set_rotation, set_position, set_rotation_interpolated, set_position_interpolated,
}
use pixi_ai.Vrm.LookAt.{LookAtApplyer}
use pixi_ai.App.Rig.Types.{
  Rigging, RigTarget, RiggedFace, RiggedPose, RiggedHand, EulerAngles, BoneConfig,
}
use pixi_ai.App.Rig.Face.{turn_eyes, apply_face_of}
use pixi_ai.App.Rig.Body.{
  contains, or_nothing, face_bones, pose_bones, left_hand_bones, right_hand_bones, set_bones,
  arms_of, legs_of, left_mappings, right_mappings, apply_pose_of, apply_left_of, apply_right_of,
}

-- A bone that rests in a pose has its rotation; a bone without one is as before.
abbrev pub rested : {Q : Type 0} → Option Q → Option Q → Option Q
rested none old = old
rested (some q) none = none
rested (some q) (some x) = some q

module _ {V Q M : Type 0} where
  -- The rotation of a bone, if the model has it.
  abbrev pub turned : HumanoidBones V Q M → HumanoidBoneName → Option Q
  turned h b = Option.map (λ (x : Bone V Q M). x.local_rotation) (Keyed.get index b h.bones)

  local_rotation? : Option (Bone V Q M) → Option Q
  local_rotation? o = Option.map (λ (x : Bone V Q M). x.local_rotation) o

  pub turned-set_rotation :
      (c b : HumanoidBoneName) (q : Q) (h : HumanoidBones V Q M)
      → same_bone c b ≡ false
      → turned (set_rotation c q h) b ≡ turned h b
  unfolding local_rotation?
  turned-set_rotation c b q h e = ap local_rotation? (
      get-modify index (λ (x : Bone V Q M). record x { local_rotation = q }) c b h.bones
      ∙ if-false (same_bone c b) _ _ e)

  moved :
      (v : V) (o : Option (Bone V Q M))
      → local_rotation? (Option.map (λ (x : Bone V Q M). record x { local_position = v }) o)
        ≡ local_rotation? o
  unfolding local_rotation?
  moved v none = refl
  moved v (some x) = refl

  turned-set_position :
      (c b : HumanoidBoneName) (v : V) (h : HumanoidBones V Q M)
      → turned (set_position c v h) b ≡ turned h b
  unfolding local_rotation?
  turned-set_position c b v h =
      ap local_rotation?
        (get-modify index (λ (x : Bone V Q M). record x { local_position = v }) c b h.bones)
      ∙ if-both (λ o. local_rotation? o ≡ turned h b) (same_bone c b)
          (moved v (Keyed.get index b h.bones)) refl

  pub turned-rest :
      (c b : HumanoidBoneName) (q : Q) (h : HumanoidBones V Q M)
      → same_bone c b ≡ true
      → turned (set_rotation c q h) b ≡ rested (some q) (turned h b)
  unfolding local_rotation?
  turned-rest c b q h e =
      ap local_rotation? (
        get-modify index (λ (x : Bone V Q M). record x { local_rotation = q }) c b h.bones
        ∙ if-true (same_bone c b) _ _ e)
      ∙ laid (Keyed.get index b h.bones)
    where
      laid :
          (o : Option (Bone V Q M))
          → local_rotation? (Option.map (λ (x : Bone V Q M). record x { local_rotation = q }) o)
            ≡ rested (some q) (local_rotation? o)
      laid none = refl
      laid (some x) = refl

names : {A : Type 0} → List (HumanoidBoneName × A) → List HumanoidBoneName
names ms = map (λ m. m.0) ms

or-false : (a b : Bool) → (a || b) ≡ false → (a ≡ false) × (b ≡ false)
or-false true b e = cc
or-false false b e = (refl, e)

pub contains-append :
    (xs ys : List HumanoidBoneName) (b : HumanoidBoneName)
    → contains (xs ++ ys) b ≡ false
    → (contains xs b ≡ false) × (contains ys b ≡ false)
contains-append [] ys b e = (refl, e)
contains-append (x ∷ xs) ys b e =
    let (h, k) = or-false (same_bone x b) (contains (xs ++ ys) b) e in
    let (l, m) = contains-append xs ys b k in (rw h l, m)

module _ {F V Q M : Type 0} (r : Rigging F V Q M) (b : HumanoidBoneName) where
  turned-set_rotation_interpolated :
      (c : HumanoidBoneName) (q : Q) (l : F) (h : HumanoidBones V Q M)
      → same_bone c b ≡ false
      → turned (set_rotation_interpolated r.g c q l h) b ≡ turned h b
  unfolding set_rotation_interpolated
  turned-set_rotation_interpolated c q l h e = turned-set_rotation c b _ h e

  turned-set_bones :
      (idle : Option (List (HumanoidBoneName × Q))) (anim : Option (AnimationPlayer F Q))
      (cfg : BoneConfig F) (ms : List (HumanoidBoneName × EulerAngles F)) (h : HumanoidBones V Q M)
      → contains (names ms) b ≡ false
      → turned (set_bones r idle anim cfg ms h) b ≡ turned h b
  unfolding names
  turned-set_bones idle anim cfg [] h e = refl
  turned-set_bones idle anim cfg ((c, euler) ∷ ms) h e =
      let (here, later) = or-false (same_bone c b) (contains (names ms) b) e in
      turned-set_bones idle anim cfg ms _ later
      ∙ turned-set_rotation_interpolated c _ cfg.lerp_amount h here

  turned-turn_eyes :
      (look_at : Option (LookAtApplyer F)) (x y : F) (h : HumanoidBones V Q M)
      → contains face_bones b ≡ false
      → turned (turn_eyes r look_at x y h) b ≡ turned h b
  turned-turn_eyes none x y h e = refl
  turned-turn_eyes (some a) x y h e =
      let (_, e1) = or-false (same_bone BoneName.neck b) _ e in
      let (left, e2) = or-false (same_bone BoneName.left_eye b) _ e1 in
      let (right, _) = or-false (same_bone BoneName.right_eye b) _ e2 in
      turned-set_rotation_interpolated BoneName.right_eye _ _ _ right
      ∙ turned-set_rotation_interpolated BoneName.left_eye _ _ h left

  pub turned-apply_face :
      (o : Option (RiggedFace F)) (idle : Option (List (HumanoidBoneName × Q)))
      (s : RigTarget F V Q M)
      → contains (or_nothing face_bones o) b ≡ false
      → turned (apply_face_of r o idle s).bones b ≡ turned s.bones b
  turned-apply_face none idle s e = refl
  turned-apply_face (some face) idle s e =
      turned-turn_eyes s.look_at _ _ _ e
      ∙ turned-set_rotation_interpolated BoneName.neck _ _ s.bones
          (or-false (same_bone BoneName.neck b) _ e).0

  pub turned-apply_pose :
      (o : Option (RiggedPose F)) (idle : Option (List (HumanoidBoneName × Q)))
      (s : RigTarget F V Q M)
      → contains (or_nothing pose_bones o) b ≡ false
      → turned (apply_pose_of r idle o s).bones b ≡ turned s.bones b
  unfolding names set_position_interpolated
  turned-apply_pose none idle s e = refl
  turned-apply_pose (some pose) idle s e =
      let (hips, e1) = or-false (same_bone BoneName.hips b) _ e in
      let (spine, e2) = or-false (same_bone BoneName.spine b) _ e1 in
      let (chest, e3) = or-false (same_bone BoneName.chest b) _ e2 in
      let (arms, legs) = contains-append (names (arms_of pose)) (names (legs_of pose)) b e3 in
      let anim = s.idle_animation in
      let cfg = s.config in
      let h1 =
        set_bones r idle anim cfg.hips_rotation ((BoneName.hips, (pose.hips).rotation) ∷ [])
          s.bones in
      let h2 = set_bones r idle anim cfg.spine ((BoneName.spine, pose.spine) ∷ []) h1 in
      let h3 = set_bones r idle anim cfg.chest ((BoneName.chest, pose.chest) ∷ []) h2 in
      let h4 = set_bones r idle anim cfg.limbs (arms_of pose) h3 in
      let h5 = set_bones r idle anim cfg.limbs (legs_of pose) h4 in
      turned-set_position BoneName.hips b _ h5
      ∙ turned-set_bones idle anim cfg.limbs (legs_of pose) h4 legs
      ∙ turned-set_bones idle anim cfg.limbs (arms_of pose) h3 arms
      ∙ turned-set_bones idle anim cfg.chest ((BoneName.chest, pose.chest) ∷ []) h2 (only chest)
      ∙ turned-set_bones idle anim cfg.spine ((BoneName.spine, pose.spine) ∷ []) h1 (only spine)
      ∙ turned-set_bones idle anim cfg.hips_rotation ((BoneName.hips, (pose.hips).rotation) ∷ [])
          s.bones (only hips)
    where
      only : {x : Bool} → x ≡ false → (x || false) ≡ false
      only e = rw e refl

  pub turned-apply_left :
      (o : Option (RiggedHand F)) (idle : Option (List (HumanoidBoneName × Q)))
      (s : RigTarget F V Q M)
      → contains (or_nothing left_hand_bones o) b ≡ false
      → turned (apply_left_of r idle o s).bones b ≡ turned s.bones b
  unfolding names
  turned-apply_left none idle s e = refl
  turned-apply_left (some hand) idle s e =
      turned-set_bones idle s.idle_animation (s.config).limbs (left_mappings hand _) s.bones e

  pub turned-apply_right :
      (o : Option (RiggedHand F)) (idle : Option (List (HumanoidBoneName × Q)))
      (s : RigTarget F V Q M)
      → contains (or_nothing right_hand_bones o) b ≡ false
      → turned (apply_right_of r idle o s).bones b ≡ turned s.bones b
  unfolding names
  turned-apply_right none idle s e = refl
  turned-apply_right (some hand) idle s e =
      turned-set_bones idle s.idle_animation (s.config).limbs (right_mappings hand _) s.bones e

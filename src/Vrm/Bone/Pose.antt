-- ===== src/Vrm/Bone/Pose.antt =====
-- crates/vrm/src/bone.rs: setting bones, at once or on the way from where they were.
use pixi_ai.Common.{Option, none, some, List, [], ◌∷◌, get_elem?}
use pixi_ai.Common.Keyed
use pixi_ai.Vrm.BoneName.{HumanoidBoneName, index}
use pixi_ai.Vrm.Bone.{Bone, HumanoidBones, NodeTransform, Glam, unwrap_or}

abbrev pub insert_some :
    {A : Type 0}
    → HumanoidBoneName
    → Option A
    → List (HumanoidBoneName × A)
    → List (HumanoidBoneName × A)
insert_some name none m = m
insert_some name (some a) m = Keyed.insert index name a m

module _ {V Q : Type 0} where
  abbrev pub rotation_of : Option (NodeTransform V Q) → Option Q
  rotation_of none = none
  rotation_of (some nt) = some nt.rotation

  abbrev pub translation_of : Option (NodeTransform V Q) → Option V
  translation_of none = none
  translation_of (some nt) = some nt.translation

module _ {V Q M : Type 0} where
  abbrev pub get : HumanoidBones V Q M → HumanoidBoneName → Option (Bone V Q M)
  get h name = Keyed.get index name h.bones

  abbrev pub reset_bone : Option (NodeTransform V Q) → Bone V Q M → Bone V Q M
  reset_bone none b = b
  reset_bone (some nt) b = record b {
    local_rotation = nt.rotation;
    local_position = nt.translation;
  }

  module _ (nodes : List (NodeTransform V Q)) where
    abbrev pub reset_bones :
        List (HumanoidBoneName × Bone V Q M) → List (HumanoidBoneName × Bone V Q M)
    reset_bones [] = []
    reset_bones ((name, b) ∷ m) =
        (name, reset_bone (get_elem? nodes b.node_index) b) ∷ reset_bones m

    abbrev pub reset_rotations :
        List (HumanoidBoneName × Bone V Q M)
        → List (HumanoidBoneName × Q)
        → List (HumanoidBoneName × Q)
    reset_rotations [] m = m
    reset_rotations ((name, b) ∷ bs) m =
        reset_rotations bs (insert_some name (rotation_of (get_elem? nodes b.node_index)) m)

    abbrev pub reset_positions :
        List (HumanoidBoneName × Bone V Q M)
        → List (HumanoidBoneName × V)
        → List (HumanoidBoneName × V)
    reset_positions [] m = m
    reset_positions ((name, b) ∷ bs) m =
        reset_positions bs (insert_some name (translation_of (get_elem? nodes b.node_index)) m)

    abbrev pub reset_to_bind_pose : HumanoidBones V Q M → HumanoidBones V Q M
    reset_to_bind_pose h = record {
      bones = reset_bones h.bones;
      prev_rotations = reset_rotations h.bones h.prev_rotations;
      prev_positions = reset_positions h.bones h.prev_positions;
    }

  abbrev pub set_rotation : HumanoidBoneName → Q → HumanoidBones V Q M → HumanoidBones V Q M
  set_rotation name q h = record h {
    bones = Keyed.modify index (λ b. record b { local_rotation = q }) name h.bones;
  }

  abbrev pub set_position : HumanoidBoneName → V → HumanoidBones V Q M → HumanoidBones V Q M
  set_position name v h = record h {
    bones = Keyed.modify index (λ b. record b { local_position = v }) name h.bones;
  }

module _ {F V Q M : Type 0} (g : Glam F V Q M) where
  unfoldable pub set_position_interpolated :
      HumanoidBoneName → V → F → F → HumanoidBones V Q M → HumanoidBones V Q M
  set_position_interpolated name target dampener lerp_amount h =
      let prev = unwrap_or g.zero_v (Keyed.get index name h.prev_positions) in
      let interpolated = g.lerp prev (g.scale_v target dampener) lerp_amount in
      set_position name interpolated
        (record h { prev_positions = Keyed.insert index name interpolated h.prev_positions })

  unfoldable pub set_rotation_interpolated :
      HumanoidBoneName → Q → F → HumanoidBones V Q M → HumanoidBones V Q M
  set_rotation_interpolated name target lerp_amount h =
      let prev = unwrap_or g.identity_q (Keyed.get index name h.prev_rotations) in
      let interpolated = g.slerp prev target lerp_amount in
      set_rotation name interpolated
        (record h { prev_rotations = Keyed.insert index name interpolated h.prev_rotations })

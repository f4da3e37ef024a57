-- ===== src/Vrm/Bone.antt =====
-- crates/vrm/src/bone.rs: the bones of a humanoid and the matrices of its nodes.
-- The vectors, quaternions and matrices of glam, and f32, are the record `Glam`; what serde_json gives of
-- a value is the record `Json`. A `HashMap` is a list in the order in which it is walked.
pub mod Pose
pub mod Tree
pub mod Parents
pub mod Kinematics
use pixi_ai.Common.{
  ℕ, zero, suc, ◌+◌, Bool, true, false, Option, none, some, List, [], ◌∷◌, ◌++◌, ◌⊎◌, inl, inr, ltb,
  if◌then◌else◌, Text, codes, length, get_elem?, set, keep_if, replicate,
}
use pixi_ai.Common.Keyed
use pixi_ai.Common.Maps
use pixi_ai.Common.Options.{◌>>=◌}
use pixi_ai.Vrm.BoneName.{HumanoidBoneName, index, parse}

pub data VrmError : Type 0 where
  gltf_error missing_extension invalid_bone missing_data json_error : Text → VrmError

pub record Json (J : Type 0) : Type 0 where
  pub get : Text → J → Option J
  pub as_array : J → Option (List J)
  pub as_str : J → Option Text
  pub as_u64 : J → Option ℕ

pub record Glam (F V Q M : Type 0) : Type 0 where
  pub zero_v : V
  pub identity_q : Q
  pub identity_m : M
  pub scale_v : V → F → V
  pub lerp : V → V → F → V
  pub slerp : Q → Q → F → Q
  pub mul_m : M → M → M
  pub from_scale_rotation_translation : V → Q → V → M

pub record NodeTransform (V Q : Type 0) : Type 0 where
  pub translation : V
  pub rotation : Q
  pub scale : V
  pub children : List ℕ

pub record Bone (V Q M : Type 0) : Type 0 where
  pub node_index : ℕ
  pub local_rotation : Q
  pub local_position : V
  pub inverse_bind_matrix : M
  pub children : List ℕ

pub record HumanoidBones (V Q M : Type 0) : Type 0 where
  pub bones : List (HumanoidBoneName × Bone V Q M)
  pub prev_rotations : List (HumanoidBoneName × Q)
  pub prev_positions : List (HumanoidBoneName × V)

abbrev pub ok_or {ℓ} : {A : Type ℓ} → VrmError → Option A → VrmError ⊎ A
ok_or e none = inl e
ok_or e (some a) = inr a

infixl 5 ◌>>?◌
abbrev pub ◌>>?◌ {ℓ κ} :
    {A : Type ℓ} {B : Type κ} → VrmError ⊎ A → (A → VrmError ⊎ B) → VrmError ⊎ B
inl e >>? f = inl e
inr a >>? f = f a

abbrev pub unwrap_or {ℓ} : {A : Type ℓ} → A → Option A → A
unwrap_or d none = d
unwrap_or d (some a) = a

module _ {V Q M : Type 0} where
  abbrev pub rotations_of : List (HumanoidBoneName × Bone V Q M) → List (HumanoidBoneName × Q)
  rotations_of [] = []
  rotations_of ((name, b) ∷ m) = Keyed.insert index name b.local_rotation (rotations_of m)

  abbrev pub positions_of : List (HumanoidBoneName × Bone V Q M) → List (HumanoidBoneName × V)
  positions_of [] = []
  positions_of ((name, b) ∷ m) = Keyed.insert index name b.local_position (positions_of m)

module _ {F V Q M : Type 0} (g : Glam F V Q M) where
  abbrev pub bone_at : ℕ → Option (NodeTransform V Q) → Bone V Q M
  bone_at node_idx (some nt) = record {
    node_index = node_idx;
    local_rotation = nt.rotation;
    local_position = nt.translation;
    inverse_bind_matrix = g.identity_m;
    children = nt.children;
  }
  bone_at node_idx none = record {
    node_index = node_idx;
    local_rotation = g.identity_q;
    local_position = g.zero_v;
    inverse_bind_matrix = g.identity_m;
    children = [];
  }

  abbrev pub add_bone :
      List (NodeTransform V Q)
      → ℕ
      → Option HumanoidBoneName
      → List (HumanoidBoneName × Bone V Q M)
      → List (HumanoidBoneName × Bone V Q M)
  add_bone nodes node_idx none m = m
  add_bone nodes node_idx (some name) m =
      Keyed.insert index name (bone_at node_idx (get_elem? nodes node_idx)) m

  module _ {J : Type 0} (js : Json J) where
    abbrev pub bone_field : J → VrmError ⊎ Text
    bone_field entry =
        ok_or (missing_data (codes "bone name")) (js.get (codes "bone") entry >>= js.as_str)

    abbrev pub node_field : J → VrmError ⊎ ℕ
    node_field entry =
        ok_or (missing_data (codes "bone node index")) (js.get (codes "node") entry >>= js.as_u64)

    unfoldable pub bones_of :
        List (NodeTransform V Q)
        → List J
        → List (HumanoidBoneName × Bone V Q M)
        → VrmError ⊎ List (HumanoidBoneName × Bone V Q M)
    bones_of nodes [] m = inr m
    bones_of nodes (entry ∷ rest) m = bone_field entry >>? λ name. node_field entry >>? λ node_idx.
        bones_of nodes rest (add_bone nodes node_idx (parse name) m)

    unfoldable pub from_vrm_json : J → List (NodeTransform V Q) → VrmError ⊎ HumanoidBones V Q M
    unfolding bones_of
    from_vrm_json vrm_ext nodes =
        ok_or (missing_extension (codes "humanoid.humanBones"))
          (js.get (codes "humanoid") vrm_ext >>= js.get (codes "humanBones") >>= js.as_array)
        >>? λ human_bones. bones_of nodes human_bones [] >>? λ m.
            inr (record {
              bones = m;
              prev_rotations = rotations_of m;
              prev_positions = positions_of m;
            })

-- ===== src/Vrm/Bone/Tree.antt =====
-- crates/vrm/src/bone.rs: compute_joint_matrices, the matrices of the nodes from the roots down.
-- An index out of range, at which the code would panic, is `none`.
use pixi_ai.Common.{
  ℕ, zero, suc, ◌+◌, Bool, true, false, Option, none, some, List, [], ◌∷◌, ◌++◌, ltb, if◌then◌else◌,
  length, get_elem?, set, keep_if, replicate,
}
use pixi_ai.Common.Maps
use pixi_ai.Common.Options.{◌>>=◌}
use pixi_ai.Vrm.BoneName.{HumanoidBoneName}
use pixi_ai.Vrm.Bone.{Bone, HumanoidBones, NodeTransform, Glam, unwrap_or}

module _ {V Q M : Type 0} where
  abbrev pub bone_rotations : List (HumanoidBoneName × Bone V Q M) → List (ℕ × Q) → List (ℕ × Q)
  bone_rotations [] acc = acc
  bone_rotations ((name, b) ∷ m) acc =
      bone_rotations m (Maps.insert b.node_index b.local_rotation acc)

  abbrev pub bone_positions : List (HumanoidBoneName × Bone V Q M) → List (ℕ × V) → List (ℕ × V)
  bone_positions [] acc = acc
  bone_positions ((name, b) ∷ m) acc =
      bone_positions m (Maps.insert b.node_index b.local_position acc)

-- The children of a node that are nodes.
abbrev pub within : ℕ → List ℕ → List ℕ
within n children = keep_if (λ c. ltb c n) children

abbrev pub mark_children : ℕ → ℕ → List ℕ → List (Option ℕ) → List (Option ℕ)
mark_children n i [] parent_of = parent_of
mark_children n i (c ∷ cs) parent_of =
    mark_children n i cs (if ltb c n then set parent_of c (some i) else parent_of)

module _ {V Q : Type 0} where
  -- `i` is the index of the first node of the list.
  abbrev pub mark_parents : ℕ → ℕ → List (NodeTransform V Q) → List (Option ℕ) → List (Option ℕ)
  mark_parents n i [] parent_of = parent_of
  mark_parents n i (nt ∷ nodes) parent_of =
      mark_parents n (suc i) nodes (mark_children n i nt.children parent_of)

  abbrev pub parents : List (NodeTransform V Q) → List (Option ℕ)
  parents nodes = mark_parents (length nodes) 0 nodes (replicate (length nodes) none)

  -- The children that are still to be put into the queue.
  abbrev pub to_come : ℕ → List (NodeTransform V Q) → List Bool → ℕ
  to_come n [] computed = 0
  to_come n (nt ∷ rest) [] = 0
  to_come n (nt ∷ rest) (c ∷ cs) =
      (if c then 0 else length (within n nt.children)) + to_come n rest cs

-- The nodes with no parent, from index `i` on.
abbrev pub roots : ℕ → List (Option ℕ) → List ℕ
roots i [] = []
roots i (none ∷ ps) = i ∷ roots (suc i) ps
roots i (some p ∷ ps) = roots (suc i) ps

module _ {F V Q M : Type 0} (g : Glam F V Q M) where
  abbrev pub local_matrix : HumanoidBones V Q M → ℕ → NodeTransform V Q → M
  local_matrix h i nt =
      g.from_scale_rotation_translation nt.scale
        (unwrap_or nt.rotation (Maps.get i (bone_rotations h.bones [])))
        (unwrap_or nt.translation (Maps.get i (bone_positions h.bones [])))

  abbrev pub parent_matrix : List M → Option ℕ → Option M
  parent_matrix world none = some g.identity_m
  parent_matrix world (some p) = get_elem? world p

  module _ (h : HumanoidBones V Q M) (nodes : List (NodeTransform V Q)) (ps : List (Option ℕ)) where
    -- One node that is not computed yet, with the queue behind it.
    unfoldable pub visit : ℕ → List ℕ → List M → List Bool → Option (List ℕ × List M × List Bool)
    visit i queue world computed = get_elem? nodes i >>= λ nt.
        get_elem? ps i >>= parent_matrix world >>= λ m. some (
          queue ++ within (length nodes) nt.children,
          set world i (g.mul_m m (local_matrix h i nt)),
          set computed i true,
        )

    unfoldable pub bfs : ℕ → List ℕ → List M → List Bool → Option (List M)
    bfs zero queue world computed = none
    bfs (suc fuel) [] world computed = some world
    bfs (suc fuel) (i ∷ queue) world computed = get_elem? computed i >>= λ c. elim c [
      | true ↦ bfs fuel queue world computed
      | false ↦ visit i queue world computed >>= λ (q, w, cs). bfs fuel q w cs
    ]

  unfoldable pub compute_joint_matrices :
      HumanoidBones V Q M → List (NodeTransform V Q) → Option (List M)
  unfolding bfs visit
  compute_joint_matrices h nodes =
      let n = length nodes in
      let ps = parents nodes in
      let none_computed = replicate n false in
      let queue = roots 0 ps in
      bfs h nodes ps (suc (length queue + to_come n nodes none_computed)) queue
        (replicate n g.identity_m) none_computed

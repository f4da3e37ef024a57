-- ===== src/Vrm/Bone/Kinematics.antt =====
-- crates/vrm/src/bone.rs: what the matrices of compute_joint_matrices are, and what its loop keeps.
pub mod Visit
pub mod Paths
use pixi_ai.Common.{
  ℕ, zero, suc, ◌+◌, ◌<◌, ◌≤◌, ◌≡◌, refl, sym, ap, ap₂, subst, ◌∙◌, ◌≢◌, ◌⊎◌, inl, inr, Bool, true,
  false, Option, none, some, List, [], ◌∷◌, ◌++◌, if◌then◌else◌, Bool-cases, length, get_elem?, set,
  length-set, get_elem?-set_self, get_elem?-set_ne, get_elem?-in_bounds, lt_of_get_elem?, replicate,
  length-append, length-replicate, get_elem?-replicate, arith, ℕ_discrete,
}
use mathlib.Core.Option.{some-injective}
use pixi_ai.Common.Options.{◌>>=◌}
use pixi_ai.Vrm.Bone.{NodeTransform, HumanoidBones, Glam}
use pixi_ai.Vrm.Bone.Tree.{
  within, parents, roots, local_matrix, parent_matrix, visit, bfs, to_come, compute_joint_matrices,
}
use pixi_ai.Vrm.Bone.Parents.{
  Has, Has-append, Has-append_left, Has-append_right, Has-within, Child, IsForest, parents-length,
  parent-cases, Has-roots, Has-roots_sound,
}

module _ {F V Q M : Type 0} (g : Glam F V Q M) (h : HumanoidBones V Q M)
    (nodes : List (NodeTransform V Q)) where
  -- The matrix of a node: the product of the local matrices on the path from its root.
  pub data World : ℕ → M → Type 0 where
    root :
        {i : ℕ} (nt : NodeTransform V Q)
        → get_elem? nodes i ≡ some nt
        → ((p : ℕ) → ¬ (Child nodes p i))
        → World i (g.mul_m g.identity_m (local_matrix g h i nt))
    below :
        {i p : ℕ} {m : M} (nt : NodeTransform V Q)
        → get_elem? nodes i ≡ some nt
        → Child nodes p i
        → World p m
        → World i (g.mul_m m (local_matrix g h i nt))

  -- What holds of the queue, the matrices and the marks between two rounds.
  pub record Inv (queue : List ℕ) (world : List M) (computed : List Bool) : Type 0 where
    pub sized : length world ≡ length nodes
    pub marked : length computed ≡ length nodes
    pub right :
        (i : ℕ) (w : M) → get_elem? computed i ≡ some true → get_elem? world i ≡ some w → World i w
    pub ready :
        (i : ℕ)
        → Has i queue
        → (i < length nodes)
          × (((p : ℕ) → ¬ (Child nodes p i))
              ⊎ ((p : ℕ) × Child nodes p i × (get_elem? computed p ≡ some true)))
    pub root_due :
        (i : ℕ) → get_elem? computed i ≡ some false → ((p : ℕ) → ¬ (Child nodes p i)) → Has i queue
    pub child_due :
        (i p : ℕ)
        → get_elem? computed i ≡ some false
        → Child nodes p i
        → get_elem? computed p ≡ some true
        → Has i queue

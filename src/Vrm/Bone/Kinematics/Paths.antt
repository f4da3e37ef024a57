-- ===== src/Vrm/Bone/Kinematics/Paths.antt =====
-- crates/vrm/src/bone.rs: the matrices of compute_joint_matrices are products along the paths from roots.
use pixi_ai.Common.{
  ℕ, zero, suc, ◌+◌, ◌<◌, ◌≡◌, refl, sym, ap, ap₂, subst, ◌∙◌, ◌≢◌, inl, inr, Bool, true, false,
  some, List, [], ◌∷◌, ◌++◌, Bool-cases, length, get_elem?, set, get_elem?-in_bounds,
  lt_of_get_elem?, replicate, length-append, length-replicate, get_elem?-replicate, arith,
}
use mathlib.Core.Option.{some-injective}
use pixi_ai.Common.Options.{◌>>=◌}
use pixi_ai.Vrm.Bone.{NodeTransform, HumanoidBones, Glam}
use pixi_ai.Vrm.Bone.Tree.{
  within, parents, roots, local_matrix, bfs, to_come, compute_joint_matrices,
}
use pixi_ai.Vrm.Bone.Parents.{
  Has, IsForest, parents-length, parent-cases, Has-roots, Has-roots_sound,
}
use pixi_ai.Vrm.Bone.Kinematics.{World, root, below, Inv}
use pixi_ai.Vrm.Bone.Kinematics.Visit.{to_come-set, drop_head, visit_lem, visit-Inv}

module _ {F V Q M : Type 0} (g : Glam F V Q M) (h : HumanoidBones V Q M)
    (nodes : List (NodeTransform V Q)) where
  -- With a round for each node in the queue and each child to come the loop ends, with the invariant.
  bfs_lem :
      (fuel : ℕ) (queue : List ℕ) (world : List M) (computed : List Bool)
      → IsForest nodes
      → length queue + to_come (length nodes) nodes computed < fuel
      → Inv g h nodes queue world computed
      → (ws : List M) × (cs : List Bool) × (bfs g h nodes (parents nodes) fuel queue world computed
          ≡ some ws)
        × Inv g h nodes [] ws cs
  unfolding bfs
  bfs_lem zero queue world computed forest enough v = elim enough [ ]
  bfs_lem (suc fuel) [] world computed forest enough v = (world, computed, refl, v)
  bfs_lem (suc fuel) (i ∷ queue) world computed forest enough v =
      let (b, at_i) =
        get_elem?-in_bounds computed i (omega (arith, (v.ready i (inl refl)).0, v.marked)) in
      elim (Bool-cases b) [
        | inl e ↦
            let done : get_elem? computed i ≡ some true = at_i ∙ ap some e in
            rw done (
              bfs_lem fuel queue world computed forest (omega arith)
                (drop_head g h nodes i queue world computed done v))
        | inr e ↦
            let undone : get_elem? computed i ≡ some false = at_i ∙ ap some e in
            let (nt, x, found, wx, q) = visit_lem g h nodes i queue world computed forest v in
            rw (undone, q)
              (bfs_lem fuel (queue ++ within (length nodes) nt.children) (set world i x)
                (set computed i true) forest
                (omega (
                  arith,
                  length-append queue (within (length nodes) nt.children),
                  to_come-set (length nodes) i nodes computed found undone,
                ))
                (visit-Inv g h nodes i queue world computed forest undone found wx v))
      ]

  start-Inv :
      Inv g h nodes
        (roots 0 (parents nodes))
        (replicate (length nodes) g.identity_m)
        (replicate (length nodes) false)
  start-Inv = record {
    sized = length-replicate (length nodes) g.identity_m;
    marked = length-replicate (length nodes) false;
    right = λ i w c at_i. absurd (ground (arith, unmarked_at_start i c));
    ready = λ i k.
        let (m, e, at_m) = Has-roots_sound i 0 (parents nodes) k in
        let i_m : i ≡ m = omega arith in
        let bound : i < length nodes =
          omega (arith, lt_of_get_elem? (parents nodes) m at_m, parents-length nodes) in
        elim (parent-cases nodes i bound) [
          | inl (q, no_parent) ↦ (bound, inl no_parent)
          | inr (p, q, ch) ↦ absurd (ground (arith, ap (get_elem? (parents nodes)) i_m))
        ];
    root_due = λ i c no_parent. elim (parent-cases nodes i (in_nodes i c)) [
      | inl (q, no_child) ↦
          subst (λ j. Has j (roots 0 (parents nodes))) (omega arith)
            (Has-roots 0 i (parents nodes) q)
      | inr (p, q, ch) ↦ absurd (no_parent p ch)
    ];
    child_due = λ i p c ch done. absurd (ground (arith, unmarked_at_start p done));
  }
    where
      in_nodes :
          (i : ℕ) {b : Bool}
          → get_elem? (replicate (length nodes) false) i ≡ some b
          → i < length nodes
      in_nodes i e = omega (
        arith,
        lt_of_get_elem? (replicate (length nodes) false) i e,
        length-replicate (length nodes) false,
      )

      unmarked_at_start :
          (i : ℕ)
          → get_elem? (replicate (length nodes) false) i ≡ some true
          → get_elem? (replicate (length nodes) false) i ≡ some false
      unmarked_at_start i e = get_elem?-replicate (length nodes) false i (in_nodes i e)

  same_local :
      (i : ℕ) (nt nt' : NodeTransform V Q)
      → get_elem? nodes i ≡ some nt
      → get_elem? nodes i ≡ some nt'
      → local_matrix g h i nt ≡ local_matrix g h i nt'
  same_local i nt nt' e e' = ap (local_matrix g h i) (some-injective nt nt' (sym e ∙ e'))

  -- In a forest a node has one matrix.
  World-unique :
      {i : ℕ} {a b : M} → IsForest nodes → World g h nodes i a → World g h nodes i b → a ≡ b
  World-unique {i} forest (root nt e no_parent) (root nt' e' _) =
      ap (g.mul_m g.identity_m) (same_local i nt nt' e e')
  World-unique forest (root nt e no_parent) (below {p = p} nt' e' ch w) = absurd (no_parent p ch)
  World-unique forest (below {p = p} nt e ch w) (root nt' e' no_parent) = absurd (no_parent p ch)
  World-unique {i} forest (below {p = p} {m = m} nt e ch w) (below {p = q} {m = m'} nt' e' ch' w') =
      ap₂ g.mul_m
        (World-unique forest w (subst (λ k. World g h nodes k m') (forest q p i ch' ch) w'))
        (same_local i nt nt' e e')

  -- A node that is computed in the end has its matrix.
  computed-World :
      (ws : List M) (cs : List Bool) (i : ℕ) {m : M}
      → IsForest nodes
      → Inv g h nodes [] ws cs
      → World g h nodes i m
      → get_elem? cs i ≢ some false
      → i < length nodes
      → (get_elem? cs i ≡ some true) × (get_elem? ws i ≡ some m)
  computed-World ws cs i {m} forest v w not_left bound =
      let (b, at_i) = get_elem?-in_bounds cs i (omega (arith, v.marked)) in
      let (x, at_x) = get_elem?-in_bounds ws i (omega (arith, v.sized)) in
      elim (Bool-cases b) [
        | inl e ↦
            let done : get_elem? cs i ≡ some true = at_i ∙ ap some e in
            (done, at_x ∙ ap some (World-unique forest (v.right i x done at_x) w))
        | inr e ↦ absurd (not_left (at_i ∙ ap some e))
      ]

  end-World :
      (ws : List M) (cs : List Bool) {i : ℕ} {m : M}
      → IsForest nodes
      → Inv g h nodes [] ws cs
      → World g h nodes i m
      → (get_elem? cs i ≡ some true) × (get_elem? ws i ≡ some m)
  end-World ws cs {i} forest v (root nt e no_parent) =
      computed-World ws cs i forest v (root nt e no_parent) (λ c. v.root_due i c no_parent)
        (lt_of_get_elem? nodes i e)
  end-World ws cs {i} forest v (below {p = p} nt e ch w) =
      let (done, _) = end-World ws cs forest v w in
      computed-World ws cs i forest v (below nt e ch w) (λ c. v.child_due i p c ch done)
        (lt_of_get_elem? nodes i e)

  -- Where no node is a child of two, compute_joint_matrices returns, and gives each node below a root the
  -- product of the local matrices on the path from that root to the node.
  pub compute_joint_matrices-World :
      (i : ℕ) (m : M)
      → IsForest nodes
      → World g h nodes i m
      → (compute_joint_matrices g h nodes >>= λ ws. get_elem? ws i) ≡ some m
  unfolding compute_joint_matrices
  compute_joint_matrices-World i m forest w =
      let (ws, cs, q, v) =
        bfs_lem
          (suc (
            length (roots 0 (parents nodes))
            + to_come (length nodes) nodes (replicate (length nodes) false)))
          (roots 0 (parents nodes)) (replicate (length nodes) g.identity_m)
          (replicate (length nodes) false) forest (omega arith) start-Inv in
      rw q ((end-World ws cs forest v w).1)

-- ===== src/Vrm/Bone/Kinematics/Visit.antt =====
-- crates/vrm/src/bone.rs: one round of the loop of compute_joint_matrices.
use pixi_ai.Common.{
  ℕ, zero, suc, ◌+◌, ◌<◌, ◌≡◌, refl, sym, ap, subst, ◌∙◌, ◌≢◌, ◌⊎◌, inl, inr, Bool, true, false,
  some, List, [], ◌∷◌, ◌++◌, length, get_elem?, set, length-set, get_elem?-set_self,
  get_elem?-set_ne, get_elem?-in_bounds, lt_of_get_elem?, arith, ℕ_discrete,
}
use mathlib.Core.Option.{some-injective}
use pixi_ai.Vrm.Bone.{NodeTransform, HumanoidBones, Glam}
use pixi_ai.Vrm.Bone.Tree.{within, parents, local_matrix, visit, to_come}
use pixi_ai.Vrm.Bone.Parents.{
  Has, Has-append, Has-append_left, Has-append_right, Has-within, Child, IsForest, parent-cases,
}
use pixi_ai.Vrm.Bone.Kinematics.{World, root, below, Inv}

-- Computing one node takes its children out of those that are to come.
module _ {V Q : Type 0} where
  pub to_come-set :
      (n i : ℕ) (nodes : List (NodeTransform V Q)) (computed : List Bool) {nt : NodeTransform V Q}
      → get_elem? nodes i ≡ some nt
      → get_elem? computed i ≡ some false
      → to_come n nodes (set computed i true) + length (within n nt.children)
        ≡ to_come n nodes computed
  to_come-set n i [] computed e c = absurd (ground arith)
  to_come-set n i (nt ∷ nodes) [] e c = absurd (ground arith)
  to_come-set n zero (nt ∷ nodes) (b ∷ computed) {nt = found} e c =
      let k : length (within n nt.children) ≡ length (within n found.children) =
        ap (λ (m : NodeTransform V Q). length (within n m.children)) (some-injective nt found e) in
      rw (some-injective b false c) (omega (arith, k))
  to_come-set n (suc i) (nt ∷ nodes) (b ∷ computed) e c =
      omega (arith, to_come-set n i nodes computed e c)

-- One mark more.
marked_self :
    (cs : List Bool) (i : ℕ) {b : Bool}
    → get_elem? cs i ≡ some b
    → get_elem? (set cs i true) i ≡ some true
marked_self cs i e = get_elem?-set_self cs i true (lt_of_get_elem? cs i e)

marked_new :
    (cs : List Bool) (i j : ℕ)
    → get_elem? (set cs i true) j ≡ some true
    → (i ≡ j) ⊎ (get_elem? cs j ≡ some true)
marked_new cs i j e = elim (ℕ_discrete i j) [
  | yes i_j ↦ inl i_j
  | no i_j ↦ inr (sym (get_elem?-set_ne cs true i_j) ∙ e)
]

marked_still :
    (cs : List Bool) (i j : ℕ) {b : Bool}
    → get_elem? cs i ≡ some b
    → get_elem? cs j ≡ some true
    → get_elem? (set cs i true) j ≡ some true
marked_still cs i j at_i e = elim (ℕ_discrete i j) [
  | yes i_j ↦ subst (λ k. get_elem? (set cs i true) k ≡ some true) i_j (marked_self cs i at_i)
  | no i_j ↦ get_elem?-set_ne cs true i_j ∙ e
]

unmarked :
    (cs : List Bool) (i j : ℕ) {b : Bool}
    → get_elem? cs i ≡ some b
    → get_elem? (set cs i true) j ≡ some false
    → (i ≢ j) × (get_elem? cs j ≡ some false)
unmarked cs i j at_i e =
    let i_j : i ≢ j = λ q.
      ground
        (arith, subst (λ k. get_elem? (set cs i true) k ≡ some true) q (marked_self cs i at_i)) in
    (i_j, sym (get_elem?-set_ne cs true i_j) ∙ e)

module _ {F V Q M : Type 0} (g : Glam F V Q M) (h : HumanoidBones V Q M)
    (nodes : List (NodeTransform V Q)) where
  -- A node that is marked already is dropped from the queue.
  pub drop_head :
      (i : ℕ) (queue : List ℕ) (world : List M) (computed : List Bool)
      → get_elem? computed i ≡ some true
      → Inv g h nodes (i ∷ queue) world computed
      → Inv g h nodes queue world computed
  drop_head i queue world computed done v = record {
    sized = v.sized;
    marked = v.marked;
    right = v.right;
    ready = λ j k. v.ready j (inr k);
    root_due = λ j c r. elim (v.root_due j c r) [
      | inl e ↦ absurd (ground (arith, ap (get_elem? computed) e))
      | inr k ↦ k
    ];
    child_due = λ j p c ch d. elim (v.child_due j p c ch d) [
      | inl e ↦ absurd (ground (arith, ap (get_elem? computed) e))
      | inr k ↦ k
    ];
  }

  parent_done :
      (i p : ℕ) (computed : List Bool)
      → IsForest nodes
      → ((q : ℕ) → ¬ (Child nodes q i))
        ⊎ ((q : ℕ) × Child nodes q i × (get_elem? computed q ≡ some true))
      → Child nodes p i
      → get_elem? computed p ≡ some true
  parent_done i p computed forest (inl no_parent) ch = absurd (no_parent p ch)
  parent_done i p computed forest (inr (q, ch', done)) ch =
      subst (λ k. get_elem? computed k ≡ some true) (forest q p i ch' ch) done

  -- The matrix that a visit computes is that of the node.
  pub visit_lem :
      (i : ℕ) (queue : List ℕ) (world : List M) (computed : List Bool)
      → IsForest nodes
      → Inv g h nodes (i ∷ queue) world computed
      → (nt : NodeTransform V Q) × (x : M) × (get_elem? nodes i ≡ some nt)
        × World g h nodes i x
        × (visit g h nodes (parents nodes) i queue world computed
            ≡ some (queue ++ within (length nodes) nt.children, set world i x, set computed i true))
  unfolding visit
  visit_lem i queue world computed forest v =
      let (below_n, place) = v.ready i (inl refl) in
      let (nt, at_i) = get_elem?-in_bounds nodes i below_n in
      elim (parent-cases nodes i below_n) [
        | inl (q, no_parent) ↦ (
          nt,
          g.mul_m g.identity_m (local_matrix g h i nt),
          at_i,
          root nt at_i no_parent,
          rw (at_i, q) refl,
        )
        | inr (p, q, ch) ↦
            let done = parent_done i p computed forest place ch in
            let (m, at_p) =
              get_elem?-in_bounds world p
                (omega (arith, lt_of_get_elem? computed p done, v.marked, v.sized)) in
            (
              nt,
              g.mul_m m (local_matrix g h i nt),
              at_i,
              below nt at_i ch (v.right p m done at_p),
              rw (at_i, q, at_p) refl,
            )
      ]

  behind : {i j : ℕ} (queue : List ℕ) → i ≢ j → Has j (i ∷ queue) → Has j queue
  behind queue i_j (inl e) = absurd (i_j e)
  behind queue i_j (inr k) = k

  Has-Child :
      (i j : ℕ) (nt : NodeTransform V Q)
      → get_elem? nodes i ≡ some nt
      → Child nodes i j
      → Has j nt.children × (j < length nodes)
  Has-Child i j nt at_i (found, at_found, has, bound) = (
    subst (λ (m : NodeTransform V Q). Has j m.children)
        (some-injective found nt (sym at_found ∙ at_i)) has,
    bound,
  )

  pub visit-Inv :
      (i : ℕ) (queue : List ℕ) (world : List M) (computed : List Bool) {nt : NodeTransform V Q}
      {x : M}
      → IsForest nodes
      → get_elem? computed i ≡ some false
      → get_elem? nodes i ≡ some nt
      → World g h nodes i x
      → Inv g h nodes (i ∷ queue) world computed
      → Inv g h nodes
          (queue ++ within (length nodes) nt.children)
          (set world i x)
          (set computed i true)
  visit-Inv i queue world computed {nt} {x} forest undone at_i wx v = record {
    sized = length-set world i x ∙ v.sized;
    marked = length-set computed i true ∙ v.marked;
    right = λ j w done at_j. elim (ℕ_discrete i j) [
      | yes i_j ↦
          let e : x ≡ w = some-injective x w (
            sym (
              get_elem?-set_self world i x
                (omega (arith, lt_of_get_elem? computed i undone, v.marked, v.sized)))
            ∙ subst (λ k. get_elem? (set world i x) k ≡ some w) (sym i_j) at_j) in
          subst (λ k. World g h nodes k w) i_j (subst (World g h nodes i) e wx)
      | no i_j ↦
          v.right j w (sym (get_elem?-set_ne computed true i_j) ∙ done)
            (sym (get_elem?-set_ne world x i_j) ∙ at_j)
    ];
    ready = λ j k. elim (Has-append j queue (within (length nodes) nt.children) k) [
      | inl old ↦
          let (bound, place) = v.ready j (inr old) in
          (
            bound,
            elim place [
              | inl no_parent ↦ inl no_parent
              | inr (p, ch, done) ↦ inr (p, ch, marked_still computed i p undone done)
            ],
          )
      | inr new ↦
          let (has, bound) = (Has-within (length nodes) j nt.children).0 new in
          (bound, inr (i, (nt, at_i, has, bound), marked_self computed i undone))
    ];
    root_due = λ j c no_parent.
        let (i_j, c') = unmarked computed i j undone c in
        Has-append_left j queue (within (length nodes) nt.children)
          (behind queue i_j (v.root_due j c' no_parent));
    child_due = λ j p c ch done.
        let (i_j, c') = unmarked computed i j undone c in
        elim (marked_new computed i p done) [
          | inl i_p ↦ Has-append_right j queue (within (length nodes) nt.children) (
              (Has-within (length nodes) j nt.children).1
                (Has-Child i j nt at_i (subst (λ k. Child nodes k j) (sym i_p) ch)))
          | inr old ↦
              Has-append_left j queue (within (length nodes) nt.children)
                (behind queue i_j (v.child_due j p c' ch old))
        ];
  }

-- ===== src/Vrm/Tests.antt =====
-- The theorems about crates/vrm at concrete inputs.
use Prim.Native.Nat.{compare, min, max}
use pixi_ai.Common.{
  ℕ, zero, suc, ◌+◌, ◌-◌, ◌*◌, ◌/◌, ◌%◌, ◌==◌, ◌≡◌, refl, ◌∙◌, sym, subst, ◌↔◌, ◌⊎◌, inl, inr, some,
  List, [], ◌∷◌, ◌++◌, codes, get_elem?, arith,
}
use mathlib.Core.Option.{some-injective}
use pixi_ai.Common.Options.{◌>>=◌}
use pixi_ai.Vrm.F32.{F32, zero_f, one_f, clamp}
use pixi_ai.Vrm.BoneName.{left_upper_arm, hips}
use pixi_ai.Vrm.BoneName
use pixi_ai.Vrm.BoneName.Spelling.{spelling, parse_iff}
use pixi_ai.Vrm.Bone.{NodeTransform, HumanoidBones, Glam}
use pixi_ai.Vrm.Bone.Tree.{compute_joint_matrices}
use pixi_ai.Vrm.Bone.Parents.{Has, Child, IsForest, parent-cases}
use pixi_ai.Vrm.Bone.Kinematics.{World, root, below}
use pixi_ai.Vrm.Bone.Kinematics.Paths.{compute_joint_matrices-World}
use pixi_ai.Vrm.AnimationPlayer.{Quats, sample_rotation, binary_search, bisect}
use pixi_ai.Vrm.AnimationPlayer.Search.{IsAscending}
use pixi_ai.Vrm.AnimationPlayer.Sampling.{Sampled, sample_rotation-Sampled}
use pixi_ai.Vrm.BlendShape.{BlendShapeGroup, joy, blink, get_weights_for_mesh}
use pixi_ai.Vrm.BlendShape.Weights.{total, get_weights_for_mesh-total}

-- Thousandths that are not negative, in place of floats.
abbrev pub thousandths : F32 ℕ
thousandths = record {
  ratio = λ n d. n * 1000 / d;
  neg = λ a. 0;
  abs = λ a. a;
  add = ◌+◌;
  sub = ◌-◌;
  mul = λ a b. a * b / 1000;
  div = λ a b. a * 1000 / b;
  rem = ◌%◌;
  min_f = min;
  max_f = max;
  copysign = λ a b. a;
  partial_cmp = λ a b. some (compare a b);
}

parse_iff_example :
    (BoneName.parse (codes "leftUpperArm") ≡ some left_upper_arm)
    ↔ (codes "leftUpperArm" ≡ spelling left_upper_arm)
parse_iff_example = parse_iff (codes "leftUpperArm") left_upper_arm

-- A matrix is the list of the rotations on the path.
abbrev pub paths : Glam ℕ ℕ ℕ (List ℕ)
paths = record {
  zero_v = 0;
  identity_q = 0;
  identity_m = [];
  scale_v = λ v s. v * s / 1000;
  lerp = λ a b t. a;
  slerp = λ a b t. a;
  mul_m = ◌++◌;
  from_scale_rotation_translation = λ s r t. r ∷ [];
}

abbrev trunk : NodeTransform ℕ ℕ
trunk = record { translation = 0; rotation = 7; scale = 1; children = 1 ∷ 9 ∷ [] }

abbrev limb : NodeTransform ℕ ℕ
limb = record { translation = 0; rotation = 8; scale = 1; children = [] }

-- The second child of the first node is no node.
abbrev pub nodes : List (NodeTransform ℕ ℕ)
nodes = trunk ∷ limb ∷ []

-- The bone of the second node is turned to 5.
abbrev pub bones : HumanoidBones ℕ ℕ (List ℕ)
bones = record {
  bones =
      (
        hips,
        record {
          node_index = 1;
          local_rotation = 5;
          local_position = 0;
          inverse_bind_matrix = [];
          children = [];
        },
      )
      ∷ [];
  prev_rotations = [];
  prev_positions = [];
}

first_is_root : (p : ℕ) → ¬ (Child nodes p 0)
first_is_root = elim (parent-cases nodes 0 (omega arith)) [
  | inl (e, no_parent) ↦ no_parent
  | inr (p, e, child) ↦ absurd (cc e)
]

only_parent : (p c : ℕ) → Child nodes p c → p ≡ 0
only_parent zero c h = refl
only_parent (suc zero) c (nt, e, has, bound) =
    absurd
      (subst (λ (k : NodeTransform ℕ ℕ). Has c k.children) (sym (some-injective limb nt e)) has)
only_parent (suc (suc p)) c (nt, e, has, bound) = absurd (cc e)

nodes-IsForest : IsForest nodes
nodes-IsForest p q c h k = only_parent p c h ∙ sym (only_parent q c k)

second-World : World paths bones nodes 1 (7 ∷ 5 ∷ [])
second-World = below limb refl (trunk, refl, inl refl, omega arith) (root trunk refl first_is_root)

compute_joint_matrices-World_example :
    (compute_joint_matrices paths bones nodes >>= λ ws. get_elem? ws 1) ≡ some (7 ∷ 5 ∷ [])
compute_joint_matrices-World_example =
    compute_joint_matrices-World paths bones nodes 1 (7 ∷ 5 ∷ []) nodes-IsForest second-World

-- A rotation is a number, and so is the point between two.
abbrev numbers : Quats ℕ ℕ
numbers = record {
  identity = 0;
  mul_q = ◌+◌;
  normalize = λ a. a;
  slerp = λ a b t. a + (b - a) * t / 1000;
}

abbrev pub times : List ℕ
times = 0 ∷ 1000 ∷ 3000 ∷ []

abbrev pub rotations : List ℕ
rotations = 10 ∷ 20 ∷ 60 ∷ []

key_frame :
    (i a : ℕ)
    → get_elem? times i ≡ some a
    → ((i ≡ 0) × (a ≡ 0)) ⊎ ((i ≡ 1) × (a ≡ 1000)) ⊎ ((i ≡ 2) × (a ≡ 3000))
key_frame zero a e = inl (refl, sym (some-injective 0 a e))
key_frame (suc zero) a e = inr (inl (refl, sym (some-injective 1000 a e)))
key_frame (suc (suc zero)) a e = inr (inr (refl, sym (some-injective 3000 a e)))
key_frame (suc (suc (suc i))) a e = absurd (cc e)

times-IsAscending : IsAscending thousandths (λ k. k) 2500 times
times-IsAscending i j a b le at_i at_j = omega (arith, key_frame i a at_i, key_frame j b at_j)

-- Three quarters of the way from the second key frame to the third.
quarter : sample_rotation thousandths numbers times rotations 2500 ≡ some (some 50)
unfolding sample_rotation binary_search bisect
quarter = refl

sample_rotation-Sampled_example :
    (x : ℕ) × (sample_rotation thousandths numbers times rotations 2500 ≡ some (some x))
    × Sampled thousandths (λ k. k) 2500 numbers times rotations x
sample_rotation-Sampled_example =
    sample_rotation-Sampled thousandths (λ k. k) 2500 numbers 0 (1000 ∷ 3000 ∷ []) 10 (20 ∷ 60 ∷ [])
      refl ((refl, refl), ((refl, refl), ((refl, refl), tt))) times-IsAscending

-- Two presets are set, and both move the first target of the mesh 4.
abbrev pub faces : BlendShapeGroup ℕ
faces = record {
  groups =
      (
        joy,
        (record { mesh_index = 4; morph_target_index = 0; weight = 500 })
            ∷ (record { mesh_index = 3; morph_target_index = 0; weight = 900 })
            ∷ [],
      )
      ∷ (blink, (record { mesh_index = 4; morph_target_index = 0; weight = 1000 }) ∷ [])
      ∷ [];
  current_weights = (joy, 600) ∷ (blink, 200) ∷ [];
}

both_add : get_weights_for_mesh thousandths faces 4 2 ≡ 500 ∷ 0 ∷ []
unfolding get_weights_for_mesh
both_add = refl

get_weights_for_mesh-total_example :
    get_elem? (get_weights_for_mesh thousandths faces 4 2) 0
    ≡ some (
        clamp thousandths
          (total thousandths
            (λ bind. bind.mesh_index == 4)
            faces
            0
            faces.current_weights
            (zero_f thousandths))
          (zero_f thousandths)
          (one_f thousandths))
get_weights_for_mesh-total_example =
    get_weights_for_mesh-total thousandths faces 4 2 0 (omega arith)

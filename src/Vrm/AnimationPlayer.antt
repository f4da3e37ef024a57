-- ===== src/Vrm/AnimationPlayer.antt =====
-- crates/vrm/src/animation_player.rs: an idle animation, and how much of it shows beside the tracking.
pub mod Search
pub mod Sampling
use Prim.Native.Nat.{Ordering, lt, eq, gt}
use pixi_ai.Common.{
  ℕ, zero, suc, ◌+◌, ◌-◌, ◌/◌, Bool, true, false, ◌&&◌, Option, none, some, List, [], ◌∷◌, ◌⊎◌, inl,
  inr, if◌then◌else◌, ltb, length, get_elem?, Text,
}
use pixi_ai.Common.Keyed
use pixi_ai.Common.Options.{◌>>=◌}
use pixi_ai.Vrm.BoneName.{HumanoidBoneName, index}
use pixi_ai.Vrm.BoneGroup.{
  BoneGroup, group_index, group_of, head_group, torso, arms, fingers, lower_body,
}
use pixi_ai.Vrm.F32.{F32, lt_f, le_f, zero_f, one_f}
use pixi_ai.Vrm.Bone.{unwrap_or}

-- One bone's key frames.
pub record Channel (F Q : Type 0) : Type 0 where
  pub bone : HumanoidBoneName
  pub times : List F
  pub rotations : List Q

pub record AnimationClip (F Q : Type 0) : Type 0 where
  pub name : Text
  pub duration : F
  pub channels : List (Channel F Q)

pub record AnimationPlayer (F Q : Type 0) : Type 0 where
  pub clip : AnimationClip F Q
  pub time : F
  pub speed : F
  pub looping : Bool
  pub weights : List (BoneGroup × F)
  pub enabled : Bool
  pub vrm_bind_pose : List (HumanoidBoneName × Q)

-- The operations on quaternions.
pub record Quats (F Q : Type 0) : Type 0 where
  pub identity : Q
  pub mul_q : Q → Q → Q
  pub normalize : Q → Q
  pub slerp : Q → Q → F → Q

abbrev pub last? : {A : Type 0} → List A → Option A
last? [] = none
last? (x ∷ []) = some x
last? (x ∷ y ∷ xs) = last? (y ∷ xs)

module _ {F : Type 0} (f : F32 F) where
  -- `BlendConfig::default`.
  abbrev pub default_weights : List (BoneGroup × F)
  default_weights =
      (head_group, f.ratio 8 10)
      ∷ (torso, f.ratio 6 10)
      ∷ (arms, f.ratio 7 10)
      ∷ (fingers, f.ratio 9 10)
      ∷ (lower_body, f.ratio 1 10)
      ∷ []

  -- `binary_search_by` as the standard library has it: the part that is left is halved. A comparison with
  -- a NaN panics, which is `none`.
  abbrev pub left_or_mid : Ordering → ℕ → ℕ → ℕ
  left_or_mid gt base mid = base
  left_or_mid lt base mid = mid
  left_or_mid eq base mid = mid

  unfoldable pub bisect : ℕ → ℕ → ℕ → List F → F → Option ℕ
  bisect zero base size times t = none
  bisect (suc fuel) base size times t =
      let rest = get_elem? times (base + size / 2) >>= λ k. f.partial_cmp k t >>= λ c.
      bisect fuel (left_or_mid c base (base + size / 2)) (size - size / 2) times t in
      if ltb 1 size then rest else some base

  abbrev pub found_at : ℕ → Ordering → ℕ ⊎ ℕ
  found_at base eq = inl base
  found_at base lt = inr (suc base)
  found_at base gt = inr base

  unfoldable pub binary_search : List F → F → Option (ℕ ⊎ ℕ)
  binary_search [] t = some (inr 0)
  binary_search (k ∷ ks) t = bisect (length (k ∷ ks)) 0 (length (k ∷ ks)) (k ∷ ks) t >>= λ base.
      get_elem? (k ∷ ks) base >>= λ c. f.partial_cmp c t >>= λ o. some (found_at base o)

  module _ {Q : Type 0} (q : Quats F Q) where
    abbrev pub new : AnimationClip F Q → AnimationPlayer F Q
    new clip = record {
      clip = clip;
      time = zero_f f;
      speed = one_f f;
      looping = true;
      weights = default_weights;
      enabled = true;
      vrm_bind_pose = [];
    }

    abbrev pub set_vrm_bind_pose :
        List (HumanoidBoneName × Q) → AnimationPlayer F Q → AnimationPlayer F Q
    set_vrm_bind_pose bind_pose p = record p { vrm_bind_pose = bind_pose }

    abbrev pub clip_name : AnimationPlayer F Q → Text
    clip_name p = (p.clip).name

    abbrev pub clip_duration : AnimationPlayer F Q → F
    clip_duration p = (p.clip).duration

    unfoldable pub update : F → AnimationPlayer F Q → AnimationPlayer F Q
    update delta_seconds p =
        if p.enabled
        then (let time = f.add p.time (f.mul delta_seconds p.speed) in
            if p.looping && lt_f f (zero_f f) (p.clip).duration
            then record p { time = f.rem time (p.clip).duration }
            else record p { time = f.min_f time (p.clip).duration })
        else p

    -- Between two key frames. An index out of range panics, also that in front of the first.
    abbrev pub between_keys : List F → List Q → F → ℕ → Option Q
    between_keys times rotations t zero = none
    between_keys times rotations t (suc i0) = get_elem? times i0 >>= λ t0.
        get_elem? times (suc i0) >>= λ t1. get_elem? rotations i0 >>= λ r0.
        get_elem? rotations (suc i0) >>= λ r1.
        some (q.slerp r0 r1 (f.div (f.sub t t0) (f.sub t1 t0)))

    abbrev pub at_search : List F → List Q → F → ℕ ⊎ ℕ → Option Q
    at_search times rotations t (inl i) = get_elem? rotations i
    at_search times rotations t (inr i) = between_keys times rotations t i

    -- The outer option is a panic, the inner one the result.
    unfoldable pub sample_rotation : List F → List Q → F → Option (Option Q)
    sample_rotation [] rotations t = some none
    sample_rotation (first ∷ times) [] t = some none
    sample_rotation (first ∷ times) (rotation ∷ rotations) t =
        if le_f f t first
        then some (some rotation)
        else (last? (first ∷ times) >>= λ last.
            if le_f f last t
            then (last? (rotation ∷ rotations) >>= λ r. some (some r))
            else (binary_search (first ∷ times) t
                >>= at_search (first ∷ times) (rotation ∷ rotations) t
                >>= λ r. some (some r)))

    abbrev pub add_sample :
        AnimationPlayer F Q
        → Channel F Q
        → Option Q
        → List (HumanoidBoneName × Q)
        → List (HumanoidBoneName × Q)
    add_sample p channel none pose = pose
    add_sample p channel (some delta) pose =
        Keyed.insert index channel.bone
          (q.normalize
            (q.mul_q (unwrap_or q.identity (Keyed.get index channel.bone p.vrm_bind_pose)) delta))
          pose

    unfoldable pub sample_channels :
        AnimationPlayer F Q
        → List (Channel F Q)
        → List (HumanoidBoneName × Q)
        → Option (List (HumanoidBoneName × Q))
    unfolding sample_rotation
    sample_channels p [] pose = some pose
    sample_channels p (channel ∷ rest) pose =
        sample_rotation channel.times channel.rotations p.time >>= λ delta.
        sample_channels p rest (add_sample p channel delta pose)

    unfoldable pub sample : AnimationPlayer F Q → Option (List (HumanoidBoneName × Q))
    unfolding sample_channels
    sample p = if p.enabled then sample_channels p (p.clip).channels [] else some []

    abbrev pub tracking_weight : AnimationPlayer F Q → HumanoidBoneName → F
    tracking_weight p bone =
        if p.enabled
        then unwrap_or (one_f f) (Keyed.get group_index (group_of bone) p.weights)
        else one_f f

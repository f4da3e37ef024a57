-- ===== src/Vrm/BoneName/Spelling.antt =====
-- crates/vrm/src/bone.rs: each bone has one spelling.
use mathlib.Core.Option.{some-injective}
use pixi_ai.Common.{
  ◌≡◌, refl, sym, ap, subst, ◌∙◌, ◌↔◌, inl, inr, some, Bool, true, ◌&&◌, List, [], ◌∷◌, Text, codes,
  text_eq, text_eq_iff, Bool-cases, arith,
}
use pixi_ai.Vrm.BoneName.{
  HumanoidBoneName, arms, matched, parse, hips, spine, chest, upper_chest, neck, head,
  left_shoulder, left_upper_arm, left_lower_arm, left_hand, right_shoulder, right_upper_arm,
  right_lower_arm, right_hand, left_upper_leg, left_lower_leg, left_foot, left_toes,
  right_upper_leg, right_lower_leg, right_foot, right_toes, left_thumb_proximal,
  left_thumb_intermediate, left_thumb_distal, left_index_proximal, left_index_intermediate,
  left_index_distal, left_middle_proximal, left_middle_intermediate, left_middle_distal,
  left_ring_proximal, left_ring_intermediate, left_ring_distal, left_little_proximal,
  left_little_intermediate, left_little_distal, right_thumb_proximal, right_thumb_intermediate,
  right_thumb_distal, right_index_proximal, right_index_intermediate, right_index_distal,
  right_middle_proximal, right_middle_intermediate, right_middle_distal, right_ring_proximal,
  right_ring_intermediate, right_ring_distal, right_little_proximal, right_little_intermediate,
  right_little_distal, left_eye, right_eye, jaw,
}

-- How a name is written: its words joined, each but the first with a capital.
abbrev pub spelling : HumanoidBoneName → Text
spelling hips = codes "hips"
spelling spine = codes "spine"
spelling chest = codes "chest"
spelling upper_chest = codes "upperChest"
spelling neck = codes "neck"
spelling head = codes "head"
spelling left_shoulder = codes "leftShoulder"
spelling left_upper_arm = codes "leftUpperArm"
spelling left_lower_arm = codes "leftLowerArm"
spelling left_hand = codes "leftHand"
spelling right_shoulder = codes "rightShoulder"
spelling right_upper_arm = codes "rightUpperArm"
spelling right_lower_arm = codes "rightLowerArm"
spelling right_hand = codes "rightHand"
spelling left_upper_leg = codes "leftUpperLeg"
spelling left_lower_leg = codes "leftLowerLeg"
spelling left_foot = codes "leftFoot"
spelling left_toes = codes "leftToes"
spelling right_upper_leg = codes "rightUpperLeg"
spelling right_lower_leg = codes "rightLowerLeg"
spelling right_foot = codes "rightFoot"
spelling right_toes = codes "rightToes"
spelling left_thumb_proximal = codes "leftThumbProximal"
spelling left_thumb_intermediate = codes "leftThumbIntermediate"
spelling left_thumb_distal = codes "leftThumbDistal"
spelling left_index_proximal = codes "leftIndexProximal"
spelling left_index_intermediate = codes "leftIndexIntermediate"
spelling left_index_distal = codes "leftIndexDistal"
spelling left_middle_proximal = codes "leftMiddleProximal"
spelling left_middle_intermediate = codes "leftMiddleIntermediate"
spelling left_middle_distal = codes "leftMiddleDistal"
spelling left_ring_proximal = codes "leftRingProximal"
spelling left_ring_intermediate = codes "leftRingIntermediate"
spelling left_ring_distal = codes "leftRingDistal"
spelling left_little_proximal = codes "leftLittleProximal"
spelling left_little_intermediate = codes "leftLittleIntermediate"
spelling left_little_distal = codes "leftLittleDistal"
spelling right_thumb_proximal = codes "rightThumbProximal"
spelling right_thumb_intermediate = codes "rightThumbIntermediate"
spelling right_thumb_distal = codes "rightThumbDistal"
spelling right_index_proximal = codes "rightIndexProximal"
spelling right_index_intermediate = codes "rightIndexIntermediate"
spelling right_index_distal = codes "rightIndexDistal"
spelling right_middle_proximal = codes "rightMiddleProximal"
spelling right_middle_intermediate = codes "rightMiddleIntermediate"
spelling right_middle_distal = codes "rightMiddleDistal"
spelling right_ring_proximal = codes "rightRingProximal"
spelling right_ring_intermediate = codes "rightRingIntermediate"
spelling right_ring_distal = codes "rightRingDistal"
spelling right_little_proximal = codes "rightLittleProximal"
spelling right_little_intermediate = codes "rightLittleIntermediate"
spelling right_little_distal = codes "rightLittleDistal"
spelling left_eye = codes "leftEye"
spelling right_eye = codes "rightEye"
spelling jaw = codes "jaw"

all_spelled : List (Text × HumanoidBoneName) → Bool
all_spelled [] = true
all_spelled ((t, a) ∷ rest) = text_eq t (spelling a) && all_spelled rest

-- An arm that is taken is written as its name.
matched-spelling :
    (s : Text) (rest : List (Text × HumanoidBoneName)) {b : HumanoidBoneName}
    → all_spelled rest ≡ true
    → matched s rest ≡ some b
    → s ≡ spelling b
unfolding all_spelled
matched-spelling s [] h e = absurd (ground arith)
matched-spelling s ((t, a) ∷ rest) {b} h e = elim (Bool-cases (text_eq s t)) [
  | inl q ↦
      (text_eq_iff s t).0 q
      ∙ (text_eq_iff t (spelling a)).0 (ground arith)
      ∙ ap spelling (some-injective a b (rw q at e))
  | inr q ↦ matched-spelling s rest (ground arith) (rw q at e)
]

arms-spelled : all_spelled arms ≡ true
unfolding all_spelled text_eq
arms-spelled = refl

parse-spelling : (b : HumanoidBoneName) → parse (spelling b) ≡ some b
unfolding parse text_eq
parse-spelling hips = refl
parse-spelling spine = refl
parse-spelling chest = refl
parse-spelling upper_chest = refl
parse-spelling neck = refl
parse-spelling head = refl
parse-spelling left_shoulder = refl
parse-spelling left_upper_arm = refl
parse-spelling left_lower_arm = refl
parse-spelling left_hand = refl
parse-spelling right_shoulder = refl
parse-spelling right_upper_arm = refl
parse-spelling right_lower_arm = refl
parse-spelling right_hand = refl
parse-spelling left_upper_leg = refl
parse-spelling left_lower_leg = refl
parse-spelling left_foot = refl
parse-spelling left_toes = refl
parse-spelling right_upper_leg = refl
parse-spelling right_lower_leg = refl
parse-spelling right_foot = refl
parse-spelling right_toes = refl
parse-spelling left_thumb_proximal = refl
parse-spelling left_thumb_intermediate = refl
parse-spelling left_thumb_distal = refl
parse-spelling left_index_proximal = refl
parse-spelling left_index_intermediate = refl
parse-spelling left_index_distal = refl
parse-spelling left_middle_proximal = refl
parse-spelling left_middle_intermediate = refl
parse-spelling left_middle_distal = refl
parse-spelling left_ring_proximal = refl
parse-spelling left_ring_intermediate = refl
parse-spelling left_ring_distal = refl
parse-spelling left_little_proximal = refl
parse-spelling left_little_intermediate = refl
parse-spelling left_little_distal = refl
parse-spelling right_thumb_proximal = refl
parse-spelling right_thumb_intermediate = refl
parse-spelling right_thumb_distal = refl
parse-spelling right_index_proximal = refl
parse-spelling right_index_intermediate = refl
parse-spelling right_index_distal = refl
parse-spelling right_middle_proximal = refl
parse-spelling right_middle_intermediate = refl
parse-spelling right_middle_distal = refl
parse-spelling right_ring_proximal = refl
parse-spelling right_ring_intermediate = refl
parse-spelling right_ring_distal = refl
parse-spelling right_little_proximal = refl
parse-spelling right_little_intermediate = refl
parse-spelling right_little_distal = refl
parse-spelling left_eye = refl
parse-spelling right_eye = refl
parse-spelling jaw = refl

-- A text is read as a bone exactly where it is the spelling of that bone.
pub parse_iff : (s : Text) (b : HumanoidBoneName) → (parse s ≡ some b) ↔ (s ≡ spelling b)
unfolding parse
parse_iff s b = (
  matched-spelling s arms arms-spelled,
  λ e. subst (λ t. parse t ≡ some b) (sym e) (parse-spelling b),
)

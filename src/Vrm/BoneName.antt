-- ===== src/Vrm/BoneName.antt =====
-- crates/vrm/src/bone.rs: the names of the bones of a humanoid.
pub mod Spelling
use pixi_ai.Common.{
  ℕ, Bool, Option, none, some, List, [], ◌∷◌, ◌==◌, if◌then◌else◌, Text, codes, text_eq,
}

pub data HumanoidBoneName : Type 0 where
  hips spine chest upper_chest neck head left_shoulder left_upper_arm left_lower_arm :
      HumanoidBoneName
  left_hand right_shoulder right_upper_arm right_lower_arm right_hand left_upper_leg :
      HumanoidBoneName
  left_lower_leg left_foot left_toes right_upper_leg right_lower_leg right_foot : HumanoidBoneName
  right_toes left_thumb_proximal left_thumb_intermediate left_thumb_distal : HumanoidBoneName
  left_index_proximal left_index_intermediate left_index_distal left_middle_proximal :
      HumanoidBoneName
  left_middle_intermediate left_middle_distal left_ring_proximal left_ring_intermediate :
      HumanoidBoneName
  left_ring_distal left_little_proximal left_little_intermediate left_little_distal :
      HumanoidBoneName
  right_thumb_proximal right_thumb_intermediate right_thumb_distal right_index_proximal :
      HumanoidBoneName
  right_index_intermediate right_index_distal right_middle_proximal : HumanoidBoneName
  right_middle_intermediate right_middle_distal right_ring_proximal : HumanoidBoneName
  right_ring_intermediate right_ring_distal right_little_proximal : HumanoidBoneName
  right_little_intermediate right_little_distal left_eye right_eye jaw : HumanoidBoneName

-- The number of a name, by which names are compared.
abbrev pub index : HumanoidBoneName → ℕ
index hips = 0
index spine = 1
index chest = 2
index upper_chest = 3
index neck = 4
index head = 5
index left_shoulder = 6
index left_upper_arm = 7
index left_lower_arm = 8
index left_hand = 9
index right_shoulder = 10
index right_upper_arm = 11
index right_lower_arm = 12
index right_hand = 13
index left_upper_leg = 14
index left_lower_leg = 15
index left_foot = 16
index left_toes = 17
index right_upper_leg = 18
index right_lower_leg = 19
index right_foot = 20
index right_toes = 21
index left_thumb_proximal = 22
index left_thumb_intermediate = 23
index left_thumb_distal = 24
index left_index_proximal = 25
index left_index_intermediate = 26
index left_index_distal = 27
index left_middle_proximal = 28
index left_middle_intermediate = 29
index left_middle_distal = 30
index left_ring_proximal = 31
index left_ring_intermediate = 32
index left_ring_distal = 33
index left_little_proximal = 34
index left_little_intermediate = 35
index left_little_distal = 36
index right_thumb_proximal = 37
index right_thumb_intermediate = 38
index right_thumb_distal = 39
index right_index_proximal = 40
index right_index_intermediate = 41
index right_index_distal = 42
index right_middle_proximal = 43
index right_middle_intermediate = 44
index right_middle_distal = 45
index right_ring_proximal = 46
index right_ring_intermediate = 47
index right_ring_distal = 48
index right_little_proximal = 49
index right_little_intermediate = 50
index right_little_distal = 51
index left_eye = 52
index right_eye = 53
index jaw = 54

abbrev pub same_bone : HumanoidBoneName → HumanoidBoneName → Bool
same_bone a b = index a == index b

-- The arms of the match in `parse`.
abbrev pub arms : List (Text × HumanoidBoneName)
arms =
    (codes "hips", hips)
    ∷ (codes "spine", spine)
    ∷ (codes "chest", chest)
    ∷ (codes "upperChest", upper_chest)
    ∷ (codes "neck", neck)
    ∷ (codes "head", head)
    ∷ (codes "leftShoulder", left_shoulder)
    ∷ (codes "leftUpperArm", left_upper_arm)
    ∷ (codes "leftLowerArm", left_lower_arm)
    ∷ (codes "leftHand", left_hand)
    ∷ (codes "rightShoulder", right_shoulder)
    ∷ (codes "rightUpperArm", right_upper_arm)
    ∷ (codes "rightLowerArm", right_lower_arm)
    ∷ (codes "rightHand", right_hand)
    ∷ (codes "leftUpperLeg", left_upper_leg)
    ∷ (codes "leftLowerLeg", left_lower_leg)
    ∷ (codes "leftFoot", left_foot)
    ∷ (codes "leftToes", left_toes)
    ∷ (codes "rightUpperLeg", right_upper_leg)
    ∷ (codes "rightLowerLeg", right_lower_leg)
    ∷ (codes "rightFoot", right_foot)
    ∷ (codes "rightToes", right_toes)
    ∷ (codes "leftThumbProximal", left_thumb_proximal)
    ∷ (codes "leftThumbIntermediate", left_thumb_intermediate)
    ∷ (codes "leftThumbDistal", left_thumb_distal)
    ∷ (codes "leftIndexProximal", left_index_proximal)
    ∷ (codes "leftIndexIntermediate", left_index_intermediate)
    ∷ (codes "leftIndexDistal", left_index_distal)
    ∷ (codes "leftMiddleProximal", left_middle_proximal)
    ∷ (codes "leftMiddleIntermediate", left_middle_intermediate)
    ∷ (codes "leftMiddleDistal", left_middle_distal)
    ∷ (codes "leftRingProximal", left_ring_proximal)
    ∷ (codes "leftRingIntermediate", left_ring_intermediate)
    ∷ (codes "leftRingDistal", left_ring_distal)
    ∷ (codes "leftLittleProximal", left_little_proximal)
    ∷ (codes "leftLittleIntermediate", left_little_intermediate)
    ∷ (codes "leftLittleDistal", left_little_distal)
    ∷ (codes "rightThumbProximal", right_thumb_proximal)
    ∷ (codes "rightThumbIntermediate", right_thumb_intermediate)
    ∷ (codes "rightThumbDistal", right_thumb_distal)
    ∷ (codes "rightIndexProximal", right_index_proximal)
    ∷ (codes "rightIndexIntermediate", right_index_intermediate)
    ∷ (codes "rightIndexDistal", right_index_distal)
    ∷ (codes "rightMiddleProximal", right_middle_proximal)
    ∷ (codes "rightMiddleIntermediate", right_middle_intermediate)
    ∷ (codes "rightMiddleDistal", right_middle_distal)
    ∷ (codes "rightRingProximal", right_ring_proximal)
    ∷ (codes "rightRingIntermediate", right_ring_intermediate)
    ∷ (codes "rightRingDistal", right_ring_distal)
    ∷ (codes "rightLittleProximal", right_little_proximal)
    ∷ (codes "rightLittleIntermediate", right_little_intermediate)
    ∷ (codes "rightLittleDistal", right_little_distal)
    ∷ (codes "leftEye", left_eye)
    ∷ (codes "rightEye", right_eye)
    ∷ (codes "jaw", jaw)
    ∷ []

-- A match on a text takes the first arm that is equal to it.
abbrev pub matched {ℓ} : {A : Type ℓ} → Text → List (Text × A) → Option A
matched s [] = none
matched s ((t, a) ∷ rest) = if text_eq s t then some a else matched s rest

unfoldable pub parse : Text → Option HumanoidBoneName
parse s = matched s arms

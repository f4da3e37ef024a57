-- ===== src/Vrm/BoneGroup.antt =====
-- crates/vrm/src/animation_player.rs: the groups of bones that are blended alike.
use pixi_ai.Common.{ℕ}
use pixi_ai.Vrm.BoneName.{
  HumanoidBoneName, hips, spine, chest, upper_chest, neck, head, left_shoulder, left_upper_arm,
  left_lower_arm, left_hand, right_shoulder, right_upper_arm, right_lower_arm, right_hand,
  left_upper_leg, left_lower_leg, left_foot, left_toes, right_upper_leg, right_lower_leg,
  right_foot, right_toes, left_thumb_proximal, left_thumb_intermediate, left_thumb_distal,
  left_index_proximal, left_index_intermediate, left_index_distal, left_middle_proximal,
  left_middle_intermediate, left_middle_distal, left_ring_proximal, left_ring_intermediate,
  left_ring_distal, left_little_proximal, left_little_intermediate, left_little_distal,
  right_thumb_proximal, right_thumb_intermediate, right_thumb_distal, right_index_proximal,
  right_index_intermediate, right_index_distal, right_middle_proximal, right_middle_intermediate,
  right_middle_distal, right_ring_proximal, right_ring_intermediate, right_ring_distal,
  right_little_proximal, right_little_intermediate, right_little_distal, left_eye, right_eye, jaw,
}

pub data BoneGroup : Type 0 where
  head_group torso arms fingers lower_body : BoneGroup

abbrev pub group_index : BoneGroup → ℕ
group_index head_group = 0
group_index torso = 1
group_index arms = 2
group_index fingers = 3
group_index lower_body = 4

-- `BoneGroup::of`.
unfoldable pub group_of : HumanoidBoneName → BoneGroup
group_of hips = lower_body
group_of spine = torso
group_of chest = torso
group_of upper_chest = torso
group_of neck = head_group
group_of head = head_group
group_of left_shoulder = arms
group_of left_upper_arm = arms
group_of left_lower_arm = arms
group_of left_hand = arms
group_of right_shoulder = arms
group_of right_upper_arm = arms
group_of right_lower_arm = arms
group_of right_hand = arms
group_of left_upper_leg = lower_body
group_of left_lower_leg = lower_body
group_of left_foot = lower_body
group_of left_toes = lower_body
group_of right_upper_leg = lower_body
group_of right_lower_leg = lower_body
group_of right_foot = lower_body
group_of right_toes = lower_body
group_of left_thumb_proximal = fingers
group_of left_thumb_intermediate = fingers
group_of left_thumb_distal = fingers
group_of left_index_proximal = fingers
group_of left_index_intermediate = fingers
group_of left_index_distal = fingers
group_of left_middle_proximal = fingers
group_of left_middle_intermediate = fingers
group_of left_middle_distal = fingers
group_of left_ring_proximal = fingers
group_of left_ring_intermediate = fingers
group_of left_ring_distal = fingers
group_of left_little_proximal = fingers
group_of left_little_intermediate = fingers
group_of left_little_distal = fingers
group_of right_thumb_proximal = fingers
group_of right_thumb_intermediate = fingers
group_of right_thumb_distal = fingers
group_of right_index_proximal = fingers
group_of right_index_intermediate = fingers
group_of right_index_distal = fingers
group_of right_middle_proximal = fingers
group_of right_middle_intermediate = fingers
group_of right_middle_distal = fingers
group_of right_ring_proximal = fingers
group_of right_ring_intermediate = fingers
group_of right_ring_distal = fingers
group_of right_little_proximal = fingers
group_of right_little_intermediate = fingers
group_of right_little_distal = fingers
group_of left_eye = head_group
group_of right_eye = head_group
group_of jaw = head_group

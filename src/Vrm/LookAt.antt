-- ===== src/Vrm/LookAt.antt =====
-- crates/vrm/src/look_at.rs: how far the eyes turn.
-- `to_radians` and the quaternion of two angles are arguments.
use pixi_ai.Common.{Option, none, some, ◌⊎◌, inr, if◌then◌else◌, Text, codes, text_eq}
use pixi_ai.Common.Options.{◌>>=◌}
use pixi_ai.Vrm.F32.{F32, lt_f, le_f, zero_f, one_f, clamp}
use pixi_ai.Vrm.Bone.{Json, VrmError, missing_extension, ok_or, ◌>>?◌, unwrap_or}

pub data LookAtType : Type 0 where
  bone blend_shape : LookAtType

pub record CurveRange (F : Type 0) : Type 0 where
  pub input_max_value : F
  pub output_scale : F

pub record LookAtApplyer (F : Type 0) : Type 0 where
  pub look_at_type : LookAtType
  pub horizontal_inner : CurveRange F
  pub horizontal_outer : CurveRange F
  pub vertical_up : CurveRange F
  pub vertical_down : CurveRange F

-- Angles in degrees.
pub record EulerAngles (F : Type 0) : Type 0 where
  pub yaw : F
  pub pitch : F

module _ {F : Type 0} (f : F32 F) where
  abbrev pub default_curve : CurveRange F
  default_curve = record { input_max_value = f.ratio 90 1; output_scale = f.ratio 10 1 }

  module _ {J : Type 0} (js : Json J) (as_f32 : J → Option F) where
    abbrev pub curve_of : Option J → CurveRange F
    curve_of none = default_curve
    curve_of (some v) = record {
      input_max_value = unwrap_or (f.ratio 90 1) (js.get (codes "xRange") v >>= as_f32);
      output_scale = unwrap_or (f.ratio 10 1) (js.get (codes "yRange") v >>= as_f32);
    }

    abbrev pub parse_curve : J → Text → CurveRange F
    parse_curve json key = curve_of (js.get key json)

    abbrev pub type_of : Text → LookAtType
    type_of name = if text_eq name (codes "BlendShape") then blend_shape else bone

    unfoldable pub from_vrm_json : J → VrmError ⊎ LookAtApplyer F
    from_vrm_json vrm_ext =
        ok_or (missing_extension (codes "firstPerson")) (js.get (codes "firstPerson") vrm_ext)
        >>? λ first_person. inr (record {
          look_at_type = type_of (
              unwrap_or (codes "Bone")
                (js.get (codes "lookAtTypeName") first_person >>= js.as_str));
          horizontal_inner = parse_curve first_person (codes "lookAtHorizontalInner");
          horizontal_outer = parse_curve first_person (codes "lookAtHorizontalOuter");
          vertical_up = parse_curve first_person (codes "lookAtVerticalUp");
          vertical_down = parse_curve first_person (codes "lookAtVerticalDown");
        })

  -- How far a curve turns for an angle within -90 and 90 degrees, with the angle's sign.
  abbrev pub output : CurveRange F → F → F
  output range deg =
      f.copysign
        (if lt_f f (zero_f f) range.input_max_value
          then f.mul (f.min_f (f.div (f.abs deg) range.input_max_value) (one_f f))
              range.output_scale
          else zero_f f)
        deg

  abbrev pub limited : F → F
  limited deg = clamp f deg (f.neg (f.ratio 90 1)) (f.ratio 90 1)

  module _ {Q : Type 0} (to_radians : F → F) (from_yaw_pitch : F → F → Q) where
    unfoldable pub apply : LookAtApplyer F → EulerAngles F → Q
    apply a euler =
        let yaw_deg = limited euler.yaw in
        let pitch_deg = limited euler.pitch in
        let yaw_range =
          if le_f f (zero_f f) yaw_deg then a.horizontal_outer else a.horizontal_inner in
        let pitch_range = if le_f f (zero_f f) pitch_deg then a.vertical_up else a.vertical_down in
        from_yaw_pitch (to_radians (output yaw_range yaw_deg))
          (to_radians (output pitch_range pitch_deg))

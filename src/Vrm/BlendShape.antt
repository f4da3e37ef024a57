-- ===== src/Vrm/BlendShape.antt =====
-- crates/vrm/src/blendshape.rs: the presets of an expression and the weights of the morph targets.
-- A `HashMap` is a list in the order in which it is walked; floats are added in that order.
pub mod Weights
use pixi_ai.Common.{
  ℕ, Bool, true, ◌&&◌, Option, none, some, List, [], ◌∷◌, ◌⊎◌, inl, inr, ltb, ◌==◌, if◌then◌else◌,
  Text, codes, get_elem?, set, map, replicate, filter_map,
}
use pixi_ai.Common.Keyed
use pixi_ai.Common.Options.{◌>>=◌}
use pixi_ai.Vrm.BoneName.{matched}
use pixi_ai.Vrm.F32.{F32, zero_f, one_f, clamp}
use pixi_ai.Vrm.Bone.{Json, VrmError, missing_extension, ok_or, ◌>>?◌, unwrap_or}

pub data BlendShapePreset : Type 0 where
  blink blink_l blink_r a i u e o joy angry sorrow fun neutral : BlendShapePreset

abbrev pub preset_index : BlendShapePreset → ℕ
preset_index blink = 0
preset_index blink_l = 1
preset_index blink_r = 2
preset_index a = 3
preset_index i = 4
preset_index u = 5
preset_index e = 6
preset_index o = 7
preset_index joy = 8
preset_index angry = 9
preset_index sorrow = 10
preset_index fun = 11
preset_index neutral = 12

abbrev pub parse : Text → Option BlendShapePreset
parse s = matched s (
    (codes "blink", blink)
    ∷ (codes "blink_l", blink_l)
    ∷ (codes "blink_r", blink_r)
    ∷ (codes "a", a)
    ∷ (codes "i", i)
    ∷ (codes "u", u)
    ∷ (codes "e", e)
    ∷ (codes "o", o)
    ∷ (codes "joy", joy)
    ∷ (codes "angry", angry)
    ∷ (codes "sorrow", sorrow)
    ∷ (codes "fun", fun)
    ∷ (codes "neutral", neutral)
    ∷ [])

-- How `{:?}` prints a preset.
abbrev pub debug_name : BlendShapePreset → Text
debug_name blink = codes "Blink"
debug_name blink_l = codes "BlinkL"
debug_name blink_r = codes "BlinkR"
debug_name a = codes "A"
debug_name i = codes "I"
debug_name u = codes "U"
debug_name e = codes "E"
debug_name o = codes "O"
debug_name joy = codes "Joy"
debug_name angry = codes "Angry"
debug_name sorrow = codes "Sorrow"
debug_name fun = codes "Fun"
debug_name neutral = codes "Neutral"

pub record BlendShapeBinding (F : Type 0) : Type 0 where
  pub mesh_index : ℕ
  pub morph_target_index : ℕ
  pub weight : F

pub record BlendShapeGroup (F : Type 0) : Type 0 where
  pub groups : List (BlendShapePreset × List (BlendShapeBinding F))
  pub current_weights : List (BlendShapePreset × F)

module _ {F : Type 0} (f : F32 F) where
  -- `as_f64` and the cast to f32 are `as_f32`.
  module _ {J : Type 0} (js : Json J) (as_f32 : J → Option F) where
    abbrev pub binding : J → Option (BlendShapeBinding F)
    binding bind = js.get (codes "mesh") bind >>= js.as_u64 >>= λ mesh.
        js.get (codes "index") bind >>= js.as_u64 >>= λ target.
        js.get (codes "weight") bind >>= as_f32 >>= λ weight. some (record {
          mesh_index = mesh;
          morph_target_index = target;
          weight = f.div weight (f.ratio 100 1);
        })

    abbrev pub add_group :
        J
        → Option BlendShapePreset
        → List (BlendShapePreset × List (BlendShapeBinding F))
        → List (BlendShapePreset × List (BlendShapeBinding F))
    add_group group none m = m
    add_group group (some preset) m =
        Keyed.insert preset_index preset
          (filter_map binding (unwrap_or [] (js.get (codes "binds") group >>= js.as_array))) m

    abbrev pub groups_of :
        List J
        → List (BlendShapePreset × List (BlendShapeBinding F))
        → List (BlendShapePreset × List (BlendShapeBinding F))
    groups_of [] m = m
    groups_of (group ∷ rest) m =
        groups_of rest (
          add_group group (parse (unwrap_or [] (js.get (codes "presetName") group >>= js.as_str)))
            m)

    abbrev pub from_vrm_json : J → VrmError ⊎ BlendShapeGroup F
    from_vrm_json vrm_ext =
        ok_or (missing_extension (codes "blendShapeMaster.blendShapeGroups")) (
          js.get (codes "blendShapeMaster") vrm_ext
          >>= js.get (codes "blendShapeGroups")
          >>= js.as_array)
        >>? λ array. inr (record { groups = groups_of array []; current_weights = [] })

  abbrev pub get : BlendShapeGroup F → BlendShapePreset → F
  get b preset = unwrap_or (zero_f f) (Keyed.get preset_index preset b.current_weights)

  abbrev pub set_preset : BlendShapePreset → F → BlendShapeGroup F → BlendShapeGroup F
  set_preset preset value b = record b {
    current_weights =
        Keyed.insert preset_index preset (clamp f value (zero_f f) (one_f f)) b.current_weights;
  }

  abbrev pub add_at : List F → ℕ → F → List F
  add_at weights j x = set weights j (f.add (unwrap_or (zero_f f) (get_elem? weights j)) x)

  -- `wanted` is the test on a binding; the index of its morph target is tested too.
  abbrev pub add_bindings :
      (BlendShapeBinding F → Bool) → ℕ → F → List (BlendShapeBinding F) → List F → List F
  add_bindings wanted num_targets value [] weights = weights
  add_bindings wanted num_targets value (bind ∷ rest) weights =
      add_bindings wanted num_targets value rest (
        if wanted bind && ltb bind.morph_target_index num_targets
        then add_at weights bind.morph_target_index (f.mul value bind.weight)
        else weights)

  abbrev pub add_presets :
      BlendShapeGroup F
      → (BlendShapeBinding F → Bool)
      → ℕ
      → List (BlendShapePreset × F)
      → List F
      → List F
  add_presets b wanted num_targets [] weights = weights
  add_presets b wanted num_targets ((preset, value) ∷ rest) weights =
      add_presets b wanted num_targets rest (
        add_bindings wanted num_targets value
          (unwrap_or [] (Keyed.get preset_index preset b.groups)) weights)

  unfoldable pub get_weights_for_mesh : BlendShapeGroup F → ℕ → ℕ → List F
  get_weights_for_mesh b mesh_index num_targets =
      map (λ w. clamp f w (zero_f f) (one_f f))
        (add_presets b (λ bind. bind.mesh_index == mesh_index) num_targets b.current_weights
          (replicate num_targets (zero_f f)))

  unfoldable pub get_all_weights : BlendShapeGroup F → ℕ → List F
  get_all_weights b num_targets =
      map (λ w. clamp f w (zero_f f) (one_f f))
        (add_presets b (λ bind. true) num_targets b.current_weights
          (replicate num_targets (zero_f f)))

module _ {F : Type 0} where
  -- The bindings of each preset as triples.
  abbrev pub debug_bindings : BlendShapeGroup F → List (Text × List (ℕ × ℕ × F))
  debug_bindings b =
      map
        (λ (preset, bindings). (
          debug_name preset,
          map (λ bind. (bind.mesh_index, bind.morph_target_index, bind.weight)) bindings,
        ))
        b.groups

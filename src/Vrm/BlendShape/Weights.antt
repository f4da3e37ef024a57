-- ===== src/Vrm/BlendShape/Weights.antt =====
-- crates/vrm/src/blendshape.rs: the weight of each morph target, read off instead of scattered.
use pixi_ai.Common.{
  ℕ, zero, suc, ◌<◌, ◌≡◌, refl, sym, ap, ◌∙◌, Bool, true, false, ◌&&◌, some, List, [], ◌∷◌, ltb,
  lt→ltb, ◌==◌, if◌then◌else◌, if-true, if-false, if-both, ==_iff, ◌≢◌, length, get_elem?, map,
  length-set, replicate, length-replicate, get_elem?-replicate, get_elem?-set_self,
  get_elem?-set_ne, ℕ_discrete, arith,
}
use pixi_ai.Common.Keyed
use pixi_ai.Vrm.F32.{F32, zero_f, one_f, clamp}
use pixi_ai.Vrm.Bone.{unwrap_or}
use pixi_ai.Vrm.BlendShape.{
  BlendShapePreset, preset_index, BlendShapeBinding, BlendShapeGroup, add_at, add_bindings,
  add_presets, get_weights_for_mesh,
}

get_elem?-map :
    {A B : Type 0} (g : A → B) (xs : List A) (j : ℕ) {a : A}
    → get_elem? xs j ≡ some a
    → get_elem? (map g xs) j ≡ some (g a)
get_elem?-map g [] j e = absurd (ground arith)
get_elem?-map g (x ∷ xs) zero e = ground arith
get_elem?-map g (x ∷ xs) (suc j) e = get_elem?-map g xs j e

ne→== : (a b : ℕ) → a ≢ b → (a == b) ≡ false
ne→== a b h = ground arith

module _ {F : Type 0} (f : F32 F) where
  add_at-length : (ws : List F) (i : ℕ) (x : F) → length (add_at f ws i x) ≡ length ws
  add_at-length ws i x = length-set ws i (f.add (unwrap_or (zero_f f) (get_elem? ws i)) x)

  -- A weight after one binding, which counts if it is wanted and has the target's index.
  put_get :
      (c : Bool) (n i j : ℕ) (x : F) (ws : List F) {a : F}
      → length ws ≡ n
      → j < n
      → get_elem? ws j ≡ some a
      → get_elem? (if c && ltb i n then add_at f ws i x else ws) j
        ≡ some (if c && (i == j) then f.add a x else a)
  put_get false n i j x ws len bound e = e
  put_get true n i j x ws {a} len bound e = elim (ℕ_discrete i j) [
    | yes i_j ↦
        ap (λ k. get_elem? (if ltb k n then add_at f ws k x else ws) j) i_j
        ∙ ap (λ ys. get_elem? ys j) (if-true (ltb j n) (add_at f ws j x) ws (lt→ltb j n bound))
        ∙ get_elem?-set_self ws j _ (omega (arith, len))
        ∙ ap (λ o. some (f.add (unwrap_or (zero_f f) o) x)) e
        ∙ sym (ap some (if-true (i == j) (f.add a x) a ((==_iff i j).1 i_j)))
    | no i_j ↦
        if-both (λ ys. get_elem? ys j ≡ get_elem? ws j) (ltb i n) (get_elem?-set_ne ws _ i_j) refl
        ∙ e
        ∙ sym (ap some (if-false (i == j) (f.add a x) a (ne→== i j i_j)))
  ]

module _ {F : Type 0} (f : F32 F) (wanted : BlendShapeBinding F → Bool) where
  -- What the bindings of one preset add to one morph target.
  abbrev pub gathered : ℕ → F → List (BlendShapeBinding F) → F → F
  gathered j value [] acc = acc
  gathered j value (bind ∷ rest) acc = gathered j value rest (
      if wanted bind && (bind.morph_target_index == j)
      then f.add acc (f.mul value bind.weight)
      else acc)

  -- What all presets add to it.
  abbrev pub total : BlendShapeGroup F → ℕ → List (BlendShapePreset × F) → F → F
  total b j [] acc = acc
  total b j ((preset, value) ∷ rest) acc =
      total b j rest (gathered j value (unwrap_or [] (Keyed.get preset_index preset b.groups)) acc)

  put-length :
      (n : ℕ) (value : F) (bind : BlendShapeBinding F) (ws : List F)
      → length (
          if wanted bind && ltb bind.morph_target_index n
          then add_at f ws bind.morph_target_index (f.mul value bind.weight)
          else ws)
        ≡ length ws
  put-length n value bind ws =
      if-both (λ ys. length ys ≡ length ws) (wanted bind && ltb bind.morph_target_index n)
        (add_at-length f ws bind.morph_target_index (f.mul value bind.weight)) refl

  add_bindings-get :
      (n j : ℕ) (value : F) (bs : List (BlendShapeBinding F)) (ws : List F) {a : F}
      → length ws ≡ n
      → j < n
      → get_elem? ws j ≡ some a
      → (get_elem? (add_bindings f wanted n value bs ws) j ≡ some (gathered j value bs a))
        × (length (add_bindings f wanted n value bs ws) ≡ n)
  add_bindings-get n j value [] ws len bound e = (e, len)
  add_bindings-get n j value (bind ∷ bs) ws len bound e =
      add_bindings-get n j value bs _ (put-length n value bind ws ∙ len) bound (
        put_get f (wanted bind) n bind.morph_target_index j (f.mul value bind.weight) ws len bound
          e)

  add_presets-get :
      (b : BlendShapeGroup F) (n j : ℕ) (ps : List (BlendShapePreset × F)) (ws : List F) {a : F}
      → length ws ≡ n
      → j < n
      → get_elem? ws j ≡ some a
      → get_elem? (add_presets f b wanted n ps ws) j ≡ some (total b j ps a)
  add_presets-get b n j [] ws len bound e = e
  add_presets-get b n j ((preset, value) ∷ ps) ws len bound e =
      let (at_j, len') =
        add_bindings-get n j value (unwrap_or [] (Keyed.get preset_index preset b.groups)) ws len
          bound e in
      add_presets-get b n j ps _ len' bound at_j

module _ {F : Type 0} (f : F32 F) where
  -- The weight of a morph target of a mesh, one below the number of targets, is the sum of what the set presets' bindings for that mesh and
  -- target add, each its weight times the preset's value, clamped to 0.0 and 1.0.
  pub get_weights_for_mesh-total :
      (b : BlendShapeGroup F) (mesh n j : ℕ)
      → j < n
      → get_elem? (get_weights_for_mesh f b mesh n) j
        ≡ some (
            clamp f
              (total f (λ bind. bind.mesh_index == mesh) b j b.current_weights (zero_f f))
              (zero_f f)
              (one_f f))
  unfolding get_weights_for_mesh
  get_weights_for_mesh-total b mesh n j bound =
      get_elem?-map (λ w. clamp f w (zero_f f) (one_f f)) _ j
        (add_presets-get f (λ bind. bind.mesh_index == mesh) b n j b.current_weights
          (replicate n (zero_f f)) (length-replicate n (zero_f f)) bound
          (get_elem?-replicate n (zero_f f) j bound))

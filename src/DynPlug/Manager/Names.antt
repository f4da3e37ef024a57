-- ===== src/DynPlug/Manager/Names.antt =====
-- crates/dynplug/src/manager.rs: what a load and an unload do to the names.
use pixi_ai.Common.{
  ℕ, ◌≡◌, ◌⊎◌, inl, inr, refl, sym, ap, ◌∙◌, Bool-cases, Option-cases, none, some, arith,
  if◌then◌else◌, length, get_elem?, get_elem?-set_ne, set, Text, text_eq, text_eq-false,
}
use pixi_ai.DynPlug.Manager.{
  Backend, PluginManager, ok, err, name_of, lookup, remove, register, slot_of, not_found,
  drop_backend, duplicate_name,
}
use pixi_ai.DynPlug.Manager.Calls.{take_slot, unload, find}
use pixi_ai.DynPlug.Manager.Invariant.{
  Indexed, pushed, taken, register-free, register-taken, unload-some, unload-none, get_elem?-snoc,
  get_elem?-append, lookup-remove,
}

find-some :
    (m : PluginManager) (name : Text) {i : ℕ} {b : Backend}
    → lookup name m.name_index ≡ some i
    → get_elem? m.plugins i ≡ some (some b)
    → find m name ≡ some b
unfolding find
find-some m name e g = rw (e, find) (ap slot_of g)

find-none : (m : PluginManager) (name : Text) → lookup name m.name_index ≡ none → find m name ≡ none
unfolding find
find-none m name e = rw (e, find) refl

-- Under the invariant a name is found exactly if it has an index.
find-cases :
    (m : PluginManager) (name : Text)
    → Indexed m
    → ((lookup name m.name_index ≡ none) × (find m name ≡ none))
      ⊎ ((i : ℕ) × (b : Backend) × (lookup name m.name_index ≡ some i)
          × (get_elem? m.plugins i ≡ some (some b))
          × (name_of b ≡ name)
          × (find m name ≡ some b))
find-cases m name h = elim (Option-cases (lookup name m.name_index)) [
  | inl e ↦ inl (e, find-none m name e)
  | inr (i, e) ↦ let (b, g, n) = (h name i).0 e in inr (i, b, e, g, n, find-some m name e g)
]

find-pushed :
    (b : Backend) (m : PluginManager) (key : Text)
    → Indexed m
    → find (pushed b m) key ≡ (if text_eq (name_of b) key then some b else find m key)
unfolding lookup
find-pushed b m key h = elim (Bool-cases (text_eq (name_of b) key)) [
  | inl t ↦
      let look : lookup key (pushed b m).name_index ≡ some (length m.plugins) = rw t refl in
      find-some (pushed b m) key look (get_elem?-snoc m.plugins (some b)) ∙ rw t refl
  | inr f ↦
      let look : lookup key (pushed b m).name_index ≡ lookup key m.name_index = rw f refl in
      let out : find m key ≡ (if text_eq (name_of b) key then some b else find m key) = rw f refl in
      elim (find-cases m key h) [
        | inl (e, n) ↦ find-none (pushed b m) key (look ∙ e) ∙ sym n ∙ out
        | inr (i, c, e, g, n, k) ↦
            find-some (pushed b m) key (look ∙ e) (get_elem?-append m.plugins i (some b) g)
            ∙ sym k
            ∙ out
      ]
]

find-taken :
    (name : Text) (idx : ℕ) (m : PluginManager) (key : Text)
    → Indexed m
    → lookup name m.name_index ≡ some idx
    → find (taken name idx m) key ≡ (if text_eq name key then none else find m key)
unfolding take_slot
find-taken name idx m key h l = elim (Bool-cases (text_eq name key)) [
  | inl t ↦
      let look : lookup key (remove name m.name_index) ≡ none =
        lookup-remove name key m.name_index ∙ rw t refl in
      find-none (taken name idx m) key look ∙ rw t refl
  | inr f ↦
      let look : lookup key (remove name m.name_index) ≡ lookup key m.name_index =
        lookup-remove name key m.name_index ∙ rw f refl in
      let out : find m key ≡ (if text_eq name key then none else find m key) = rw f refl in
      elim (find-cases m key h) [
        | inl (e, n) ↦ find-none (taken name idx m) key (look ∙ e) ∙ sym n ∙ out
        | inr (i, c, e, g, n, k) ↦
            let (d, g', n') = (h name idx).0 l in
            let kept : get_elem? (set m.plugins idx none) i ≡ some (some c) =
              get_elem?-set_ne m.plugins none (λ j. text_eq-false name key f (ground arith)) ∙ g in
            find-some (taken name idx m) key (look ∙ e) kept ∙ sym k ∙ out
      ]
]

-- Either the name of the plugin is free: the load succeeds, the plugin is found under its name and every
-- other name finds what it found before. Or it is in use: it is refused as a duplicate and nothing changes.
pub register_lem :
    (b : Backend) (m : PluginManager)
    → Indexed m
    → ((find m (name_of b) ≡ none)
        × ((register b m).0 ≡ ok b)
        × ((key : Text)
            → find (register b m).1 key ≡ (if text_eq (name_of b) key then some b else find m key)))
      ⊎ ((c : Backend) × (find m (name_of b) ≡ some c)
          × (register b m ≡ (err (duplicate_name (name_of b)), m)))
register_lem b m h = elim (find-cases m (name_of b) h) [
  | inl (e, n) ↦ inl (
    n,
    ap (λ r. r.0) (register-free b m e),
    λ key. ap (λ r. find r.1 key) (register-free b m e) ∙ find-pushed b m key h,
  )
  | inr (i, c, e, g, n, k) ↦ inr (c, k, register-taken b m e)
]

-- Either the name is found: it is unloaded and found no more, every other name finds what it found
-- before, and its plugin alone is dropped. Or it is not found: it is refused and nothing changes.
unload_lem :
    (name : Text) (m : PluginManager)
    → Indexed m
    → ((b : Backend) × (find m name ≡ some b)
        × ((unload name m).0 ≡ ok tt)
        × ((key : Text)
            → find (unload name m).1 key ≡ (if text_eq name key then none else find m key))
        × ((unload name m).1.destroyed ≡ drop_backend (some b) m.destroyed))
      ⊎ ((find m name ≡ none) × (unload name m ≡ (err (not_found name), m)))
unfolding take_slot
unload_lem name m h = elim (find-cases m name h) [
  | inl (e, n) ↦ inr (n, unload-none name m e)
  | inr (i, b, e, g, n, k) ↦ inl (
    b,
    k,
    ap (λ r. r.0) (unload-some name m e),
    λ key. ap (λ r. find r.1 key) (unload-some name m e) ∙ find-taken name i m key h e,
    ap (λ r. r.1.destroyed) (unload-some name m e)
        ∙ ap (λ s. drop_backend (slot_of s) m.destroyed) g,
  )
]

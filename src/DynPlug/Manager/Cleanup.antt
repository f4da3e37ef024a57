-- ===== src/DynPlug/Manager/Cleanup.antt =====
-- crates/dynplug/src/manager.rs: which plugins are destroyed, and in which order.
use pixi_ai.Common.{
  ℕ, zero, suc, ◌≡◌, refl, sym, ap, ◌∙◌, Option, none, some, List, [], ◌∷◌, ◌++◌, length, get_elem?,
  set, take, Text,
}
use pixi_ai.DynPlug.Manager.{Backend, native, wasm, PluginManager, drop_backend, slot_of}
use pixi_ai.DynPlug.Manager.Calls.{take_slot, take_down, unload_all}

-- The names of the native plugins with a table, in the order of their slots.
abbrev pub destroyable : List (Option Backend) → List Text
destroyable [] = []
destroyable (none ∷ ps) = destroyable ps
destroyable (some (wasm name call) ∷ ps) = destroyable ps
destroyable (some (native name lib none) ∷ ps) = destroyable ps
destroyable (some (native name lib (some vt)) ∷ ps) = name ∷ destroyable ps

destroyable-drop :
    (p : Option Backend) (ps : List (Option Backend)) (log : List Text)
    → destroyable (p ∷ ps) ++ log ≡ drop_backend p (destroyable ps ++ log)
destroyable-drop none ps log = refl
destroyable-drop (some (wasm name call)) ps log = refl
destroyable-drop (some (native name lib none)) ps log = refl
destroyable-drop (some (native name lib (some vt))) ps log = refl

-- Taking one slot more destroys its plugin first.
destroyable-take :
    (ps : List (Option Backend)) (i : ℕ) (log : List Text)
    → destroyable (take (suc i) ps) ++ log
      ≡ destroyable (take i (set ps i none)) ++ drop_backend (slot_of (get_elem? ps i)) log
destroyable-take [] zero log = refl
destroyable-take [] (suc i) log = refl
destroyable-take (p ∷ ps) zero log = destroyable-drop p [] log
destroyable-take (p ∷ ps) (suc i) log =
    destroyable-drop p (take (suc i) ps) log
    ∙ ap (drop_backend p) (destroyable-take ps i log)
    ∙ sym
        (destroyable-drop p (take i (set ps i none)) (drop_backend (slot_of (get_elem? ps i)) log))

take_down-destroyed :
    (n : ℕ) (m : PluginManager)
    → (take_down n m).destroyed ≡ destroyable (take n m.plugins) ++ m.destroyed
unfolding take_down take_slot
take_down-destroyed zero m = refl
take_down-destroyed (suc i) m =
    take_down-destroyed i (take_slot i m) ∙ sym (destroyable-take m.plugins i m.destroyed)

take-length {ℓ} : {A : Type ℓ} (xs : List A) → take (length xs) xs ≡ xs
take-length [] = refl
take-length (x ∷ xs) = ap (◌∷◌ x) (take-length xs)

-- `unload_all` leaves no name and no slot, and destroys each loaded native plugin that has a table
-- once, the last loaded first: the log, newest first, gets their names in the order of loading.
pub unload_all_lem :
    (m : PluginManager)
    → unload_all m
      ≡ record { name_index = []; plugins = []; destroyed = destroyable m.plugins ++ m.destroyed }
unfolding unload_all
unload_all_lem m =
    ap (λ log. record { name_index = []; plugins = []; destroyed = log })
      (take_down-destroyed (length m.plugins) m
        ∙ ap (λ ps. destroyable ps ++ m.destroyed) (take-length m.plugins))

-- ===== src/DynPlug/Manager/Runs.antt =====
-- crates/dynplug/src/manager.rs: any sequence of the manager's operations.
use pixi_ai.Common.{
  ℕ, ◌+◌, ◌≡◌, refl, sym, subst, Bool, true, false, Bool-cases, Option-cases, inl, inr, Option,
  none, some, List, [], ◌∷◌, ◌++◌, arith, if◌then◌else◌, Text, codes,
}
use pixi_ai.DynPlug.Manager.{
  System, PluginManager, PluginError, load, Backend, native, wasm, Result, ok, err, new, register,
  load_file, load_wasm, load_wasm_manifest, or_unknown, native_name, lookup,
}
use pixi_ai.DynPlug.Manager.Calls.{
  unload, unload_all, load_entry, load_entries, load_from_directory, load_from_directories,
  try_load_auto, load_paths, counted, text_is,
}
use pixi_ai.DynPlug.Manager.Invariant.{Indexed, new-Indexed, register-Indexed, unload-Indexed}
use pixi_ai.DynPlug.Manager.Cleanup.{destroyable, unload_all_lem}

-- One call of a manager that starts empty.
pub data Reachable (sys : System) : PluginManager → Type 0 where
  start : Reachable sys new
  by_file :
      {m : PluginManager} (path : Text) → Reachable sys m → Reachable sys (load_file sys path m).1
  by_wasm :
      {m : PluginManager} (path : Text) → Reachable sys m → Reachable sys (load_wasm sys path m).1
  by_manifest :
      {m : PluginManager} (name manifest : Text)
      → Reachable sys m
      → Reachable sys (load_wasm_manifest sys name manifest m).1
  by_directory :
      {m : PluginManager} (dir : Text)
      → Reachable sys m
      → Reachable sys (load_from_directory sys dir m).1
  by_directories :
      {m : PluginManager} (dirs : List Text)
      → Reachable sys m
      → Reachable sys (load_from_directories sys dirs 0 m).1
  by_paths :
      {m : PluginManager} (paths : List Text)
      → Reachable sys m
      → Reachable sys (load_paths sys paths 0 m).1
  by_unload : {m : PluginManager} (name : Text) → Reachable sys m → Reachable sys (unload name m).1
  by_unload_all : {m : PluginManager} → Reachable sys m → Reachable sys (unload_all m)

counted-manager : (r : Result Backend × PluginManager) → (counted r).1 ≡ r.1
counted-manager (ok b, m) = refl
counted-manager (err e, m) = refl

-- A load opens something that may be missing, and registers what it makes of it.
opened-Indexed {ℓ} :
    {A : Type ℓ} (o : Option A) (f : A → Backend) (e : PluginError) (m : PluginManager)
    → Indexed m
    → Indexed
        (elim o as (λ _. Result Backend × PluginManager) [
          | none ↦ (err e, m)
          | some a ↦ register (f a) m
        ]).1
opened-Indexed none f e m h = h
opened-Indexed (some a) f e m h = register-Indexed (f a) m h

-- A directory's error ends the walk.
after-directory :
    (r : Result ℕ × PluginManager) (f : ℕ → PluginManager → Result ℕ × PluginManager)
    → Indexed r.1
    → ((n : ℕ) (m : PluginManager) → Indexed m → Indexed (f n m).1)
    → Indexed
        (elim r.0 as (λ _. Result ℕ × PluginManager) [ err e ↦ (err e, r.1) | ok n ↦ f n r.1 ]).1
after-directory (err e, m) f h k = h
after-directory (ok n, m) f h k = k n m h

empty-Indexed :
    (log : List Text) → Indexed (record { name_index = []; plugins = []; destroyed = log })
unfolding lookup
empty-Indexed log name i = (λ e. absurd (ground arith), λ (b, e, n). absurd (ground arith))

module _ (sys : System) where
  load_file-Indexed :
      (path : Text) (m : PluginManager) → Indexed m → Indexed (load_file sys path m).1
  unfolding load_file
  load_file-Indexed path m h =
      opened-Indexed (sys.open_library path)
        (λ entry. native (native_name sys path entry) (record { path = path; entry = entry }) entry)
        (load path) m h

  load_wasm-Indexed :
      (path : Text) (m : PluginManager) → Indexed m → Indexed (load_wasm sys path m).1
  unfolding load_wasm
  load_wasm-Indexed path m h =
      opened-Indexed (sys.open_wasm path) (λ call. wasm (or_unknown (sys.file_stem path)) call)
        (load path) m h

  load_wasm_manifest-Indexed :
      (name manifest : Text) (m : PluginManager)
      → Indexed m
      → Indexed (load_wasm_manifest sys name manifest m).1
  unfolding load_wasm_manifest
  load_wasm_manifest-Indexed name manifest m h =
      opened-Indexed (sys.open_wasm manifest) (λ call. wasm name call)
        (load (codes "<manifest:" ++ (name ++ codes ">"))) m h

  counted-if :
      (b : Bool) (r : Result Backend × PluginManager) (m : PluginManager)
      → Indexed m
      → Indexed r.1
      → Indexed (if b then counted r else (0, m)).1
  counted-if true (ok c, m') m h k = k
  counted-if true (err e, m') m h k = k
  counted-if false r m h k = h

  load_entry-Indexed :
      (e : Option Text) (m : PluginManager) → Indexed m → Indexed (load_entry sys e m).1
  unfolding load_entry
  load_entry-Indexed none m h = h
  load_entry-Indexed (some path) m h = elim (Bool-cases (sys.is_file path)) [
    | inr f ↦ rw f h
    | inl t ↦
        let native_file = text_is (sys.extension path) sys.lib_extension in
        let k = counted-if native_file (load_file sys path m) m h (load_file-Indexed path m h) in
        rw t (
          counted-if (text_is (sys.extension path) (codes "wasm")) (load_wasm sys path _) _ k
            (load_wasm-Indexed path _ k))
  ]

  load_entries-Indexed :
      (es : List (Option Text)) (m : PluginManager) → Indexed m → Indexed (load_entries sys es m).1
  unfolding load_entries
  load_entries-Indexed [] m h = h
  load_entries-Indexed (e ∷ es) m h =
      load_entries-Indexed es (load_entry sys e m).1 (load_entry-Indexed e m h)

  load_from_directory-Indexed :
      (dir : Text) (m : PluginManager) → Indexed m → Indexed (load_from_directory sys dir m).1
  unfolding load_from_directory
  load_from_directory-Indexed dir m h = elim (Option-cases (sys.read_dir dir)) [
    | inl e ↦ rw (e, load_from_directory) h
    | inr (es, e) ↦ rw (e, load_from_directory) (load_entries-Indexed es m h)
  ]

  load_from_directories-Indexed :
      (dirs : List Text) (total : ℕ) (m : PluginManager)
      → Indexed m
      → Indexed (load_from_directories sys dirs total m).1
  unfolding load_from_directories
  load_from_directories-Indexed [] total m h = h
  load_from_directories-Indexed (dir ∷ dirs) total m h =
      after-directory (load_from_directory sys dir m)
        (λ n m. load_from_directories sys dirs (total + n) m) (load_from_directory-Indexed dir m h)
        (λ n m. load_from_directories-Indexed dirs (total + n) m)

  try_load_auto-Indexed :
      (path : Text) (m : PluginManager) → Indexed m → Indexed (try_load_auto sys path m).1
  unfolding try_load_auto
  try_load_auto-Indexed path m h = elim (Bool-cases (text_is (sys.extension path) (codes "wasm"))) [
    | inl t ↦ rw t (load_wasm-Indexed path m h)
    | inr f ↦ rw f (load_file-Indexed path m h)
  ]

  load_paths-Indexed :
      (paths : List Text) (count : ℕ) (m : PluginManager)
      → Indexed m
      → Indexed (load_paths sys paths count m).1
  unfolding load_paths
  load_paths-Indexed [] count m h = h
  load_paths-Indexed (path ∷ paths) count m h = elim (Bool-cases (sys.is_dir path)) [
    | inl d ↦ rw d (
        after-directory (load_from_directory sys path m) (λ n m. load_paths sys paths (count + n) m)
          (load_from_directory-Indexed path m h) (λ n m. load_paths-Indexed paths (count + n) m))
    | inr d ↦ elim (Bool-cases (sys.is_file path)) [
      | inl f ↦
          rw (d, f)
            (load_paths-Indexed paths _ _ (
              subst Indexed (sym (counted-manager (try_load_auto sys path m)))
                (try_load_auto-Indexed path m h)))
      | inr f ↦ rw (d, f) (load_paths-Indexed paths count m h)
    ]
  ]

  -- After any calls of the public operations on a new manager, a name has an index exactly where the
  -- slot of that index holds a plugin of that name.
  pub Reachable-Indexed : (m : PluginManager) → Reachable sys m → Indexed m
  Reachable-Indexed _ start = new-Indexed
  Reachable-Indexed _ (by_file {m} path r) = load_file-Indexed path m (Reachable-Indexed m r)
  Reachable-Indexed _ (by_wasm {m} path r) = load_wasm-Indexed path m (Reachable-Indexed m r)
  Reachable-Indexed _ (by_manifest {m} name manifest r) =
      load_wasm_manifest-Indexed name manifest m (Reachable-Indexed m r)
  Reachable-Indexed _ (by_directory {m} dir r) =
      load_from_directory-Indexed dir m (Reachable-Indexed m r)
  Reachable-Indexed _ (by_directories {m} dirs r) =
      load_from_directories-Indexed dirs 0 m (Reachable-Indexed m r)
  Reachable-Indexed _ (by_paths {m} paths r) = load_paths-Indexed paths 0 m (Reachable-Indexed m r)
  Reachable-Indexed _ (by_unload {m} name r) = unload-Indexed name m (Reachable-Indexed m r)
  Reachable-Indexed _ (by_unload_all {m} r) =
      subst Indexed (sym (unload_all_lem m)) (empty-Indexed (destroyable m.plugins ++ m.destroyed))

-- ===== src/DynPlug/Manager.antt =====
-- crates/dynplug/src/manager.rs, with what native.rs, wasm.rs and loader.rs do for it.
-- The operating system, libloading and extism are the record `System`; `destroyed` logs the calls of a
-- plugin's `destroy`, the newest first. A plugin's own memory is its own: a call is a function of its input.
pub mod Calls
pub mod Invariant
pub mod Names
pub mod Cleanup
pub mod Runs
use pixi_ai.Common.{
  ℕ, suc, ◌+◌, Bool, true, false, ◌&&◌, not, Option, none, some, List, [], ◌∷◌, ◌++◌, map,
  if◌then◌else◌, length, get_elem?, set, drop, ◌==◌, Text, codes, text_eq, filter_map,
}
use pixi_ai.Common.Int.{ℤ, pos, negsuc}

abbrev pub Bytes : Type 0
Bytes = List ℕ

pub data PluginError : Type 0 where
  load : Text → PluginError
  not_found : Text → PluginError
  invoke_error : Bytes → PluginError
  unexpected_code : ℤ → PluginError
  panic : PluginError
  duplicate_name : Text → PluginError
  io : PluginError

pub data Result {ℓ} (A : Type ℓ) : Type ℓ where
  ok : A → Result A
  err : PluginError → Result A

-- A return code and the output buffer, if any.
pub record Reply : Type 0 where
  pub code : ℤ
  pub out : Option Bytes

-- `name` as it is read from the C string.
pub record VTable : Type 0 where
  pub vt_name : Text
  pub vt_invoke : Text → Bytes → Reply

pub record LoadedLibrary : Type 0 where
  pub path : Text
  pub entry : Option VTable

pub data Backend : Type 0 where
  native : Text → LoadedLibrary → Option VTable → Backend
  wasm : Text → (Text → Bytes → Result Bytes) → Backend

-- What the plugins are loaded from. `open_library` gives the table that `plugin_entry` returns, if any.
pub record System : Type 0 where
  pub open_library : Text → Option (Option VTable)
  pub open_wasm : Text → Option (Text → Bytes → Result Bytes)
  pub file_stem : Text → Option Text
  pub extension : Text → Option Text
  pub lib_prefix : Text
  pub lib_extension : Text
  pub is_file : Text → Bool
  pub is_dir : Text → Bool
  pub read_dir : Text → Option (List (Option Text))

pub record PluginManager : Type 0 where
  pub name_index : List (Text × ℕ)
  pub plugins : List (Option Backend)
  pub destroyed : List Text

abbrev pub name_of : Backend → Text
name_of (native name lib vtable) = name
name_of (wasm name call) = name

abbrev pub kind : Backend → Text
kind (native name lib vtable) = codes "native"
kind (wasm name call) = codes "wasm"

abbrev pub library : Backend → Option LoadedLibrary
library (native name lib vtable) = some lib
library (wasm name call) = none

-- The name index is a map: a key is looked up, inserted in front, and removed wherever it is.
unfoldable pub lookup : Text → List (Text × ℕ) → Option ℕ
lookup name [] = none
lookup name ((key, idx) ∷ index) = if text_eq key name then some idx else lookup name index

unfoldable pub remove : Text → List (Text × ℕ) → List (Text × ℕ)
remove name [] = []
remove name ((key, idx) ∷ index) =
    if text_eq key name then remove name index else (key, idx) ∷ remove name index

-- `Drop` of a backend: a native plugin with a table is destroyed.
abbrev pub drop_backend : Option Backend → List Text → List Text
drop_backend (some (native name lib (some vt))) log = name ∷ log
drop_backend (some (native name lib none)) log = log
drop_backend (some (wasm name call)) log = log
drop_backend none log = log

-- `plugins[idx]` where a slot is in bounds.
abbrev pub slot_of : Option (Option Backend) → Option Backend
slot_of none = none
slot_of (some slot) = slot

unfoldable pub new : PluginManager
new = record { name_index = []; plugins = []; destroyed = [] }

-- The end of `load_file`, `load_wasm` and `load_wasm_manifest`.
unfoldable pub register : Backend → PluginManager → Result Backend × PluginManager
register b m = elim (lookup (name_of b) m.name_index) [
  | some idx ↦ (err (duplicate_name (name_of b)), m)
  | none ↦ (
    ok b,
    record m {
      name_index = (name_of b, length m.plugins) ∷ m.name_index;
      plugins = m.plugins ++ (some b ∷ []);
    },
  )
]

abbrev pub starts_with : Text → Text → Bool
starts_with s [] = true
starts_with [] (c ∷ p) = false
starts_with (d ∷ s) (c ∷ p) = (d == c) && starts_with s p

abbrev pub or_unknown : Option Text → Text
or_unknown none = codes "unknown"
or_unknown (some s) = s

abbrev pub is_empty : Text → Bool
is_empty [] = true
is_empty (c ∷ s) = false

unfoldable pub derive_name_from_path : System → Text → Text
derive_name_from_path sys path =
    let stem = or_unknown (sys.file_stem path) in
    if not (is_empty sys.lib_prefix) && starts_with stem sys.lib_prefix
    then drop (length sys.lib_prefix) stem
    else stem

-- A table's name, or one made from the path.
abbrev pub native_name : System → Text → Option VTable → Text
native_name sys path (some vt) = vt.vt_name
native_name sys path none = derive_name_from_path sys path

unfoldable pub load_file : System → Text → PluginManager → Result Backend × PluginManager
load_file sys path m = elim (sys.open_library path) [
  | none ↦ (err (load path), m)
  | some entry ↦
      register (native (native_name sys path entry) (record { path = path; entry = entry }) entry) m
]

unfoldable pub load_wasm : System → Text → PluginManager → Result Backend × PluginManager
load_wasm sys path m = elim (sys.open_wasm path) [
  | none ↦ (err (load path), m)
  | some call ↦ register (wasm (or_unknown (sys.file_stem path)) call) m
]

-- The name is the caller's; the manifest stands for its module's path.
unfoldable pub load_wasm_manifest :
    System → Text → Text → PluginManager → Result Backend × PluginManager
load_wasm_manifest sys name manifest m = elim (sys.open_wasm manifest) [
  | none ↦ (err (load (codes "<manifest:" ++ (name ++ codes ">"))), m)
  | some call ↦ register (wasm name call) m
]

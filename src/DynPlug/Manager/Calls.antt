-- ===== src/DynPlug/Manager/Calls.antt =====
-- crates/dynplug/src/manager.rs: calling, listing, unloading and loading whole directories.
use pixi_ai.Common.{
  ℕ, zero, suc, ◌+◌, Bool, Option, none, some, List, [], ◌∷◌, map, if◌then◌else◌, length, get_elem?,
  set, Text, codes, text_eq,
}
use pixi_ai.Common.Int.{pos, negsuc}
use pixi_ai.DynPlug.Manager.{
  Bytes, not_found, invoke_error, unexpected_code, panic, io, Result, ok, err, Reply, LoadedLibrary,
  Backend, native, wasm, System, PluginManager, kind, library, lookup, remove, drop_backend,
  slot_of, load_file, load_wasm,
}

abbrev pub or_nothing : Option Bytes → Bytes
or_nothing none = []
or_nothing (some out) = out

abbrev pub message : Option Bytes → Bytes
message none = codes "unknown error"
message (some []) = codes "unknown error"
message (some (b ∷ out)) = b ∷ out

-- `NativeBackend::invoke`: 0 is the output, -1 an error with a message, -2 a panic.
abbrev pub read_reply : Reply → Result Bytes
read_reply r = elim r.code [
  | pos zero ↦ ok (or_nothing r.out)
  | negsuc zero ↦ err (invoke_error (message r.out))
  | negsuc (suc zero) ↦ err panic
  | c ↦ err (unexpected_code c)
]

abbrev pub call_backend : Backend → Text → Bytes → Result Bytes
call_backend (native name lib none) method input = err (invoke_error (codes "plugin has no VTable"))
call_backend (native name lib (some vt)) method input = read_reply (vt.vt_invoke method input)
call_backend (wasm name call) method input = call method input

-- The slot that the index names.
unfoldable pub find : PluginManager → Text → Option Backend
find m name = elim (lookup name m.name_index) [
  | none ↦ none
  | some idx ↦ slot_of (get_elem? m.plugins idx)
]

unfoldable pub invoke : PluginManager → Text → Text → Bytes → Result Bytes
unfolding find
invoke m name method input = elim (find m name) [
  | none ↦ err (not_found name)
  | some b ↦ call_backend b method input
]

unfoldable pub get : PluginManager → Text → Option LoadedLibrary
unfolding find
get m name = elim (find m name) [ none ↦ none | some b ↦ library b ]

unfoldable pub plugin_kind : PluginManager → Text → Option Text
unfolding find
plugin_kind m name = elim (find m name) [ none ↦ none | some b ↦ some (kind b) ]

abbrev pub names : PluginManager → List Text
names m = map (λ (name, idx). name) m.name_index

-- The libraries of the native plugins, in the order of their slots.
unfoldable pub libraries : List (Option Backend) → List LoadedLibrary
libraries [] = []
libraries (none ∷ slots) = libraries slots
libraries (some (native name lib vtable) ∷ slots) = lib ∷ libraries slots
libraries (some (wasm name call) ∷ slots) = libraries slots

-- `take` on a slot, whose backend is dropped.
unfoldable pub take_slot : ℕ → PluginManager → PluginManager
take_slot idx m = record m {
  plugins = set m.plugins idx none;
  destroyed = drop_backend (slot_of (get_elem? m.plugins idx)) m.destroyed;
}

unfoldable pub unload : Text → PluginManager → Result (Unit {0}) × PluginManager
unfolding take_slot
unload name m = elim (lookup name m.name_index) [
  | none ↦ (err (not_found name), m)
  | some idx ↦ (ok tt, take_slot idx (record m { name_index = remove name m.name_index }))
]

-- `for i in (0..n).rev()`.
unfoldable pub take_down : ℕ → PluginManager → PluginManager
unfolding take_slot
take_down zero m = m
take_down (suc i) m = take_down i (take_slot i m)

unfoldable pub unload_all : PluginManager → PluginManager
unfolding take_down
unload_all m = record (take_down (length m.plugins) m) { name_index = []; plugins = [] }

abbrev pub counted : Result Backend × PluginManager → ℕ × PluginManager
counted (ok b, m) = (1, m)
counted (err e, m) = (0, m)

abbrev pub text_is : Option Text → Text → Bool
text_is none t = text_eq [] t
text_is (some s) t = text_eq s t

-- One directory entry: a file with the platform's extension, or `.wasm`.
unfoldable pub load_entry : System → Option Text → PluginManager → ℕ × PluginManager
load_entry sys none m = (0, m)
load_entry sys (some path) m =
    if sys.is_file path
    then (let (n, m) =
          if text_is (sys.extension path) sys.lib_extension
          then counted (load_file sys path m)
          else (0, m) in
        let (k, m) =
          if text_is (sys.extension path) (codes "wasm")
          then counted (load_wasm sys path m)
          else (0, m) in
        (n + k, m))
    else (0, m)

unfoldable pub load_entries : System → List (Option Text) → PluginManager → ℕ × PluginManager
unfolding load_entry
load_entries sys [] m = (0, m)
load_entries sys (e ∷ es) m =
    let (n, m) = load_entry sys e m in let (k, m) = load_entries sys es m in (n + k, m)

unfoldable pub load_from_directory : System → Text → PluginManager → Result ℕ × PluginManager
unfolding load_entries
load_from_directory sys dir m = elim (sys.read_dir dir) [
  | none ↦ (err io, m)
  | some entries ↦ let (n, m) = load_entries sys entries m in (ok n, m)
]

-- The first directory whose listing fails ends the walk with its error.
unfoldable pub load_from_directories :
    System → List Text → ℕ → PluginManager → Result ℕ × PluginManager
unfolding load_from_directory
load_from_directories sys [] total m = (ok total, m)
load_from_directories sys (dir ∷ dirs) total m =
    let (r, m) = load_from_directory sys dir m in
    elim r [ err e ↦ (err e, m) | ok n ↦ load_from_directories sys dirs (total + n) m ]

unfoldable pub try_load_auto : System → Text → PluginManager → Result Backend × PluginManager
try_load_auto sys path m =
    if text_is (sys.extension path) (codes "wasm")
    then load_wasm sys path m
    else load_file sys path m

-- A directory whose listing fails ends the walk with its error.
unfoldable pub load_paths : System → List Text → ℕ → PluginManager → Result ℕ × PluginManager
unfolding load_from_directory try_load_auto
load_paths sys [] count m = (ok count, m)
load_paths sys (path ∷ paths) count m =
    if sys.is_dir path
    then (let (r, m) = load_from_directory sys path m in
        elim r [ err e ↦ (err e, m) | ok n ↦ load_paths sys paths (count + n) m ])
    else if sys.is_file path
    then (let (n, m) = counted (try_load_auto sys path m) in load_paths sys paths (count + n) m)
    else load_paths sys paths count m

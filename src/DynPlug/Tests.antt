-- ===== src/DynPlug/Tests.antt =====
-- The theorems about crates/dynplug at concrete inputs.
use pixi_ai.Common.{◌≡◌, ◌⊎◌, true, false, none, some, if◌then◌else◌, Text, codes, text_eq}
use pixi_ai.Common.Int.{pos}
use pixi_ai.DynPlug.Manager.{
  System, PluginManager, VTable, Backend, wasm, ok, err, duplicate_name, new, register, load_file,
  name_of,
}
use pixi_ai.DynPlug.Manager.Calls.{find}
use pixi_ai.DynPlug.Manager.Invariant.{Indexed}
use pixi_ai.DynPlug.Manager.Names.{register_lem}
use pixi_ai.DynPlug.Manager.Runs.{Reachable, start, by_file, Reachable-Indexed}

abbrev greeter : VTable
greeter = record {
  vt_name = codes "greeter";
  vt_invoke = λ method input. record { code = pos 0; out = some input };
}

-- One library, with a table, at every path.
abbrev disk : System
disk = record {
  open_library = λ path. some (some greeter);
  open_wasm = λ path. none;
  file_stem = λ path. some path;
  extension = λ path. none;
  lib_prefix = codes "lib";
  lib_extension = codes "so";
  is_file = λ path. true;
  is_dir = λ path. false;
  read_dir = λ path. none;
}

abbrev loaded : PluginManager
loaded = (load_file disk (codes "libgreeter.so") new).1

loaded-Reachable : Reachable disk loaded
loaded-Reachable = by_file (codes "libgreeter.so") start

Reachable-Indexed_example : Indexed loaded
Reachable-Indexed_example = Reachable-Indexed disk loaded loaded-Reachable

loaded-Indexed : Indexed loaded
loaded-Indexed = Reachable-Indexed disk loaded loaded-Reachable

abbrev adder : Backend
adder = wasm (codes "adder") (λ method input. ok input)

register_lem_example :
    ((find loaded (name_of adder) ≡ none)
      × ((register adder loaded).0 ≡ ok adder)
      × ((key : Text)
          → find (register adder loaded).1 key
            ≡ (if text_eq (name_of adder) key then some adder else find loaded key)))
    ⊎ ((c : Backend) × (find loaded (name_of adder) ≡ some c)
        × (register adder loaded ≡ (err (duplicate_name (name_of adder)), loaded)))
register_lem_example = register_lem adder loaded loaded-Indexed

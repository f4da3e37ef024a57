-- ===== src/Plugin/Server.antt =====
-- crates/go-plugin/src/server.rs: the version that a plugin serves. `S` is a set of plugins; the result
-- is never an error, so it is given bare.
pub mod Highest
pub mod Least
use mathlib.Core.Option
use pixi_ai.Common.{ℕ, Option, none, some, List, [], ◌∷◌, leb, ◌==◌, if◌then◌else◌, Text}
use pixi_ai.Plugin.Protocol.{parse_version_list, contains}

-- The part of `ServeConfig` that is read here; the versioned sets are a map.
pub record ServeConfig (S : Type 0) : Type 0 where
  pub protocol_version : ℕ
  pub plugins : S
  pub versioned_plugins : List (ℕ × S)

abbrev pub keys : {S : Type 0} → List (ℕ × S) → List ℕ
keys [] = []
keys ((v, s) ∷ table) = v ∷ keys table

unfoldable pub get : {S : Type 0} → ℕ → List (ℕ × S) → Option S
get v [] = none
get v ((k, s) ∷ table) = if k == v then some s else get v table

abbrev pub or_else : {S : Type 0} → S → Option S → S
or_else d none = d
or_else d (some s) = s

unfoldable pub insert : ℕ → List ℕ → List ℕ
insert v [] = v ∷ []
insert v (x ∷ xs) = if leb v x then v ∷ x ∷ xs else x ∷ insert v xs

-- `sort_unstable`.
unfoldable pub sort : List ℕ → List ℕ
unfolding insert
sort [] = []
sort (v ∷ vs) = insert v (sort vs)

abbrev pub smaller : ℕ → Option ℕ → ℕ
smaller v none = v
smaller v (some w) = if leb v w then v else w

-- `keys().min()`.
unfoldable pub least : List ℕ → Option ℕ
least [] = none
least (v ∷ vs) = some (smaller v (least vs))

abbrev pub or_this : List ℕ → ℕ → Option ℕ → Option ℕ
or_this host v (some w) = some w
or_this host v none = if contains host v then some v else none

-- The loop over the sorted versions from the end: the last that the host offers.
unfoldable pub last_offered : List ℕ → List ℕ → Option ℕ
last_offered host [] = none
last_offered host (v ∷ vs) = or_this host v (last_offered host vs)

module _ {S : Type 0} (default : S) where
  -- The host's list is the value of `PLUGIN_PROTOCOL_VERSIONS`, if it is set.
  abbrev pub without_list : ServeConfig S → ℕ × S
  without_list c =
      let v = or_else c.protocol_version (least (keys c.versioned_plugins)) in
      (v, or_else default (get v c.versioned_plugins))

  abbrev pub with_list : ServeConfig S → List ℕ → ℕ × S
  with_list c host = elim (last_offered host (sort (keys c.versioned_plugins))) [
    | some v ↦ (v, or_else c.plugins (get v c.versioned_plugins))
    | none ↦ (c.protocol_version, c.plugins)
  ]

  unfoldable pub negotiate_server_version : Option Text → ServeConfig S → ℕ × S
  unfolding last_offered sort least get
  negotiate_server_version env c = elim (c.versioned_plugins) [
    | [] ↦ (c.protocol_version, c.plugins)
    | ◌∷◌ entry table ↦ elim env [
      | none ↦ without_list c
      | some s ↦ with_list c (parse_version_list s)
    ]
  ]

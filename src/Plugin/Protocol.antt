-- ===== src/Plugin/Protocol.antt =====
-- crates/go-plugin/src/protocol.rs and error.rs: the line that a plugin prints for its host.
-- The message in an error is left out where it only words the input again.
pub mod RoundTrip
pub mod Bounds
pub mod Versions
use mathlib.Core.Option
use pixi_ai.Common.{
  ℕ, suc, ◌≤◌, Bool, true, false, not, Option, none, some, List, [], ◌∷◌, ◌++◌, map, ltb, ◌==◌,
  if◌then◌else◌, length, get_elem?, Text, codes, text_eq,
}
use pixi_ai.Common.Split.{split, join, trim}
use pixi_ai.Common.Decimal.{to_string, parse_u32}

pub data PluginError : Type 0 where
  negotiation : PluginError
  magic_cookie_mismatch : Text → PluginError
  core_protocol_version_mismatch : ℕ → ℕ → PluginError
  no_compatible_version : List ℕ → ℕ → PluginError

pub data Result {ℓ} (A : Type ℓ) : Type ℓ where
  ok : A → Result A
  err : PluginError → Result A

infixl 5 ◌>>=◌
abbrev pub ◌>>=◌ {ℓ κ} : {A : Type ℓ} {B : Type κ} → Result A → (A → Result B) → Result B
ok a >>= f = f a
err e >>= f = err e

abbrev pub core_protocol_version : ℕ
core_protocol_version = 1

pub data Protocol : Type 0 where
  grpc net_rpc : Protocol

abbrev pub as_str : Protocol → Text
as_str grpc = codes "grpc"
as_str net_rpc = codes "netrpc"

-- `Protocol::from_str`.
unfoldable pub from_str : Text → Result Protocol
unfolding text_eq
from_str s =
    if text_eq s (codes "grpc")
    then ok grpc
    else if text_eq s (codes "netrpc")
    then ok net_rpc
    else err negotiation

pub record HandshakeConfig : Type 0 where
  pub protocol_version : ℕ
  pub magic_cookie_key : Text
  pub magic_cookie_value : Text

-- The environment is a function from a variable to its value.
unfoldable pub validate_magic_cookie : (Text → Option Text) → HandshakeConfig → Result (Unit {0})
validate_magic_cookie env h = elim (env h.magic_cookie_key) [
  | none ↦ err (magic_cookie_mismatch h.magic_cookie_key)
  | some value ↦
      if text_eq value h.magic_cookie_value
      then ok tt
      else err (magic_cookie_mismatch h.magic_cookie_key)
]

pub record ServerNegotiationLine : Type 0 where
  pub core_version : ℕ
  pub app_version : ℕ
  pub network : Text
  pub address : Text
  pub protocol : Protocol
  pub server_cert : Option Text
  pub mux_supported : Bool

abbrev pub version_or_err : Option ℕ → Result ℕ
version_or_err none = err negotiation
version_or_err (some n) = ok n

abbrev pub is_empty : Text → Bool
is_empty [] = true
is_empty (c ∷ s) = false

-- `parts.get(5)`, where an empty certificate is none.
abbrev pub cert_field : Option Text → Option Text
cert_field none = none
cert_field (some s) = if is_empty s then none else some s

abbrev pub mux_field : Option Text → Bool
mux_field none = false
mux_field (some s) = text_eq s (codes "true")

-- At least five fields, the optional ones in `more`.
unfoldable pub parse_fields : List Text → Result ServerNegotiationLine
unfolding from_str
parse_fields (core ∷ app ∷ network ∷ address ∷ protocol ∷ more) = do
  core_version ← version_or_err (parse_u32 core)
  app_version ← version_or_err (parse_u32 app)
  protocol ← from_str protocol
  ok (record {
    core_version = core_version;
    app_version = app_version;
    network = network;
    address = address;
    protocol = protocol;
    server_cert = cert_field (get_elem? more 0);
    mux_supported = mux_field (get_elem? more 1);
  })
parse_fields few = err negotiation

unfoldable pub parse : Text → Result ServerNegotiationLine
unfolding parse_fields
parse line = parse_fields (split b'|' (trim line))

abbrev pub or_empty : Option Text → Text
or_empty none = []
or_empty (some s) = s

abbrev pub bar : Text
bar = b'|' ∷ []

abbrev pub base_fields : ServerNegotiationLine → List Text
base_fields l =
    to_string l.core_version
    ∷ to_string l.app_version
    ∷ l.network
    ∷ l.address
    ∷ as_str l.protocol
    ∷ []

-- The three formats of `encode`.
unfoldable pub encode : ServerNegotiationLine → Text
unfolding join
encode l =
    let cert = or_empty l.server_cert in
    if l.mux_supported
    then join bar (base_fields l ++ (cert ∷ codes "true" ∷ []))
    else if not (is_empty cert)
    then join bar (base_fields l ++ (cert ∷ []))
    else join bar (base_fields l)

unfoldable pub validate_core_version : ServerNegotiationLine → Result (Unit {0})
validate_core_version l =
    if l.core_version == core_protocol_version
    then ok tt
    else err (core_protocol_version_mismatch core_protocol_version l.core_version)

unfoldable pub contains : List ℕ → ℕ → Bool
contains [] v = false
contains (x ∷ xs) v = if x == v then true else contains xs v

unfoldable pub negotiate_version : List ℕ → ℕ → Result ℕ
unfolding contains
negotiate_version host_versions plugin_version =
    if contains host_versions plugin_version
    then ok plugin_version
    else err (no_compatible_version host_versions plugin_version)

unfoldable pub encode_version_list : List ℕ → Text
encode_version_list versions = join (b',' ∷ []) (map to_string versions)

abbrev pub collect : List (Option ℕ) → List ℕ
collect [] = []
collect (none ∷ vs) = collect vs
collect (some v ∷ vs) = v ∷ collect vs

unfoldable pub parse_version_list : Text → List ℕ
parse_version_list s = collect (map (λ v. parse_u32 (trim v)) (split b',' s))

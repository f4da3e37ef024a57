-- ===== src/Plugin/Client.antt =====
-- crates/go-plugin/src/client.rs and runner.rs: how the host starts a plugin, and ends it.
-- What is not this repository's is an argument: `Host` tells what the file system, the operating system
-- and the connection give. `X` is a set of plugin factories, `G` a connected client, `K` certificates,
-- `A` a socket address. Log lines and the threads that copy the plugin's output are left out.
pub mod Checksum
pub mod Starting
pub mod Environment
use pixi_ai.Common.{
  ℕ, ◌+◌, Bool, true, false, not, Option, none, some, List, [], ◌∷◌, ◌++◌, map, if◌then◌else◌, ◌==◌,
  Text, codes, text_eq,
}
use pixi_ai.Common.Decimal.{to_string}
use pixi_ai.Plugin.Secure
use pixi_ai.Plugin.Secure.{SecureConfig, SecureError, check}
use pixi_ai.Plugin.Server.{sort, keys}
use pixi_ai.Plugin.Protocol
use pixi_ai.Plugin.Protocol.{
  PluginError, negotiation, Protocol, grpc, HandshakeConfig, ServerNegotiationLine, parse,
  validate_core_version, negotiate_version, encode_version_list,
}

-- `panicked` where the check of the binary panics.
pub data ClientError : Type 0 where
  bad_sources no_certificate start_timeout subprocess not_connected panicked : ClientError
  unsafe : SecureError → ClientError
  handshake : PluginError → ClientError

pub data Result {ℓ} (A : Type ℓ) : Type ℓ where
  ok : A → Result A
  err : ClientError → Result A

-- `CmdRunner`, with its environment as a list of variables.
pub record CmdRunner : Type 0 where
  pub cmd : Text
  pub args : List Text
  pub vars : List (Text × Text)
  pub dir : Option Text

pub set_var : Text → Text → List (Text × Text) → List (Text × Text)
set_var k v [] = (k, v) ∷ []
set_var k v ((j, w) ∷ vars) = if text_eq j k then (k, v) ∷ vars else (j, w) ∷ set_var k v vars

pub get_var : Text → List (Text × Text) → Option Text
get_var k [] = none
get_var k ((j, w) ∷ vars) = if text_eq j k then some w else get_var k vars

-- `CmdRunner::env`.
abbrev pub env : Text → Text → CmdRunner → CmdRunner
env k v c = record c { vars = set_var k v c.vars }

pub data PluginAddr (A : Type 0) : Type 0 where
  unix : Text → PluginAddr A
  tcp : A → PluginAddr A

pub record ReattachConfig (A : Type 0) : Type 0 where
  pub protocol : Protocol
  pub protocol_version : ℕ
  pub addr : PluginAddr A
  pub pid : ℕ

pub record ClientConfig (X A : Type 0) : Type 0 where
  pub handshake_config : HandshakeConfig
  pub plugins : X
  pub versioned_plugins : List (ℕ × X)
  pub cmd : Option CmdRunner
  pub reattach : Option (ReattachConfig A)
  pub auto_mtls : Bool
  pub secure_config : Option SecureConfig
  pub min_port : ℕ
  pub max_port : ℕ

pub record Client (X G K A : Type 0) : Type 0 where
  pub config : ClientConfig X A
  pub child : Option ℕ
  pub grpc_client : Option G
  pub negotiated_version : Option ℕ
  pub address : Option (PluginAddr A)
  pub exited : Bool
  pub mtls : Option K

-- What starting a process gives in the time allowed: its id, an error, or nothing yet.
pub data Spawned : Type 0 where
  started : ℕ → Spawned
  failed late : Spawned

pub record Host (X G K A : Type 0) : Type 0 where
  pub empty : X
  pub read : Text → Option (List ℕ)
  pub hash : List ℕ → List ℕ
  pub generate : Option K
  pub ca_cert_base64 : K → Text
  pub spawn : CmdRunner → Spawned
  pub first_line : ℕ → Option Text
  pub parse_addr : Text → Option A
  pub print_addr : A → Text
  pub connect : Text → X → Option G

-- What a call does outside.
pub data Effect : Type 0 where
  spawned : CmdRunner → Effect
  connected : Text → Effect
  kills : ℕ → Effect

abbrev pub env_min_port : Text
env_min_port = codes "PLUGIN_MIN_PORT"

abbrev pub env_max_port : Text
env_max_port = codes "PLUGIN_MAX_PORT"

abbrev pub env_protocol_versions : Text
env_protocol_versions = codes "PLUGIN_PROTOCOL_VERSIONS"

abbrev pub env_client_cert : Text
env_client_cert = codes "PLUGIN_CLIENT_CERT"

abbrev pub versions_or : ℕ → List ℕ → List ℕ
versions_or v [] = v ∷ []
versions_or v (w ∷ ws) = sort (w ∷ ws)

abbrev pub lift : {B : Type 0} → Protocol.Result B → Result B
lift (Protocol.ok b) = ok b
lift (Protocol.err e) = err (handshake e)

abbrev pub one_of : {A : Type 0} → Option CmdRunner → Option (ReattachConfig A) → Bool
one_of none none = false
one_of none (some r) = true
one_of (some cmd) none = true
one_of (some cmd) (some r) = false

abbrev pub kill_child : Option ℕ → List Effect
kill_child none = []
kill_child (some pid) = kills pid ∷ []

abbrev pub pid_or_zero : Option ℕ → ℕ
pid_or_zero none = 0
pid_or_zero (some pid) = pid

abbrev pub reattach_from :
    {A : Type 0} → Option (PluginAddr A) → Option ℕ → Option ℕ → Option (ReattachConfig A)
reattach_from none version child = none
reattach_from (some a) none child = none
reattach_from (some a) (some v) child =
    some (record { protocol = grpc; protocol_version = v; addr = a; pid = pid_or_zero child })

-- The client after a call, what was done outside, and the result.
abbrev pub Out : (X G K A : Type 0) → Type 0
Out X G K A = Client X G K A × (List Effect × Result (Unit {0}))

module _ {X G K A : Type 0} where
  abbrev pub new : ClientConfig X A → Client X G K A
  new config = record {
    config = config;
    child = none;
    grpc_client = none;
    negotiated_version = none;
    address = none;
    exited = false;
    mtls = none;
  }

  abbrev pub supported_versions : Client X G K A → List ℕ
  supported_versions c =
      versions_or c.config.handshake_config.protocol_version (keys c.config.versioned_plugins)

  module _ (h : Host X G K A) where
    abbrev pub address_of : PluginAddr A → Text
    address_of (unix path) = path
    address_of (tcp a) = h.print_addr a

    abbrev pub tcp_or : Option A → Protocol.Result (PluginAddr A)
    tcp_or none = Protocol.err negotiation
    tcp_or (some a) = Protocol.ok (tcp a)

    -- `PluginAddr::parse`.
    abbrev pub addr_from : (network address : Text) → Protocol.Result (PluginAddr A)
    addr_from network address =
        if text_eq network (codes "unix")
        then Protocol.ok (unix address)
        else if text_eq network (codes "tcp")
        then tcp_or (h.parse_addr address)
        else Protocol.err negotiation

    abbrev pub joined : Client X G K A → List Effect → Option G → Out X G K A
    joined c es none = (c, (es, err not_connected))
    joined c es (some g) = (record c { grpc_client = some g }, (es, ok tt))

    -- The plugins go to the connection; the configuration keeps none.
    abbrev pub connect_grpc : Text → Client X G K A → List Effect → Out X G K A
    connect_grpc addr c es =
        joined (record c { config = record c.config { plugins = h.empty } })
          (es ++ (connected addr ∷ [])) (h.connect addr c.config.plugins)

    abbrev pub reattach_to : ReattachConfig A → Client X G K A → Out X G K A
    reattach_to r c =
        connect_grpc (address_of r.addr)
          (record c { negotiated_version = some r.protocol_version; address = some r.addr }) []

    abbrev pub addressed :
        ℕ
        → ServerNegotiationLine
        → Client X G K A
        → List Effect
        → Result (PluginAddr A)
        → Out X G K A
    addressed pid l c es (err e) = (c, (es, err e))
    addressed pid l c es (ok a) =
        connect_grpc l.address (record c { address = some a; child = some pid }) es

    -- The line is checked for the core version, then for a version that the host offers.
    abbrev pub agreed :
        ℕ
        → ServerNegotiationLine
        → Client X G K A
        → List Effect
        → Protocol.Result (Unit {0})
        → Protocol.Result ℕ
        → Out X G K A
    agreed pid l c es (Protocol.err e) v = (c, (es, err (handshake e)))
    agreed pid l c es (Protocol.ok u) (Protocol.err e) = (c, (es, err (handshake e)))
    agreed pid l c es (Protocol.ok u) (Protocol.ok v) =
        addressed pid l (record c { negotiated_version = some l.app_version }) es
          (lift (addr_from l.network l.address))

    abbrev pub negotiated :
        ℕ → Client X G K A → List Effect → Protocol.Result ServerNegotiationLine → Out X G K A
    negotiated pid c es (Protocol.err e) = (c, (es, err (handshake e)))
    negotiated pid c es (Protocol.ok l) =
        agreed pid l c es (validate_core_version l)
          (negotiate_version (supported_versions c) l.app_version)

    abbrev pub first_said : ℕ → Client X G K A → List Effect → Option Text → Out X G K A
    first_said pid c es none = (c, (es, err (handshake negotiation)))
    first_said pid c es (some line) = negotiated pid c es (parse line)

    abbrev pub running : Client X G K A → List Effect → Spawned → Out X G K A
    running c es (started pid) = first_said pid c es (h.first_line pid)
    running c es failed = (c, (es, err subprocess))
    running c es late = (c, (es, err start_timeout))

    abbrev pub with_cert : Option K → CmdRunner → CmdRunner
    with_cert none cmd = cmd
    with_cert (some k) cmd = env env_client_cert (h.ca_cert_base64 k) cmd

    -- The command with the variables that the plugin reads.
    unfoldable pub launch : Client X G K A → CmdRunner → CmdRunner
    launch c cmd =
        let config = c.config in
        let named =
          env config.handshake_config.magic_cookie_key config.handshake_config.magic_cookie_value
            cmd in
        let ported =
          env env_max_port (to_string config.max_port)
            (env env_min_port (to_string config.min_port) named) in
        with_cert c.mtls
          (env env_protocol_versions (encode_version_list (supported_versions c)) ported)

    abbrev pub spawn_with : CmdRunner → Client X G K A → Out X G K A
    spawn_with cmd c = let cmd = launch c cmd in running c (spawned cmd ∷ []) (h.spawn cmd)

    abbrev pub certified : CmdRunner → Client X G K A → Option K → Out X G K A
    certified cmd c none = (c, ([], err no_certificate))
    certified cmd c (some k) = spawn_with cmd (record c { mtls = some k })

    abbrev pub secured : CmdRunner → Client X G K A → Secure.Result (Unit {0}) → Out X G K A
    secured cmd c (Secure.err e) = (c, ([], err (unsafe e)))
    secured cmd c Secure.panicked = (c, ([], err panicked))
    secured cmd c (Secure.ok u) =
        if c.config.auto_mtls then certified cmd c h.generate else spawn_with cmd c

    abbrev pub passes : CmdRunner → Option SecureConfig → Secure.Result (Unit {0})
    passes cmd none = Secure.ok tt
    passes cmd (some s) = check h.read h.hash s cmd.cmd

    -- The command is taken out of the configuration.
    abbrev pub start_cmd : CmdRunner → Client X G K A → Out X G K A
    start_cmd cmd c =
        secured cmd (record c { config = record c.config { cmd = none } })
          (passes cmd c.config.secure_config)

    abbrev pub from_source :
        Option (ReattachConfig A) → Option CmdRunner → Client X G K A → Out X G K A
    from_source (some r) cmd c = reattach_to r c
    from_source none none c = (c, ([], err bad_sources))
    from_source none (some cmd) c = start_cmd cmd c

    unfoldable pub start : Client X G K A → Out X G K A
    unfolding launch
    start c =
        if one_of c.config.cmd c.config.reattach
        then from_source c.config.reattach c.config.cmd c
        else (c, ([], err bad_sources))

  -- A child that exits in time is not killed. The `shutdown` of the connection's client, which comes before
  -- it and whose errors are ignored, is left out.
  unfoldable pub kill : Bool → Client X G K A → Client X G K A × List Effect
  kill exits c = (record c { exited = true }, if exits then [] else kill_child c.child)

  -- `Drop::drop`.
  abbrev pub drop : Client X G K A → List Effect
  drop c = kill_child c.child

  abbrev pub reattach_config : Client X G K A → Option (ReattachConfig A)
  reattach_config c = reattach_from c.address c.negotiated_version c.child

-- ===== src/Plugin/ClientTests.antt =====
-- The theorems about crates/go-plugin/src/client.rs at concrete inputs.
use pixi_ai.Common.{inl, ℕ, ◌≡◌, refl, true, false, none, some, [], ◌∷◌, arith, codes, text_eq}
use pixi_ai.Plugin.Secure.{checked}
use pixi_ai.Plugin.Protocol
use pixi_ai.Plugin.Protocol.{negotiation, HandshakeConfig, validate_magic_cookie}
use pixi_ai.Plugin.Server.{ServeConfig, negotiate_server_version, sort}
use pixi_ai.Plugin.Client.{
  Client, ClientConfig, Host, CmdRunner, err, bad_sources, started, start, launch, kill, drop,
  supported_versions, new, env_protocol_versions,
}
use pixi_ai.Plugin.Client.Starting.{Spawns, start-orphan, start-start}
use pixi_ai.Plugin.Client.Checksum.{Cleared, start-Cleared}
use pixi_ai.Plugin.Client.Environment.{child_env, Agrees, launch-Agrees}

-- A plugin that starts and says nothing.
abbrev host : Host ℕ ℕ ℕ ℕ
host = record {
  empty = 0;
  read = λ path. none;
  hash = λ bytes. bytes;
  generate = some 1;
  ca_cert_base64 = λ k. codes "MIIB";
  spawn = λ cmd. started 42;
  first_line = λ pid. none;
  parse_addr = λ t. none;
  print_addr = λ a. [];
  connect = λ addr plugins. none;
}

abbrev command : CmdRunner
command = record { cmd = codes "greeter"; args = []; vars = []; dir = none }

abbrev config : ClientConfig ℕ ℕ
config = record {
  handshake_config = record {
    protocol_version = 1;
    magic_cookie_key = codes "COOKIE";
    magic_cookie_value = codes "hello";
  };
  plugins = 7;
  versioned_plugins = (3, 30) ∷ (2, 20) ∷ [];
  cmd = some command;
  reattach = none;
  auto_mtls = true;
  secure_config = none;
  min_port = 10000;
  max_port = 25000;
}

abbrev client : Client ℕ ℕ ℕ ℕ
client = new config

start-orphan_example :
    Spawns (start host client).1.0
    × ((kill false (start host client).0).1 ≡ [])
    × (drop (start host client).0 ≡ [])
unfolding start
start-orphan_example = start-orphan host client negotiation false refl refl

start-start_example :
    start host (start host client).0 ≡ ((start host client).0, ([], err bad_sources))
start-start_example = start-start host client refl

-- A host that reads the program, whose checksum the second client asks for.
abbrev reading_host : Host ℕ ℕ ℕ ℕ
reading_host = record host { read = λ path. some (7 ∷ 7 ∷ []) }

abbrev careful : Client ℕ ℕ ℕ ℕ
careful = new (record config { secure_config = some (record { checksum = 7 ∷ 7 ∷ [] }) })

start-Cleared_example :
    Cleared
      (launch reading_host (record careful { mtls = some 1 }) command)
      reading_host
      none
      (some command)
      (some (record { checksum = 7 ∷ 7 ∷ [] }))
      (launch reading_host (record careful { mtls = some 1 }) command).cmd
unfolding start checked
start-Cleared_example =
    start-Cleared (launch reading_host (record careful { mtls = some 1 }) command) reading_host
      careful (inl refl)

abbrev server : ServeConfig ℕ
server = record { protocol_version = 1; plugins = 10; versioned_plugins = (2, 200) ∷ (4, 400) ∷ [] }

launch-Agrees_example :
    (validate_magic_cookie
        (child_env (λ k. none) (launch host client command))
        config.handshake_config
      ≡ Protocol.ok tt)
    × Agrees host server (supported_versions client) (
        negotiate_server_version 0
          (child_env (λ k. none) (launch host client command) env_protocol_versions)
          server)
unfolding text_eq sort
launch-Agrees_example =
    launch-Agrees host client command (λ k. none) 0 server (refl, refl, refl, refl)
      (omega arith, (omega arith, tt))

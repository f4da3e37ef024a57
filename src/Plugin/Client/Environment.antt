-- ===== src/Plugin/Client/Environment.antt =====
-- crates/go-plugin/src/{client,server,protocol}.rs: the environment in which the host starts a plugin,
-- and what the plugin makes of it.
use pixi_ai.Common.{
  ℕ, ◌<◌, ◌≡◌, refl, sym, ap, subst, ◌∙◌, false, Option, none, some, List, [], ◌∷◌, inl, inr,
  if◌then◌else◌, Text, text_eq, text_eq_refl, text_eq_iff, All, u32_mod, arith,
}
use pixi_ai.Plugin.Server.{ServeConfig, keys, negotiate_server_version}
use pixi_ai.Plugin.Server.Highest.{Served, negotiate_server_version-Served}
use pixi_ai.Plugin.Protocol
use pixi_ai.Plugin.Protocol.{
  HandshakeConfig, validate_magic_cookie, encode_version_list, parse_version_list,
  negotiate_version, contains,
}
use pixi_ai.Plugin.Protocol.Versions.{Offers, contains-Offers, parse_version_list-encode}
use pixi_ai.Plugin.Client.{
  Client, Host, CmdRunner, set_var, get_var, env, env_min_port, env_max_port, env_protocol_versions,
  env_client_cert, with_cert, launch, supported_versions,
}

-- The variable that was set is read, and the others are as before.
get_var-set_var :
    (j k v : Text) (vars : List (Text × Text))
    → get_var j (set_var k v vars) ≡ (if text_eq k j then some v else get_var j vars)
unfolding get_var set_var
get_var-set_var j k v [] = refl
get_var-set_var j k v ((i, w) ∷ vars) =
    ground (arith, text_eq_iff k j, text_eq_iff i k, text_eq_iff i j, get_var-set_var j k v vars)

get_var-set_self : (k v : Text) (vars : List (Text × Text)) → get_var k (set_var k v vars) ≡ some v
get_var-set_self k v vars =
    get_var-set_var k k v vars ∙ ap (λ b. if b then some v else get_var k vars) (text_eq_refl k)

get_var-set_other :
    (j k v : Text) (vars : List (Text × Text))
    → text_eq k j ≡ false
    → get_var j (set_var k v vars) ≡ get_var j vars
get_var-set_other j k v vars h =
    get_var-set_var j k v vars ∙ ap (λ b. if b then some v else get_var j vars) h

-- A process sees the variables that it is given, and else those of its parent. That a system does not
-- read back a variable whose name is empty or has an equals sign in it is not modelled.
abbrev pub or_outer : (Text → Option Text) → Text → Option Text → Option Text
or_outer outer k none = outer k
or_outer outer k (some v) = some v

abbrev pub child_env : (Text → Option Text) → CmdRunner → Text → Option Text
child_env outer cmd k = or_outer outer k (get_var k cmd.vars)

-- The key of the cookie is none of the variables that the host sets itself.
abbrev pub IsOwn : Text → Type 0
IsOwn key =
    (text_eq env_min_port key ≡ false)
    × (text_eq env_max_port key ≡ false)
    × (text_eq env_protocol_versions key ≡ false)
    × (text_eq env_client_cert key ≡ false)

module _ {X G K A : Type 0} (h : Host X G K A) where
  vars-with_cert :
      (o : Option K) (cmd : CmdRunner) (k : Text)
      → text_eq env_client_cert k ≡ false
      → get_var k (with_cert h o cmd).vars ≡ get_var k cmd.vars
  vars-with_cert none cmd k e = refl
  vars-with_cert (some c) cmd k e = get_var-set_other k env_client_cert _ cmd.vars e

  launch-cookie :
      (c : Client X G K A) (cmd : CmdRunner)
      → IsOwn c.config.handshake_config.magic_cookie_key
      → get_var c.config.handshake_config.magic_cookie_key (launch h c cmd).vars
        ≡ some c.config.handshake_config.magic_cookie_value
  unfolding launch
  launch-cookie c cmd (a, b, d, e) =
      let key = c.config.handshake_config.magic_cookie_key in
      vars-with_cert c.mtls _ key e
      ∙ get_var-set_other key env_protocol_versions _ _ d
      ∙ get_var-set_other key env_max_port _ _ b
      ∙ get_var-set_other key env_min_port _ _ a
      ∙ get_var-set_self key _ cmd.vars

  launch-versions :
      (c : Client X G K A) (cmd : CmdRunner)
      → get_var env_protocol_versions (launch h c cmd).vars
        ≡ some (encode_version_list (supported_versions c))
  unfolding launch text_eq
  launch-versions c cmd =
      vars-with_cert c.mtls _ env_protocol_versions refl
      ∙ get_var-set_self env_protocol_versions _ _

  validated :
      (env : Text → Option Text) (hs : HandshakeConfig)
      → env hs.magic_cookie_key ≡ some hs.magic_cookie_value
      → validate_magic_cookie env hs ≡ Protocol.ok tt
  unfolding validate_magic_cookie
  validated env hs e = rw (e, validate_magic_cookie) (rw (text_eq_refl hs.magic_cookie_value) refl)

  -- The version that the plugin chooses, and whether the host agrees to it.
  abbrev pub Agrees : {S : Type 0} → ServeConfig S → List ℕ → ℕ × S → Type 0
  Agrees server host (v, plugins) =
      Served server host (v, plugins)
      × ((w : ℕ)
          → Offers host w
          → Offers (keys server.versioned_plugins) w
          → negotiate_version host v ≡ Protocol.ok v)

  agrees :
      {S : Type 0} (server : ServeConfig S) (host : List ℕ) (r : ℕ × S)
      → Served server host r
      → Agrees server host r
  unfolding negotiate_version
  agrees server host (v, s) (inl (of, g)) =
      (inl (of, g), λ w a b. rw ((contains-Offers host v).1 of.1) refl)
  agrees server host (v, s) (inr (no_one, e, f)) =
      (inr (no_one, e, f), λ w a b. absurd (no_one w b a))

  -- A plugin that the host starts with a cookie under a name of its own and u32 versions finds the
  -- host's cookie, serves the highest version that both sides have, and the host agrees to that version
  -- where there is one.
  pub launch-Agrees :
      {S : Type 0} (c : Client X G K A) (cmd : CmdRunner) (outer : Text → Option Text) (default : S)
      (server : ServeConfig S)
      → IsOwn c.config.handshake_config.magic_cookie_key
      → All (λ v. v < u32_mod) (supported_versions c)
      → (validate_magic_cookie (child_env outer (launch h c cmd)) c.config.handshake_config
          ≡ Protocol.ok tt)
        × Agrees server (supported_versions c) (
            negotiate_server_version default
              (child_env outer (launch h c cmd) env_protocol_versions)
              server)
  launch-Agrees c cmd outer default server own small = (
    validated (child_env outer (launch h c cmd)) c.config.handshake_config
        (ap (or_outer outer _) (launch-cookie c cmd own)),
    agrees server (supported_versions c) _ (
        subst
          (λ o. Served server (supported_versions c) (negotiate_server_version default o server))
          (sym (ap (or_outer outer env_protocol_versions) (launch-versions c cmd)))
          (subst
            (λ host. Served server host (
              negotiate_server_version default (some (encode_version_list (supported_versions c)))
                server))
            (parse_version_list-encode (supported_versions c) small)
            (negotiate_server_version-Served default (encode_version_list (supported_versions c))
              server))),
  )

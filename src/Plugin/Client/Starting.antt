-- ===== src/Plugin/Client/Starting.antt =====
-- crates/go-plugin/src/client.rs: what `start` leaves behind.
use pixi_ai.Common.{
  ℕ, ◌≡◌, refl, ap, ◌∙◌, Bool, Option, none, some, List, [], ◌∷◌, if-both, if◌then◌else◌, Text,
}
use pixi_ai.Plugin.Secure
use pixi_ai.Plugin.Protocol
use pixi_ai.Plugin.Protocol.{
  PluginError, ServerNegotiationLine, parse, validate_core_version, negotiate_version,
}
use pixi_ai.Plugin.Client.{
  Client, ReattachConfig, Host, CmdRunner, Effect, spawned, connected, kills, Out, err, handshake,
  bad_sources, Spawned, started, failed, late, lift, PluginAddr, joined, addressed, agreed,
  negotiated, first_said, running, launch, certified, secured, passes, from_source, one_of, start,
  drop, kill, kill_child, addr_from, supported_versions, address_of,
}

-- A process was started.
abbrev pub Spawns : List Effect → Type 0
Spawns [] = ⊥
Spawns (spawned cmd ∷ es) = Unit
Spawns (connected addr ∷ es) = Spawns es
Spawns (kills pid ∷ es) = Spawns es

module _ {X G K A : Type 0} where
  -- The sources are those of `c`; an error of the handshake comes after a process was started, and
  -- leaves the child as it was.
  abbrev Kept : Client X G K A → Out X G K A → Type 0
  Kept c (d, (es, r)) =
      (d.config.cmd ≡ c.config.cmd)
      × (d.config.reattach ≡ c.config.reattach)
      × ((e : PluginError) → r ≡ err (handshake e) → Spawns es × (d.child ≡ c.child))

  module _ (h : Host X G K A) (c : Client X G K A) where
    joined-Kept :
        (d : Client X G K A) (es : List Effect) (o : Option G)
        → d.config.cmd ≡ c.config.cmd
        → d.config.reattach ≡ c.config.reattach
        → Kept c (joined h d es o)
    joined-Kept d es none p q = (p, q, λ e k. cc)
    joined-Kept d es (some g) p q = (p, q, λ e k. cc)

    module _ (pid : ℕ) (es : List Effect) (s : Spawns es) where
      addressed-Kept :
          (l : ServerNegotiationLine) (v : Option ℕ) (r : Protocol.Result (PluginAddr A))
          → Kept c (addressed h pid l (record c { negotiated_version = v }) es (lift r))
      addressed-Kept l v (Protocol.err e) = (refl, refl, λ e k. (s, refl))
      addressed-Kept l v (Protocol.ok a) =
          joined-Kept _ _ (h.connect l.address c.config.plugins) refl refl

      agreed-Kept :
          (l : ServerNegotiationLine) (u : Protocol.Result (Unit {0})) (v : Protocol.Result ℕ)
          → Kept c (agreed h pid l c es u v)
      agreed-Kept l (Protocol.err e) v = (refl, refl, λ e k. (s, refl))
      agreed-Kept l (Protocol.ok u) (Protocol.err e) = (refl, refl, λ e k. (s, refl))
      agreed-Kept l (Protocol.ok u) (Protocol.ok v) =
          addressed-Kept l (some l.app_version) (addr_from h l.network l.address)

      negotiated-Kept :
          (r : Protocol.Result ServerNegotiationLine) → Kept c (negotiated h pid c es r)
      negotiated-Kept (Protocol.err e) = (refl, refl, λ e k. (s, refl))
      negotiated-Kept (Protocol.ok l) =
          agreed-Kept l (validate_core_version l)
            (negotiate_version (supported_versions c) l.app_version)

      first_said-Kept : (line : Option Text) → Kept c (first_said h pid c es line)
      first_said-Kept none = (refl, refl, λ e k. (s, refl))
      first_said-Kept (some line) = negotiated-Kept (parse line)

    running-Kept : (es : List Effect) (p : Spawned) → Spawns es → Kept c (running h c es p)
    running-Kept es (started pid) s = first_said-Kept pid es s (h.first_line pid)
    running-Kept es failed s = (refl, refl, λ e k. cc)
    running-Kept es late s = (refl, refl, λ e k. cc)

  module _ (h : Host X G K A) where
    certified-Kept :
        (cmd : CmdRunner) (c : Client X G K A) (k : Option K) → Kept c (certified h cmd c k)
    certified-Kept cmd c none = (refl, refl, λ e k. cc)
    certified-Kept cmd c (some k) =
        running-Kept h (record c { mtls = some k }) _
          (h.spawn (launch h (record c { mtls = some k }) cmd)) tt

    secured-Kept :
        (cmd : CmdRunner) (c : Client X G K A) (r : Secure.Result (Unit {0}))
        → Kept c (secured h cmd c r)
    secured-Kept cmd c (Secure.err e) = (refl, refl, λ e k. cc)
    secured-Kept cmd c Secure.panicked = (refl, refl, λ e k. cc)
    secured-Kept cmd c (Secure.ok u) =
        if-both (Kept c) c.config.auto_mtls (certified-Kept cmd c h.generate)
          (running-Kept h c _ (h.spawn (launch h c cmd)) tt)

    -- The same of the whole, where the command is used up.
    abbrev Left : Client X G K A → Option (ReattachConfig A) → Out X G K A → Type 0
    Left c r (d, (es, x)) =
        (d.config.reattach ≡ r)
        × (r ≡ none → d.config.cmd ≡ none)
        × ((e : PluginError) → x ≡ err (handshake e) → Spawns es × (d.child ≡ c.child))

    from_source-Left :
        (r : Option (ReattachConfig A)) (cmd : Option CmdRunner) (c : Client X G K A)
        → c.config.reattach ≡ r
        → c.config.cmd ≡ cmd
        → Left c r (if one_of cmd r then from_source h r cmd c else (c, ([], err bad_sources)))
    from_source-Left none none c p q = (p, λ _. q, λ e k. cc)
    from_source-Left (some r) none c p q =
        let (a, b, x) =
          joined-Kept h c _ _ (h.connect (address_of h r.addr) c.config.plugins) refl refl in
        (b ∙ p, λ n. cc, x)
    from_source-Left none (some cmd) c p q =
        let (a, b, x) =
          secured-Kept cmd (record c { config = record c.config { cmd = none } })
            (passes h cmd c.config.secure_config) in
        (b ∙ p, λ _. a, x)
    from_source-Left (some r) (some cmd) c p q = (p, λ n. cc, λ e k. cc)

    start-Left : (c : Client X G K A) → Left c c.config.reattach (start h c)
    unfolding start
    start-Left c = from_source-Left c.config.reattach c.config.cmd c refl refl

    -- Where starting a client that has no child fails in the handshake, a process has been started that
    -- neither killing nor dropping the client ends.
    pub start-orphan :
        (c : Client X G K A) (e : PluginError) (exits : Bool)
        → c.child ≡ none
        → (start h c).1.1 ≡ err (handshake e)
        → Spawns (start h c).1.0 × ((kill exits (start h c).0).1 ≡ []) × (drop (start h c).0 ≡ [])
    unfolding kill
    start-orphan c e exits n k =
        let (p, q, x) = start-Left c in
        let (s, same) = x e k in
        let gone = ap kill_child (same ∙ n) in
        (s, if-both (λ (es : List Effect). es ≡ []) exits refl gone, gone)

    -- A client with a command and no process to attach to is started once: a second start fails and
    -- changes nothing, whether the first one succeeded or not.
    pub start-start :
        (c : Client X G K A)
        → c.config.reattach ≡ none
        → start h (start h c).0 ≡ ((start h c).0, ([], err bad_sources))
    unfolding start
    start-start c n =
        let (p, q, x) = start-Left c in
        let d = (start h c).0 in
        ap
          (λ r.
            if one_of d.config.cmd r
            then from_source h r d.config.cmd d
            else (d, ([], err bad_sources)))
          (p ∙ n)
        ∙ ap
            (λ r.
              if one_of {A = A} r none then from_source h none r d else (d, ([], err bad_sources)))
            (q n)

-- ===== src/Plugin/Client/Checksum.antt =====
-- crates/go-plugin/src/client.rs with secure.rs: which program `start` runs.
use pixi_ai.Common.{
  ℕ, ◌≡◌, refl, sym, subst, ap, ◌∙◌, ◌⊎◌, inl, inr, Option, none, some, List, [], ◌∷◌, ◌++◌,
  if-both, if◌then◌else◌, Text,
}
use pixi_ai.Plugin.Secure
use pixi_ai.Plugin.Secure.{SecureConfig}
use pixi_ai.Plugin.Secure.Compare.{check_iff}
use pixi_ai.Plugin.Protocol
use pixi_ai.Plugin.Protocol.{ServerNegotiationLine, parse, validate_core_version, negotiate_version}
use pixi_ai.Plugin.Client.{
  Client, ReattachConfig, Host, CmdRunner, Effect, spawned, connected, kills, Out, err, bad_sources,
  Spawned, started, failed, late, lift, PluginAddr, joined, addressed, agreed, negotiated,
  first_said, running, launch, with_cert, certified, secured, passes, from_source, one_of, start,
  addr_from, supported_versions, address_of,
}

-- A process was started with this command.
abbrev pub Starts : CmdRunner → List Effect → Type 0
Starts p [] = ⊥
Starts p (spawned cmd ∷ es) = (p ≡ cmd) ⊎ Starts p es
Starts p (connected addr ∷ es) = Starts p es
Starts p (kills pid ∷ es) = Starts p es

module _ (p : CmdRunner) where
  Starts-connected :
      (es : List Effect) (addr : Text) → Starts p (es ++ (connected addr ∷ [])) → Starts p es
  Starts-connected [] addr s = s
  Starts-connected (spawned cmd ∷ es) addr (inl e) = inl e
  Starts-connected (spawned cmd ∷ es) addr (inr s) = inr (Starts-connected es addr s)
  Starts-connected (connected a ∷ es) addr s = Starts-connected es addr s
  Starts-connected (kills pid ∷ es) addr s = Starts-connected es addr s

  module _ {X G K A : Type 0} (h : Host X G K A) where
    -- No process beside those of `es` is started.
    abbrev Only : List Effect → Out X G K A → Type 0
    Only es (d, (fs, r)) = Starts p fs → Starts p es

    joined-Only :
        (d : Client X G K A) (es : List Effect) (addr : Text) (o : Option G)
        → Only es (joined h d (es ++ (connected addr ∷ [])) o)
    joined-Only d es addr none = Starts-connected es addr
    joined-Only d es addr (some g) = Starts-connected es addr

    module _ (pid : ℕ) (c : Client X G K A) (es : List Effect) where
      addressed-Only :
          (l : ServerNegotiationLine) (v : Option ℕ) (r : Protocol.Result (PluginAddr A))
          → Only es (addressed h pid l (record c { negotiated_version = v }) es (lift r))
      addressed-Only l v (Protocol.err e) = λ s. s
      addressed-Only l v (Protocol.ok a) =
          joined-Only _ es l.address (h.connect l.address c.config.plugins)

      agreed-Only :
          (l : ServerNegotiationLine) (u : Protocol.Result (Unit {0})) (v : Protocol.Result ℕ)
          → Only es (agreed h pid l c es u v)
      agreed-Only l (Protocol.err e) v = λ s. s
      agreed-Only l (Protocol.ok u) (Protocol.err e) = λ s. s
      agreed-Only l (Protocol.ok u) (Protocol.ok v) =
          addressed-Only l (some l.app_version) (addr_from h l.network l.address)

      negotiated-Only :
          (r : Protocol.Result ServerNegotiationLine) → Only es (negotiated h pid c es r)
      negotiated-Only (Protocol.err e) = λ s. s
      negotiated-Only (Protocol.ok l) =
          agreed-Only l (validate_core_version l)
            (negotiate_version (supported_versions c) l.app_version)

      first_said-Only : (line : Option Text) → Only es (first_said h pid c es line)
      first_said-Only none = λ s. s
      first_said-Only (some line) = negotiated-Only (parse line)

    running-Only :
        (c : Client X G K A) (es : List Effect) (o : Spawned) → Only es (running h c es o)
    running-Only c es (started pid) = first_said-Only pid c es (h.first_line pid)
    running-Only c es failed = λ s. s
    running-Only c es late = λ s. s

    with_cert-program : (o : Option K) (cmd : CmdRunner) → (with_cert h o cmd).cmd ≡ cmd.cmd
    with_cert-program none cmd = refl
    with_cert-program (some k) cmd = refl

    launch-program : (c : Client X G K A) (cmd : CmdRunner) → (launch h c cmd).cmd ≡ cmd.cmd
    unfolding launch
    launch-program c cmd = with_cert-program c.mtls _

    spawned-program :
        (c : Client X G K A) (cmd : CmdRunner)
        → Starts p (running h c (spawned (launch h c cmd) ∷ []) (h.spawn (launch h c cmd))).1.0
        → p.cmd ≡ cmd.cmd
    spawned-program c cmd s = elim (running-Only c _ (h.spawn (launch h c cmd)) s) [
      | inl e ↦ ap (λ (q : CmdRunner). q.cmd) e ∙ launch-program c cmd
      | inr none_left ↦ absurd none_left
    ]

    certified-program :
        (cmd : CmdRunner) (c : Client X G K A) (k : Option K)
        → Starts p (certified h cmd c k).1.0
        → p.cmd ≡ cmd.cmd
    certified-program cmd c none s = absurd s
    certified-program cmd c (some k) s = spawned-program (record c { mtls = some k }) cmd s

    secured-program :
        (cmd : CmdRunner) (c : Client X G K A) (r : Secure.Result (Unit {0}))
        → Starts p (secured h cmd c r).1.0
        → (p.cmd ≡ cmd.cmd) × (r ≡ Secure.ok tt)
    secured-program cmd c (Secure.err e) s = absurd s
    secured-program cmd c Secure.panicked s = absurd s
    secured-program cmd c (Secure.ok u) s = (
      if-both (λ (o : Out X G K A). Starts p o.1.0 → p.cmd ≡ cmd.cmd) c.config.auto_mtls
          (certified-program cmd c h.generate) (spawned-program c cmd) s,
      refl,
    )

    -- There is no checksum, or the file of the program is read and hashes to it.
    abbrev pub Verified : Option SecureConfig → Text → Type 0
    Verified secure program =
        (secure ≡ none)
        ⊎ ((s : SecureConfig) × (bytes : List ℕ) × (secure ≡ some s)
            × (h.read program ≡ some bytes)
            × (h.hash bytes ≡ s.checksum))

    passes-Verified :
        (cmd : CmdRunner) (secure : Option SecureConfig)
        → passes h cmd secure ≡ Secure.ok tt
        → Verified secure cmd.cmd
    passes-Verified cmd none e = inl refl
    passes-Verified cmd (some s) e =
        let (bytes, reads, same) = (check_iff h.read h.hash s cmd.cmd).0 e in
        inr (s, bytes, refl, reads, same)

    -- The program is that of the command, which is the one source of the plugin, and it is verified.
    abbrev pub Cleared :
        Option (ReattachConfig A) → Option CmdRunner → Option SecureConfig → Text → Type 0
    Cleared r cmd secure program =
        (r ≡ none)
        × (source : CmdRunner) × (cmd ≡ some source)
        × (program ≡ source.cmd)
        × Verified secure program

    from_source-Cleared :
        (r : Option (ReattachConfig A)) (cmd : Option CmdRunner) (c : Client X G K A)
        → Starts p (if one_of cmd r then from_source h r cmd c else (c, ([], err bad_sources))).1.0
        → Cleared r cmd c.config.secure_config p.cmd
    from_source-Cleared none none c s = absurd s
    from_source-Cleared (some r) none c s = absurd (
        joined-Only _ [] (address_of h r.addr) (h.connect (address_of h r.addr) c.config.plugins) s)
    from_source-Cleared none (some cmd) c s =
        let (same, fine) = secured-program cmd _ (passes h cmd c.config.secure_config) s in
        (
          refl,
          cmd,
          refl,
          same,
          subst (Verified c.config.secure_config) (sym same)
              (passes-Verified cmd c.config.secure_config fine),
        )
    from_source-Cleared (some r) (some cmd) c s = absurd s

    -- Every program that `start` runs is that of the configured command, where there is nothing to
    -- reattach to; and where a checksum is set, the file of that program is read and hashes to it.
    pub start-Cleared :
        (c : Client X G K A)
        → Starts p (start h c).1.0
        → Cleared c.config.reattach c.config.cmd c.config.secure_config p.cmd
    unfolding start
    start-Cleared c s = from_source-Cleared c.config.reattach c.config.cmd c s

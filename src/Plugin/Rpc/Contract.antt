-- ===== src/Plugin/Rpc/Contract.antt =====
-- crates/go-plugin/src/rpc_server.rs: what a connection is to answer, told without the code.
use pixi_ai.Common.{
  ℕ, suc, ◌+◌, ◌*◌, ◌%◌, ◌≤◌, ◌<◌, ◌≡◌, ◌≢◌, refl, sym, subst, Bool, Bool-cases, true, false, some,
  List, [], ◌∷◌, ◌++◌, ◌⊎◌, inl, inr, if◌then◌else◌, length, All, Text, codes, text_eq, text_eq_iff,
  text_eq-false, u32_mod, if-split,
}
use pixi_ai.Plugin.Rpc.Stream.{Stream}
use pixi_ai.Plugin.Rpc.Codec.{
  Msgpack, RpcRequest, RpcResponse, encode_response, control_ping, control_quit, dispenser_dispense,
}
use pixi_ai.Plugin.Rpc.Server.{
  RpcServer, handle_request, serve_conn, dispensed, contains_key, or_default,
}
use pixi_ai.Plugin.Rpc.Answers.{
  Request, Readable, frames, payloads, requests, answers, served, serve_conn-answers,
}

abbrev pub Has : Text → List Text → Type 0
Has name [] = ⊥
Has name (k ∷ ks) = (k ≡ name) ⊎ Has name ks

pub contains_key-Has :
    (name : Text) (ks : List Text)
    → (Has name ks → contains_key name ks ≡ true) × (contains_key name ks ≡ true → Has name ks)
unfolding contains_key
contains_key-Has name [] = ((λ h. absurd h), (λ e. absurd (cc e)))
contains_key-Has name (k ∷ ks) =
    let (there, back) = contains_key-Has name ks in
    elim (Bool-cases (text_eq k name)) [
      | inl same ↦ rw (same, contains_key) ((λ h. refl), (λ e. inl ((text_eq_iff k name).0 same)))
      | inr other ↦
          let differs = text_eq-false k name other in
          rw (other, contains_key)
            ((λ h. elim h [ inl e ↦ absurd (differs e) | inr h ↦ there h ]), (λ e. inr (back e)))
    ]

module _ (m : Msgpack) where
  -- How a server answers a request with the bytes behind its header, by the method: the server after it,
  -- the answer's header and its result. Of a plugin that it has it gives the next id.
  pub data Reply (srv : RpcServer) (req : RpcRequest) (body : List ℕ)
      : RpcServer × (RpcResponse × List ℕ) → Type 0 where
    pinged :
        req.service_method ≡ control_ping
        → Reply srv req body (
          srv,
          (
            record { service_method = req.service_method; seq = req.seq; error = [] },
            or_default (m.unit.write tt),
          ),
        )
    quitted :
        req.service_method ≡ control_quit
        → Reply srv req body (
          record srv { shutdown = true },
          (
            record { service_method = req.service_method; seq = req.seq; error = [] },
            or_default (m.unit.write tt),
          ),
        )
    dispensing :
        (name : Text) (rest : List ℕ)
        → req.service_method ≡ dispenser_dispense
        → m.name.parse body ≡ inr (name, rest)
        → Has name srv.plugins
        → Reply srv req body (
          record srv { broker = record (srv.broker) { next = (srv.broker.next + 1) % u32_mod } },
          (
            record { service_method = req.service_method; seq = req.seq; error = [] },
            or_default (m.id.write srv.broker.next),
          ),
        )
    unknown_plugin :
        (name : Text) (rest : List ℕ)
        → req.service_method ≡ dispenser_dispense
        → m.name.parse body ≡ inr (name, rest)
        → (Has name srv.plugins → ⊥)
        → Reply srv req body (
          srv,
          (
            record {
              service_method = req.service_method;
              seq = req.seq;
              error = codes "unknown plugin: " ++ name;
            },
            or_default (m.unit.write tt),
          ),
        )
    no_name :
        (e : Text)
        → req.service_method ≡ dispenser_dispense
        → m.name.parse body ≡ inl e
        → Reply srv req body (
          srv,
          (
            record {
              service_method = req.service_method;
              seq = req.seq;
              error = codes "decode dispense name: " ++ e;
            },
            or_default (m.unit.write tt),
          ),
        )
    unknown_method :
        req.service_method ≢ control_ping
        → req.service_method ≢ control_quit
        → req.service_method ≢ dispenser_dispense
        → Reply srv req body (
          srv,
          (
            record {
              service_method = req.service_method;
              seq = req.seq;
              error = codes "unknown method: " ++ req.service_method;
            },
            or_default (m.unit.write tt),
          ),
        )

  not_had : (name : Text) (ks : List Text) → contains_key name ks ≡ false → Has name ks → ⊥
  not_had name ks e h = absurd (cc (e, (contains_key-Has name ks).0 h))

  dispensed-Reply :
      (srv : RpcServer) (req : RpcRequest) (body : List ℕ) (o : Text ⊎ (Text × List ℕ))
      → req.service_method ≡ dispenser_dispense
      → m.name.parse body ≡ o
      → Reply srv req body (dispensed m srv req o)
  dispensed-Reply srv req body (inl e) s p = no_name e s p
  dispensed-Reply srv req body (inr (name, rest)) s p =
      if-split (Reply srv req body) (contains_key name srv.plugins)
        (λ e. dispensing name rest s p ((contains_key-Has name srv.plugins).1 e))
        (λ e. unknown_plugin name rest s p (not_had name srv.plugins e))

  handle_request-Reply :
      (srv : RpcServer) (req : RpcRequest) (body : List ℕ)
      → Reply srv req body (handle_request m srv req body)
  unfolding handle_request
  handle_request-Reply srv req body =
      let method = req.service_method in
      if-split (Reply srv req body) (text_eq method control_ping)
        (λ e. pinged ((text_eq_iff method control_ping).0 e))
        (λ e.
          if-split (Reply srv req body) (text_eq method control_quit)
            (λ f. quitted ((text_eq_iff method control_quit).0 f))
            (λ f.
              if-split (Reply srv req body) (text_eq method dispenser_dispense)
                (λ g.
                  dispensed-Reply srv req body (m.name.parse body)
                    ((text_eq_iff method dispenser_dispense).0 g) refl)
                (λ g.
                  unknown_method (text_eq-false method control_ping e)
                    (text_eq-false method control_quit f)
                    (text_eq-false method dispenser_dispense g))))

module _ (m : Msgpack) (enc : RpcResponse → List ℕ → List ℕ) where
  -- The answers to a list of requests, from a server to a server: one for each up to the first to quit.
  pub data Served : RpcServer → List Request → RpcServer → List (List ℕ) → Type 0 where
    all_served : {srv : RpcServer} → Served srv [] srv []
    last_served :
        {srv srv' : RpcServer} {req : RpcRequest} {resp : RpcResponse} {body result : List ℕ}
        {later : List Request}
        → Reply m srv req body (srv', (resp, result))
        → req.service_method ≡ control_quit
        → Served srv ((req, body) ∷ later) srv' (enc resp result ∷ [])
    next_served :
        {srv srv' last : RpcServer} {req : RpcRequest} {resp : RpcResponse} {body result : List ℕ}
        {later : List Request} {said : List (List ℕ)}
        → Reply m srv req body (srv', (resp, result))
        → req.service_method ≢ control_quit
        → Served srv' later last said
        → Served srv ((req, body) ∷ later) last (enc resp result ∷ said)

  answers-Served :
      (srv : RpcServer) (rs : List Request)
      → Served srv rs (served m enc srv rs) (answers m enc srv rs)
  unfolding answers served
  answers-Served srv [] = all_served
  answers-Served srv ((req, body) ∷ rest) =
      let (srv', (resp, result)) = handle_request m srv req body in
      let Goal : Bool → Type 0 = λ quits.
        Served srv ((req, body) ∷ rest) (if quits then srv' else served m enc srv' rest)
          (enc resp result ∷ (if quits then [] else answers m enc srv' rest)) in
      let r = handle_request-Reply m srv req body in
      elim (Bool-cases (text_eq req.service_method control_quit)) [
        | inl e ↦
            subst Goal (sym e) (last_served r ((text_eq_iff req.service_method control_quit).0 e))
        | inr e ↦ subst Goal (sym e) (
            next_served r (text_eq-false req.service_method control_quit e)
              (answers-Served srv' rest))
      ]

  -- Requests that a server which is not shut down can read, where each length and each message arrives as
  -- one whole piece of the stream, are answered in their order, each answer behind its length, up to the
  -- one that quits; each as its method asks: a ping, a quit, a plugin that the server has with the next id,
  -- and an error for one that it has not, a name that cannot be parsed or an unknown method. So it is where
  -- answers can be encoded, none of these is of 2 ^ 32 bytes or more, and the stream takes the writes.
  pub serve_conn-Served :
      (encodes : (resp : RpcResponse) (body : List ℕ)
        → encode_response m m.bytes resp body ≡ some (enc resp body))
      (ps : List (List ℕ × Request)) (srv : RpcServer) (out : List (List ℕ)) (room : ℕ)
      → All (Readable m) ps
      → All (λ a. length a < u32_mod) (answers m enc srv (requests ps))
      → srv.shutdown ≡ false
      → 2 * length ps ≤ room
      → (last : RpcServer) × (said : List (List ℕ)) × (s : Stream) × Served srv
          (requests ps)
          last
          said
        × (serve_conn m
              (suc (length ps))
              srv
              (record { incoming = frames (payloads ps); outgoing = out; room = room })
            ≡ some (last, s))
        × (s.outgoing ≡ out ++ frames said)
  serve_conn-Served encodes ps srv out room h fit open_ k =
      let (s, e, o) = serve_conn-answers m enc encodes ps srv out room h fit open_ k in
      (
        served m enc srv (requests ps),
        answers m enc srv (requests ps),
        s,
        answers-Served srv (requests ps),
        e,
        o,
      )

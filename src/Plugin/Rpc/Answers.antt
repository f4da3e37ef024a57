-- ===== src/Plugin/Rpc/Answers.antt =====
-- crates/go-plugin/src/rpc_server.rs: which answers a connection gets.
use pixi_ai.Common.{
  ℕ, suc, ◌-◌, ◌*◌, ◌%◌, ◌≤◌, ◌<◌, ◌≡◌, refl, sym, ap, subst, ◌∙◌, Bool, true, false, Option, some,
  List, [], ◌∷◌, ◌++◌, ◌⊎◌, inl, inr, if◌then◌else◌, ltb, length, All, Text, text_eq, arith,
  u32_mod, append_assoc, append-nil, if-both, if-split,
}
use pixi_ai.Plugin.Rpc.Stream.{
  Stream, read, read_from, read_exact, write_all, write_all_lem, read_exact-piece,
}
use pixi_ai.Plugin.Rpc.Codec.{
  Msgpack, RpcRequest, RpcResponse, encode_response, to_be_bytes, from_be, from_be-to_be_bytes,
  max_message, control_ping, control_quit, dispenser_dispense,
}
use pixi_ai.Plugin.Rpc.Ends.{follow_up}
use pixi_ai.Plugin.Rpc.Server.{
  RpcServer, Round, ended, goes_on, handle_request, handled, message, received, replied, reply,
  round, serve_conn, dispensed, contains_key, reply_body,
}

abbrev pub Request : Type 0
Request = RpcRequest × List ℕ

abbrev pub frames : List (List ℕ) → List (List ℕ)
frames [] = []
frames (bs ∷ rest) = to_be_bytes (length bs) ∷ bs ∷ frames rest

length-mod : (n : ℕ) → n ≤ max_message → n % u32_mod ≡ n
length-mod n h = omega arith

fits : (n : ℕ) → n ≤ max_message → ltb max_message n ≡ false
fits n h = ground arith

-- What stands on the stream behind each length, and what it is parsed as.
abbrev pub payloads : List (List ℕ × Request) → List (List ℕ)
payloads [] = []
payloads ((bs, r) ∷ ps) = bs ∷ payloads ps

abbrev pub requests : List (List ℕ × Request) → List Request
requests [] = []
requests ((bs, r) ∷ ps) = r ∷ requests ps

module _ (m : Msgpack) where
  -- A message that the server can read as its request.
  abbrev pub Readable : List ℕ × Request → Type 0
  Readable (bs, r) = (m.request.parse bs ≡ inr r) × (length bs ≤ max_message)

  ShutsNot : RpcServer × (RpcResponse × List ℕ) → Type 0
  ShutsNot r = r.0.shutdown ≡ false

  dispensed-open :
      (srv : RpcServer) (req : RpcRequest) (r : Text ⊎ (Text × List ℕ))
      → srv.shutdown ≡ false
      → ShutsNot (dispensed m srv req r)
  unfolding ShutsNot
  dispensed-open srv req (inl e) h = h
  dispensed-open srv req (inr (name, rest)) h = if-both ShutsNot (contains_key name srv.plugins) h h

  -- Only a request to quit shuts the server down.
  pub handle_request-open :
      (srv : RpcServer) (req : RpcRequest) (body : List ℕ)
      → srv.shutdown ≡ false
      → text_eq req.service_method control_quit ≡ false
      → (handle_request m srv req body).0.shutdown ≡ false
  unfolding handle_request ShutsNot
  handle_request-open srv req body h stays =
      if-both ShutsNot (text_eq req.service_method control_ping) h (
        if-split ShutsNot (text_eq req.service_method control_quit) (λ e. cc)
          (λ _.
            if-both ShutsNot (text_eq req.service_method dispenser_dispense)
              (dispensed-open srv req (m.name.parse body) h) h))

  -- Both writes of an answer.
  abbrev pub sent : List (List ℕ) → List (List ℕ) → ℕ → List ℕ → Stream
  sent pieces out room bs = record {
    incoming = pieces;
    outgoing = (out ++ (to_be_bytes (length bs) ∷ [])) ++ (bs ∷ []);
    room = room - 1 - 1;
  }

  abbrev pub next_round : RpcServer → RpcRequest → Stream → Round
  next_round srv req s =
      if text_eq req.service_method control_quit then ended srv s else goes_on srv s

  small_mod : (n : ℕ) → n < u32_mod → n % u32_mod ≡ n
  small_mod n h = omega arith

  reply_lem :
      (srv : RpcServer) (req : RpcRequest) (bs : List ℕ) (pieces out : List (List ℕ)) (room : ℕ)
      → length bs < u32_mod
      → 2 ≤ room
      → reply m srv req (some bs) (record { incoming = pieces; outgoing = out; room = room })
        ≡ next_round srv req (sent pieces out room bs)
  reply_lem srv req bs pieces out room h two =
      let s : Stream = record { incoming = pieces; outgoing = out; room = room } in
      let four = to_be_bytes (length bs) in
      let s₁ : Stream = record {
        incoming = pieces;
        outgoing = out ++ (four ∷ []);
        room = room - 1;
      } in
      ap (λ n. reply_body m srv req bs (write_all (to_be_bytes n) s)) (small_mod (length bs) h)
      ∙ ap (reply_body m srv req bs) (write_all_lem four s (omega arith))
      ∙ ap (replied m srv req) (write_all_lem bs s₁ (omega arith))

  -- A round on a request that is parsed answers it.
  pub round_lem :
      (srv : RpcServer) (bs : List ℕ) (req : RpcRequest) (body a : List ℕ)
      (pieces out : List (List ℕ)) (room : ℕ)
      → srv.shutdown ≡ false
      → m.request.parse bs ≡ inr (req, body)
      → length bs ≤ max_message
      → 2 ≤ room
      → (let (srv', (resp, resp_body)) = handle_request m srv req body in
          encode_response m m.bytes resp resp_body ≡ some a)
      → length a < u32_mod
      → round m srv
          (record { incoming = to_be_bytes (length bs) ∷ bs ∷ pieces; outgoing = out; room = room })
        ≡ next_round (handle_request m srv req body).0 req (sent pieces out room a)
  unfolding round read read_from to_be_bytes from_be
  round_lem srv bs req body a pieces out room open_ p len two e short =
      let n = length bs in
      let s = λ (inc : List (List ℕ)).
        let s : Stream = record { incoming = inc; outgoing = out; room = room } in s in
      let (srv', (resp, resp_body)) = handle_request m srv req body in
      ap
        (λ b.
          if b
          then ended srv (s (to_be_bytes n ∷ bs ∷ pieces))
          else received m srv (read 4 (s (to_be_bytes n ∷ bs ∷ pieces))))
        open_
      ∙ ap
          (λ l.
            if ltb max_message l
            then ended srv (s (bs ∷ pieces))
            else message m srv (read_exact l (s (bs ∷ pieces))))
          (from_be-to_be_bytes n (omega arith))
      ∙ ap
          (λ b.
            if b
            then ended srv (s (bs ∷ pieces))
            else message m srv (read_exact n (s (bs ∷ pieces))))
          (fits n len)
      ∙ ap (message m srv) (read_exact-piece bs pieces out room)
      ∙ ap (λ r. handled m (s pieces) r srv) p
      ∙ ap (λ o. reply m srv' req o (s pieces)) e
      ∙ reply_lem srv' req a pieces out room short two

  module _ (enc : RpcResponse → List ℕ → List ℕ) where
    -- The bytes of the answers to a list of requests, each with what stands behind its header: one for
    -- each, but none to those behind a request to quit.
    unfoldable pub answers : RpcServer → List Request → List (List ℕ)
    answers srv [] = []
    answers srv ((req, body) ∷ rest) =
        let (srv', (resp, resp_body)) = handle_request m srv req body in
        enc resp resp_body
        ∷ (if text_eq req.service_method control_quit then [] else answers srv' rest)

    -- The server in the end.
    unfoldable pub served : RpcServer → List Request → RpcServer
    served srv [] = srv
    served srv ((req, body) ∷ rest) =
        let srv' = (handle_request m srv req body).0 in
        if text_eq req.service_method control_quit then srv' else served srv' rest

    module _
        (encodes : (resp : RpcResponse) (body : List ℕ)
          → encode_response m m.bytes resp body ≡ some (enc resp body)) where
      abbrev Answered : Option (RpcServer × Stream) → RpcServer → List (List ℕ) → Type 0
      Answered r srv out = (s : Stream) × (r ≡ some (srv, s)) × (s.outgoing ≡ out)

      -- A round that has answered either quits or leaves the rest to those behind it.
      turn :
          (quits : Bool) (n room : ℕ) (srv last : RpcServer) (pieces out later : List (List ℕ))
          (a : List ℕ)
          → (quits ≡ false
              → Answered
                  (serve_conn m (suc n) srv (sent pieces out room a))
                  last
                  ((sent pieces out room a).outgoing ++ frames later))
          → Answered
              (follow_up m (suc n) (
                if quits
                then ended srv (sent pieces out room a)
                else goes_on srv (sent pieces out room a)))
              (if quits then srv else last)
              (out ++ frames (a ∷ (if quits then [] else later)))
      unfolding follow_up
      turn true n room srv last pieces out later a go =
          (sent pieces out room a, refl, append_assoc out _ _)
      turn false n room srv last pieces out later a go =
          let (t, goes, eq) = go refl in
          (t, goes, eq ∙ append_assoc (out ++ _) _ _ ∙ append_assoc out _ _)

      -- The answers come in the order of the requests, each behind its length, until one quits.
      pub serve_conn-answers :
          (ps : List (List ℕ × Request)) (srv : RpcServer) (out : List (List ℕ)) (room : ℕ)
          → All Readable ps
          → All (λ a. length a < u32_mod) (answers srv (requests ps))
          → srv.shutdown ≡ false
          → 2 * length ps ≤ room
          → Answered
              (serve_conn m
                (suc (length ps))
                srv
                (record { incoming = frames (payloads ps); outgoing = out; room = room }))
              (served srv (requests ps))
              (out ++ frames (answers srv (requests ps)))
      unfolding serve_conn round read read_from answers served follow_up
      serve_conn-answers [] srv out room h fit open_ k =
          let s : Stream = record { incoming = []; outgoing = out; room = room } in
          (
            s,
            ap (λ b. follow_up m 0 (if b then ended srv s else ended srv s)) open_,
            sym (append-nil out),
          )
      serve_conn-answers ((bs, (req, body)) ∷ ps) srv out room ((p, len), h) (fit, fits_later) open_
            k =
          let n = length ps in
          let pieces = frames (payloads ps) in
          let (srv', (resp, resp_body)) = handle_request m srv req body in
          let s = sent pieces out room (enc resp resp_body) in
          subst
            (λ r.
              Answered r (served srv ((req, body) ∷ requests ps))
                (out ++ frames (answers srv ((req, body) ∷ requests ps))))
            (sym (
              ap (follow_up m (suc n)) (
                round_lem srv bs req body (enc resp resp_body) pieces out room open_ p len
                  (omega arith) (encodes resp resp_body) fit)))
            (turn (text_eq req.service_method control_quit) n room srv' (served srv' (requests ps))
              pieces out (answers srv' (requests ps)) (enc resp resp_body)
              (λ e.
                serve_conn-answers ps srv' s.outgoing (room - 1 - 1) h
                  (subst
                    (λ b.
                      All (λ a. length a < u32_mod) (if b then [] else answers srv' (requests ps)))
                    e fits_later)
                  (handle_request-open srv req body open_ e) (omega arith)))

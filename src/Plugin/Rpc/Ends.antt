-- ===== src/Plugin/Rpc/Ends.antt =====
-- crates/go-plugin/src/rpc_server.rs: the loop of `serve_conn` ends, and where a length arrives in parts.
use pixi_ai.Common.{
  ℕ, zero, suc, ◌+◌, ◌%◌, ◌≤◌, ◌<◌, ◌≡◌, refl, ap, ◌∙◌, Bool, true, false, Option, none, some, List,
  [], ◌∷◌, ◌++◌, ◌⊎◌, inl, inr, if◌then◌else◌, ltb, length, take, if-both, Text, text_eq, arith,
  u32_mod,
}
use pixi_ai.Plugin.Rpc.Stream.{
  Stream, read, read_from, read_exact, read_exact_from, write_all, size, Within, size-read_from,
  size-read_exact_from, filled, read_exact_from-zero,
}
use pixi_ai.Plugin.Rpc.Codec.{
  Msgpack, RpcRequest, encode_response, to_be_bytes, from_be, max_message, control_quit,
}
use pixi_ai.Plugin.Rpc.Server.{
  RpcServer, Round, ended, goes_on, handle_request, replied, reply_body, reply, handled, message,
  received, round, serve_conn,
}

-- A round that another follows has left fewer than `k` bytes to read.
abbrev Below : ℕ → Round → Type 0
Below k (ended srv s) = Unit
Below k (goes_on srv s) = size s.incoming < k

incoming-write_all : (bs : List ℕ) (s : Stream) → (write_all bs s).1.incoming ≡ s.incoming
unfolding write_all
incoming-write_all bs s = if-both (λ (r : Bool × Stream). r.1.incoming ≡ s.incoming) _ refl refl

incoming-filled :
    (s : Stream) (k : ℕ) (r : Option (List ℕ × List (List ℕ)))
    → Within k r
    → size (filled s r).1.incoming ≤ k
incoming-filled s k none w = omega arith
incoming-filled s k (some (got, rest)) w = w

module _ (m : Msgpack) (k : ℕ) where
  replied-Below :
      (srv : RpcServer) (req : RpcRequest) (r : Bool × Stream)
      → size r.1.incoming < k
      → Below k (replied m srv req r)
  replied-Below srv req (false, s) h = tt
  replied-Below srv req (true, s) h =
      if-both (Below k) (text_eq req.service_method control_quit) tt h

  reply_body-Below :
      (srv : RpcServer) (req : RpcRequest) (bs : List ℕ) (r : Bool × Stream)
      → size r.1.incoming < k
      → Below k (reply_body m srv req bs r)
  reply_body-Below srv req bs (false, s) h = tt
  reply_body-Below srv req bs (true, s) h =
      replied-Below srv req (write_all bs s) (rw (incoming-write_all bs s) h)

  reply-Below :
      (srv : RpcServer) (req : RpcRequest) (o : Option (List ℕ)) (s : Stream)
      → size s.incoming < k
      → Below k (reply m srv req o s)
  reply-Below srv req none s h = tt
  reply-Below srv req (some bs) s h =
      let four = to_be_bytes (length bs % u32_mod) in
      reply_body-Below srv req bs (write_all four s) (rw (incoming-write_all four s) h)

  handled-Below :
      (s : Stream) (r : Text ⊎ (RpcRequest × List ℕ)) (srv : RpcServer)
      → size s.incoming < k
      → Below k (handled m s r srv)
  handled-Below s (inl e) srv h = tt
  handled-Below s (inr (req, body)) srv h =
      let (srv', (resp, resp_body)) = handle_request m srv req body in
      reply-Below srv' req (encode_response m m.bytes resp resp_body) s h

  message-Below :
      (srv : RpcServer) (r : Option (List ℕ) × Stream)
      → size r.1.incoming < k
      → Below k (message m srv r)
  message-Below srv (none, s) h = tt
  message-Below srv (some buf, s) h = handled-Below s (m.request.parse buf) srv h

  received-Below :
      (srv : RpcServer) (r : List ℕ × Stream)
      → length r.0 + size r.1.incoming ≤ k
      → Below k (received m srv r)
  unfolding read_exact
  received-Below srv ([], s) h = tt
  received-Below srv (b ∷ bs, s) h =
      let len = from_be 0 (take 4 (b ∷ bs ++ (0 ∷ 0 ∷ 0 ∷ []))) in
      if-both (Below k) (ltb max_message len) tt (
        message-Below srv (read_exact len s) (
          omega (
            arith,
            incoming-filled s (size s.incoming) (read_exact_from len s.incoming)
                (size-read_exact_from len s.incoming),
          )))

module _ (m : Msgpack) where
  round-Below : (srv : RpcServer) (s : Stream) → Below (size s.incoming) (round m srv s)
  unfolding round read
  round-Below srv s = if-both (Below (size s.incoming)) srv.shutdown tt (
      received-Below m (size s.incoming) srv (read 4 s)
        (omega (arith, size-read_from 4 s.incoming)))

  -- What a round leads to.
  unfoldable pub follow_up : ℕ → Round → Option (RpcServer × Stream)
  follow_up fuel r = elim r [
    | ended srv s ↦ some (srv, s)
    | goes_on srv s ↦ serve_conn m fuel srv s
  ]

  follow :
      (fuel : ℕ) (r : Round)
      → ((srv : RpcServer) (s : Stream)
          → size s.incoming < fuel
          → (e : RpcServer × Stream) × (serve_conn m fuel srv s ≡ some e))
      → Below fuel r
      → (e : RpcServer × Stream) × (follow_up fuel r ≡ some e)
  unfolding follow_up
  follow fuel (ended srv s) go h = ((srv, s), refl)
  follow fuel (goes_on srv s) go h = go srv s h

  -- Serving a connection ends for whatever arrives on it, after at most one round for each byte and one
  -- more.
  serve_conn-Ends :
      (fuel : ℕ) (srv : RpcServer) (s : Stream)
      → size s.incoming < fuel
      → (e : RpcServer × Stream) × (serve_conn m fuel srv s ≡ some e)
  unfolding serve_conn follow_up
  serve_conn-Ends zero srv s h = absurd (omega arith)
  serve_conn-Ends (suc fuel) srv s h =
      follow fuel (round m srv s) (serve_conn-Ends fuel)
        (shrink fuel (round m srv s) (omega arith) (round-Below srv s))
    where
      shrink : {k : ℕ} (j : ℕ) (r : Round) → k ≤ j → Below k r → Below j r
      shrink j (ended srv s) h b = tt
      shrink j (goes_on srv s) h b = omega arith

  -- Where a length below 2^24 arrives in parts, its first byte alone, and an empty header is not parsed,
  -- the connection ends with no answer, whatever follows.
  pub serve_conn-split :
      (fuel : ℕ) (srv : RpcServer) (rest out : List (List ℕ)) (room : ℕ) (e : Text)
      → srv.shutdown ≡ false
      → m.request.parse [] ≡ inl e
      → (s : Stream) × (serve_conn m
            (suc fuel)
            srv
            (record { incoming = (0 ∷ []) ∷ rest; outgoing = out; room = room })
          ≡ some (srv, s))
        × (s.outgoing ≡ out)
  unfolding serve_conn follow_up round read read_from read_exact read_exact_from from_be
  serve_conn-split fuel srv rest out room e h f =
      let (left, e₀) = read_exact_from-zero rest in
      let start : Stream = record { incoming = (0 ∷ []) ∷ rest; outgoing = out; room = room } in
      let one : Stream = record { incoming = rest; outgoing = out; room = room } in
      let stop : Stream = record { incoming = left; outgoing = out; room = room } in
      (
        stop,
        ap (follow_up fuel) (
            ap
              (λ b.
                if b then ended srv start else message m srv (filled one (read_exact_from 0 rest)))
              h
            ∙ ap (λ r. message m srv (filled one r)) e₀
            ∙ ap (λ r. handled m stop r srv) f),
        refl,
      )

-- ===== src/Plugin/Rpc/Unread.antt =====
-- crates/go-plugin/src/{rpc_client,rpc_server}.rs: the server's answer to `Dispense` at its own client.
use pixi_ai.Common.{
  ℕ, ◌+◌, ◌%◌, ◌≤◌, ◌<◌, ◌≡◌, refl, ap, ◌∙◌, false, some, List, [], ◌∷◌, ◌++◌, inl, inr,
  if◌then◌else◌, length, Text, text_eq, arith, u32_mod, if-true,
}
use pixi_ai.Plugin.Rpc.Stream.{Stream, read, read_from}
use pixi_ai.Plugin.Rpc.Codec.{
  Msgpack, RpcRequest, RpcResponse, encode_response, to_be_bytes, max_message, dispenser_dispense,
}
use pixi_ai.Plugin.Rpc.Client.{err, no_result, finish}
use pixi_ai.Plugin.Rpc.Ends.{follow_up}
use pixi_ai.Plugin.Rpc.Server.{
  RpcServer, ended, handle_request, serve_conn, dispensed, contains_key, or_default, round,
}
use pixi_ai.Plugin.Rpc.Answers.{round_lem, sent, next_round}
use pixi_ai.Plugin.Rpc.Contract.{Has, contains_key-Has}

abbrev asks : ℕ → RpcRequest
asks seq = record { service_method = dispenser_dispense; seq = seq }

abbrev pub given : ℕ → RpcResponse
given seq = record { service_method = dispenser_dispense; seq = seq; error = [] }

-- The server after it has given an id.
abbrev pub after : RpcServer → RpcServer
after srv = record srv { broker = record (srv.broker) { next = (srv.broker.next + 1) % u32_mod } }

module _ (m : Msgpack) where
  dispense-answer :
      (srv : RpcServer) (seq : ℕ) (body name rest id_bytes : List ℕ)
      → m.name.parse body ≡ inr (name, rest)
      → Has name srv.plugins
      → m.id.write srv.broker.next ≡ some id_bytes
      → handle_request m srv (asks seq) body ≡ (after srv, (given seq, id_bytes))
  unfolding handle_request text_eq
  dispense-answer srv seq body name rest id_bytes p h w =
      ap (dispensed m srv (asks seq)) p
      ∙ if-true (contains_key name srv.plugins) _ _ ((contains_key-Has name srv.plugins).0 h)
      ∙ ap (λ o. (after srv, (given seq, or_default o))) w

  both_written :
      (resp : RpcResponse) (body h b : List ℕ)
      → m.response.write resp ≡ some h
      → m.bytes.write body ≡ some b
      → encode_response m m.bytes resp body ≡ some (h ++ b)
  unfolding encode_response
  both_written resp body h b e f = rw (e, f, encode_response) refl

  unread :
      (seq : ℕ) (h b : List ℕ) (e : Text)
      → m.response.parse (h ++ b) ≡ inr (given seq, b)
      → m.id.parse b ≡ inl e
      → finish m m.id dispenser_dispense seq (h ++ b) ≡ err (no_result e)
  unfolding finish
  unread seq h b e p q = rw (p, q, finish) (ground arith)

  ends_there :
      (srv : RpcServer) (out : List (List ℕ)) (room : ℕ)
      → srv.shutdown ≡ false
      → serve_conn m 1 srv (record { incoming = []; outgoing = out; room = room })
        ≡ some (srv, record { incoming = []; outgoing = out; room = room })
  unfolding serve_conn round read read_from follow_up
  ends_there srv out room open_ =
      let s : Stream = record { incoming = []; outgoing = out; room = room } in
      ap (λ b. follow_up m 0 (if b then ended srv s else ended srv s)) open_

  -- A request for a plugin that the server has, which arrives in one piece behind its length at a server
  -- that is not shut down, is answered with an id that this repository's own client cannot read: the id
  -- that the server has written is written once more as a sequence of bytes, and what reads an id refuses
  -- a sequence. So it is where the request is of 10 MiB at most, the answer can be encoded and is below
  -- 2 ^ 32 bytes, and its header is parsed back.
  pub serve_conn-unread :
      (srv : RpcServer) (seq : ℕ) (bs body name rest id_bytes h b : List ℕ) (e : Text)
      → srv.shutdown ≡ false
      → m.request.parse bs ≡ inr (asks seq, body)
      → length bs ≤ max_message
      → m.name.parse body ≡ inr (name, rest)
      → Has name srv.plugins
      → m.id.write srv.broker.next ≡ some id_bytes
      → m.bytes.write id_bytes ≡ some b
      → m.response.write (given seq) ≡ some h
      → m.response.parse (h ++ b) ≡ inr (given seq, b)
      → m.id.parse b ≡ inl e
      → length (h ++ b) < u32_mod
      → (s : Stream) × (serve_conn m 2 srv
            (record { incoming = to_be_bytes (length bs) ∷ bs ∷ []; outgoing = []; room = 2 })
          ≡ some (after srv, s))
        × (s.outgoing ≡ to_be_bytes (length (h ++ b)) ∷ (h ++ b) ∷ [])
        × (finish m m.id dispenser_dispense seq (h ++ b) ≡ err (no_result e))
  unfolding serve_conn follow_up text_eq
  serve_conn-unread srv seq bs body name rest id_bytes h b e open_ p len n has w w' hw hp ip short =
      let a = dispense-answer srv seq body name rest id_bytes n has w in
      let s = sent m [] [] 2 (h ++ b) in
      (
        s,
        ap (follow_up m 1) (
              round_lem m srv bs (asks seq) body (h ++ b) [] [] 2 open_ p len (omega arith)
                (ap (λ r. encode_response m m.bytes r.1.0 r.1.1) a
                  ∙ both_written (given seq) id_bytes h b hw w')
                short
              ∙ ap (λ r. next_round m r.0 (asks seq) s) a)
            ∙ ends_there (after srv) s.outgoing s.room open_,
        refl,
        unread seq h b e hp ip,
      )

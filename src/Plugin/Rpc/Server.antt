-- ===== src/Plugin/Rpc/Server.antt =====
-- crates/go-plugin/src/rpc_server.rs: the plugin's side of the calls, on one connection.
use pixi_ai.Common.{
  ℕ, zero, suc, ◌%◌, Bool, true, false, ◌||◌, Option, none, some, List, [], ◌∷◌, ◌++◌, ◌⊎◌, inl,
  inr, if◌then◌else◌, ltb, length, take, Text, codes, text_eq, u32_mod,
}
use pixi_ai.Plugin.Mux.{MuxBroker, next_id}
use pixi_ai.Plugin.Rpc.Stream.{Stream, read, read_exact, write_all}
use pixi_ai.Plugin.Rpc.Codec.{
  Msgpack, RpcRequest, RpcResponse, encode_response, decode_request_header, decode_body,
  to_be_bytes, from_be, max_message, control_ping, control_quit, dispenser_dispense,
}

-- `plugins` are the keys of the plugin set, `shutdown` the value in the watch channel.
pub record RpcServer : Type 0 where
  pub broker : MuxBroker
  pub plugins : List Text
  pub shutdown : Bool

abbrev pub new : MuxBroker → List Text → RpcServer
new b plugins = record { broker = b; plugins = plugins; shutdown = false }

unfoldable pub contains_key : Text → List Text → Bool
contains_key name [] = false
contains_key name (k ∷ ks) = text_eq k name || contains_key name ks

-- `unwrap_or_default` on what `to_vec` gives.
abbrev pub or_default : Option (List ℕ) → List ℕ
or_default none = []
or_default (some bs) = bs

abbrev pub reply_to : RpcRequest → Text → RpcResponse
reply_to req e = record { service_method = req.service_method; seq = req.seq; error = e }

-- A round of the loop of `serve_conn` breaks off, or the next one follows.
pub data Round : Type 0 where
  ended goes_on : RpcServer → Stream → Round

module _ (m : Msgpack) where
  abbrev pub refusal : RpcServer → RpcRequest → Text → RpcServer × (RpcResponse × List ℕ)
  refusal srv req e = (srv, (reply_to req e, or_default (m.unit.write tt)))

  abbrev pub dispensed :
      RpcServer → RpcRequest → Text ⊎ (Text × List ℕ) → RpcServer × (RpcResponse × List ℕ)
  dispensed srv req (inl e) = refusal srv req (codes "decode dispense name: " ++ e)
  dispensed srv req (inr (name, rest)) =
      if contains_key name srv.plugins
      then (let (b, id) = next_id srv.broker in
          (record srv { broker = b }, (reply_to req [], or_default (m.id.write id))))
      else refusal srv req (codes "unknown plugin: " ++ name)

  unfoldable pub handle_request :
      RpcServer → RpcRequest → List ℕ → RpcServer × (RpcResponse × List ℕ)
  unfolding contains_key
  handle_request srv req body =
      if text_eq req.service_method control_ping
      then refusal srv req []
      else if text_eq req.service_method control_quit
      then refusal (record srv { shutdown = true }) req []
      else if text_eq req.service_method dispenser_dispense
      then dispensed srv req (decode_body m.name body)
      else refusal srv req (codes "unknown method: " ++ req.service_method)

  abbrev pub replied : RpcServer → RpcRequest → Bool × Stream → Round
  replied srv req (false, s) = ended srv s
  replied srv req (true, s) =
      if text_eq req.service_method control_quit then ended srv s else goes_on srv s

  abbrev pub reply_body : RpcServer → RpcRequest → List ℕ → Bool × Stream → Round
  reply_body srv req encoded (false, s) = ended srv s
  reply_body srv req encoded (true, s) = replied srv req (write_all encoded s)

  abbrev pub reply : RpcServer → RpcRequest → Option (List ℕ) → Stream → Round
  reply srv req none s = ended srv s
  reply srv req (some encoded) s =
      reply_body srv req encoded (write_all (to_be_bytes (length encoded % u32_mod)) s)

  -- `resp_body`, which is msgpack already, is encoded as a value of its own.
  abbrev pub handled : Stream → Text ⊎ (RpcRequest × List ℕ) → RpcServer → Round
  handled s (inl e) srv = ended srv s
  handled s (inr (req, body)) srv =
      let (srv, (resp, resp_body)) = handle_request srv req body in
      reply srv req (encode_response m m.bytes resp resp_body) s

  abbrev pub message : RpcServer → Option (List ℕ) × Stream → Round
  message srv (none, s) = ended srv s
  message srv (some buf, s) = handled s (decode_request_header m buf) srv

  -- The bytes of the length that were not read stay zero.
  abbrev pub received : RpcServer → List ℕ × Stream → Round
  received srv ([], s) = ended srv s
  received srv (b ∷ bs, s) =
      let len = from_be 0 (take 4 (b ∷ bs ++ (0 ∷ 0 ∷ 0 ∷ []))) in
      if ltb max_message len then ended srv s else message srv (read_exact len s)

  unfoldable pub round : RpcServer → Stream → Round
  unfolding handle_request encode_response
  round srv s = if srv.shutdown then ended srv s else received srv (read 4 s)

  -- The loop, on fuel.
  unfoldable pub serve_conn : ℕ → RpcServer → Stream → Option (RpcServer × Stream)
  unfolding round
  serve_conn zero srv s = none
  serve_conn (suc fuel) srv s = elim (round srv s) [
    | ended srv s ↦ some (srv, s)
    | goes_on srv s ↦ serve_conn fuel srv s
  ]

abbrev pub is_shutdown : RpcServer → Bool
is_shutdown srv = srv.shutdown

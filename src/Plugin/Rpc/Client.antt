-- ===== src/Plugin/Rpc/Client.antt =====
-- crates/go-plugin/src/rpc_client.rs: the host's side of the calls.
use pixi_ai.Common.{
  ℕ, ◌+◌, ◌%◌, ◌^◌, Bool, true, false, not, Option, none, some, List, [], ◌∷◌, ◌⊎◌, inl, inr,
  if◌then◌else◌, ltb, leb, ◌==◌, length, Text, u32_mod,
}
use pixi_ai.Plugin.Rpc.Stream.{Stream, read_exact, write_all}
use pixi_ai.Plugin.Rpc.Codec.{
  Msgpack, Format, RpcRequest, RpcResponse, encode_request, decode_response_header, decode_body,
  to_be_bytes, from_be, max_message, control_ping, control_quit, dispenser_dispense,
}

-- What `PluginError::Transport` tells: a part of the call that failed, or what is wrong in the reply.
pub data RpcError : Type 0 where
  not_encoded not_written not_flushed no_length no_body : RpcError
  too_large : ℕ → RpcError
  no_header : Text → RpcError
  sequence_mismatch : (expected got : ℕ) → RpcError
  refused : (method error : Text) → RpcError
  no_result : Text → RpcError

pub data Result (A : Type 0) : Type 0 where
  ok : A → Result A
  err : RpcError → Result A

pub record RpcClient : Type 0 where
  pub seq : ℕ
  pub stream : Stream

abbrev pub new : Stream → RpcClient
new s = record { seq = 1; stream = s }

-- `fetch_add` gives the old value, and wraps around.
unfoldable pub next_seq : RpcClient → RpcClient × ℕ
next_seq c = (record c { seq = (c.seq + 1) % 2 ^ 64 }, c.seq)

abbrev pub is_empty : Text → Bool
is_empty [] = true
is_empty (x ∷ t) = false

module _ {R : Type 0} (m : Msgpack) (result : Format R) where
  abbrev pub decoded : Text ⊎ (R × List ℕ) → Result R
  decoded (inl e) = err (no_result e)
  decoded (inr (r, rest)) = ok r

  -- What becomes of a reply's header and the bytes behind it.
  abbrev pub judged : Text → ℕ → RpcResponse → List ℕ → Result R
  judged method seq resp body =
      if not (resp.seq == seq)
      then err (sequence_mismatch seq resp.seq)
      else if not (is_empty resp.error)
      then err (refused method resp.error)
      else decoded (decode_body result body)

  unfoldable pub finish : Text → ℕ → List ℕ → Result R
  finish method seq buf = elim (decode_response_header m buf) [
    | inl e ↦ err (no_header e)
    | inr (resp, body) ↦ judged method seq resp body
  ]

  abbrev pub take_body : Text → ℕ → Option (List ℕ) × Stream → Stream × Result R
  take_body method seq (none, s) = (s, err no_body)
  take_body method seq (some buf, s) = (s, finish method seq buf)

  abbrev pub take_length : Text → ℕ → Option (List ℕ) × Stream → Stream × Result R
  take_length method seq (none, s) = (s, err no_length)
  take_length method seq (some four, s) =
      let len = from_be 0 four in
      if ltb max_message len
      then (s, err (too_large len))
      else take_body method seq (read_exact len s)

  -- A stream that has broken is not flushed.
  abbrev pub sent : Text → ℕ → Bool × Stream → Stream × Result R
  sent method seq (false, s) = (s, err not_written)
  sent method seq (true, s) =
      if leb 1 s.room then take_length method seq (read_exact 4 s) else (s, err not_flushed)

  abbrev pub send_body : Text → ℕ → List ℕ → Bool × Stream → Stream × Result R
  send_body method seq encoded (false, s) = (s, err not_written)
  send_body method seq encoded (true, s) = sent method seq (write_all encoded s)

  abbrev pub send : Text → ℕ → Option (List ℕ) → Stream → Stream × Result R
  send method seq none s = (s, err not_encoded)
  send method seq (some encoded) s =
      send_body method seq encoded (write_all (to_be_bytes (length encoded % u32_mod)) s)

  unfoldable pub call : {T : Type 0} → Format T → Text → T → RpcClient → RpcClient × Result R
  unfolding next_seq encode_request finish
  call f method body c =
      let (c, seq) = next_seq c in
      let req : RpcRequest = record { service_method = method; seq = seq } in
      let (s, r) = send method seq (encode_request m f req body) c.stream in
      (record c { stream = s }, r)

module _ (m : Msgpack) where
  unfoldable pub ping : RpcClient → RpcClient × Result (Unit {0})
  unfolding call
  ping = call m m.unit m.unit control_ping tt

  unfoldable pub quit : RpcClient → RpcClient × Result (Unit {0})
  unfolding call
  quit = call m m.unit m.unit control_quit tt

  unfoldable pub dispense : Text → RpcClient → RpcClient × Result ℕ
  unfolding call
  dispense name = call m m.id m.name dispenser_dispense name

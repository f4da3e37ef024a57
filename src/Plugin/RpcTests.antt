-- ===== src/Plugin/RpcTests.antt =====
-- The theorems about the calls of crates/go-plugin/src/rpc_*.rs at concrete inputs, over a small coding.
use pixi_ai.Common.{
  ℕ, zero, suc, ◌≡◌, refl, sym, ap, ◌∙◌, some, Option, List, [], ◌∷◌, ◌++◌, ◌⊎◌, inl, inr, arith,
  codes, Text, length, take, drop, take-append, drop-append, append_assoc, text_eq,
}
use pixi_ai.Plugin.Mux
use pixi_ai.Plugin.Rpc.Stream.{Stream}
use pixi_ai.Plugin.Rpc.Codec.{
  Msgpack, RpcRequest, RpcResponse, encode_response, encode_request, to_be_bytes, control_ping,
  control_quit, dispenser_dispense,
}
use pixi_ai.Plugin.Rpc.Server.{RpcServer, serve_conn, handle_request, new}
use pixi_ai.Plugin.Rpc.Client
use pixi_ai.Plugin.Rpc.Client.{finish, err, no_result, call}
use pixi_ai.Plugin.Rpc.Ends.{serve_conn-split}
use pixi_ai.Plugin.Rpc.Answers.{answers, frames}
use pixi_ai.Plugin.Rpc.Contract.{Served, serve_conn-Served}
use pixi_ai.Plugin.Rpc.Unread.{after, given, serve_conn-unread}
use pixi_ai.Plugin.Rpc.Replies.{Judged, call_lem}

abbrev short_input : {A : Type 0} → Text ⊎ (A × List ℕ)
short_input = inl (codes "too short")

abbrev parse_request : List ℕ → Text ⊎ (RpcRequest × List ℕ)
parse_request [] = short_input
parse_request (n ∷ []) = short_input
parse_request (n ∷ s ∷ bs) = inr (record { service_method = take n bs; seq = s }, drop n bs)

abbrev write_request : RpcRequest → Option (List ℕ)
write_request r = some (length r.service_method ∷ r.seq ∷ r.service_method)

abbrev parse_response : List ℕ → Text ⊎ (RpcResponse × List ℕ)
parse_response [] = short_input
parse_response (n ∷ []) = short_input
parse_response (n ∷ k ∷ []) = short_input
parse_response (n ∷ k ∷ s ∷ bs) =
    inr (
      record { service_method = take n bs; seq = s; error = take k (drop n bs) },
      drop k (drop n bs),
    )

abbrev header_of : RpcResponse → List ℕ
header_of r = length r.service_method ∷ length r.error ∷ r.seq ∷ r.service_method ++ r.error

abbrev write_response : RpcResponse → Option (List ℕ)
write_response r = some (header_of r)

-- A number has the tag 0, a sequence the tag 1.
abbrev parse_id : List ℕ → Text ⊎ (ℕ × List ℕ)
parse_id [] = short_input
parse_id (zero ∷ []) = short_input
parse_id (zero ∷ n ∷ bs) = inr (n, bs)
parse_id (suc tag ∷ bs) = short_input

abbrev parse_text : List ℕ → Text ⊎ (Text × List ℕ)
parse_text [] = short_input
parse_text (n ∷ bs) = inr (take n bs, drop n bs)

abbrev parse_unit : List ℕ → Text ⊎ (Unit {0} × List ℕ)
parse_unit [] = short_input
parse_unit (b ∷ bs) = inr (tt, bs)

abbrev coding : Msgpack
coding = record {
  request = record { write = write_request; parse = parse_request };
  response = record { write = write_response; parse = parse_response };
  unit = record { write = λ u. some (0xc0 ∷ []); parse = parse_unit };
  id = record { write = λ n. some (0 ∷ n ∷ []); parse = parse_id };
  name = record { write = λ t. some (length t ∷ t); parse = parse_text };
  bytes = record { write = λ bs. some (1 ∷ length bs ∷ bs); parse = λ bs. short_input };
}

header_eq : (x y : List ℕ) → some x ≡ some y → x ≡ y
header_eq x y e = ground arith

-- A header is parsed back.
parse_response_lem :
    (resp : RpcResponse) (h rest : List ℕ)
    → write_response resp ≡ some h
    → parse_response (h ++ rest) ≡ inr (resp, rest)
parse_response_lem resp h rest e =
    ap (λ x. parse_response (x ++ rest)) (sym (header_eq (header_of resp) h e))
    ∙ (let a = resp.service_method in
        let b = resp.error in
        rw
          (
            append_assoc a b rest,
            take-append a (b ++ rest) (length a) refl,
            drop-append a (b ++ rest) (length a) refl,
            take-append b rest (length b) refl,
            drop-append b rest (length b) refl,
          )
          refl)

plugin_server : RpcServer
plugin_server = new Mux.new (codes "greeter" ∷ [])

abbrev ping_request : RpcRequest
ping_request = record { service_method = control_ping; seq = 1 }

abbrev dispense_request : RpcRequest
dispense_request = record { service_method = dispenser_dispense; seq = 2 }

abbrev quit_request : RpcRequest
quit_request = record { service_method = control_quit; seq = 3 }

abbrev name_bytes : List ℕ
name_bytes = 7 ∷ codes "greeter"

abbrev bytes_of : RpcRequest → List ℕ
bytes_of r = length r.service_method ∷ r.seq ∷ r.service_method

abbrev messages : List (List ℕ × (RpcRequest × List ℕ))
messages =
    (bytes_of ping_request ++ [], (ping_request, []))
    ∷ (bytes_of dispense_request ++ name_bytes, (dispense_request, name_bytes))
    ∷ (bytes_of quit_request ++ [], (quit_request, []))
    ∷ (bytes_of ping_request ++ [], (ping_request, []))
    ∷ []

abbrev answer_bytes : RpcResponse → List ℕ → List ℕ
answer_bytes resp body = header_of resp ++ (1 ∷ length body ∷ body)

abbrev asked : List (RpcRequest × List ℕ)
asked =
    (ping_request, [])
    ∷ (dispense_request, name_bytes)
    ∷ (quit_request, [])
    ∷ (ping_request, [])
    ∷ []

encodes :
    (resp : RpcResponse) (body : List ℕ)
    → encode_response coding coding.bytes resp body ≡ some (answer_bytes resp body)
unfolding encode_response
encodes resp body = refl

-- The request behind the one to quit has no answer.
three_answers : length (answers coding answer_bytes plugin_server asked) ≡ 3
unfolding answers handle_request text_eq plugin_server
three_answers = refl

serve_conn-Served_example :
    (last : RpcServer) × (said : List (List ℕ)) × (s : Stream) × Served coding answer_bytes
      plugin_server asked last said
    × (serve_conn coding 5 plugin_server (record {
      incoming = frames (
          (bytes_of ping_request ++ [])
          ∷ (bytes_of dispense_request ++ name_bytes)
          ∷ (bytes_of quit_request ++ [])
          ∷ (bytes_of ping_request ++ [])
          ∷ []);
      outgoing = [];
      room = 8;
    })
        ≡ some (last, s))
    × (s.outgoing ≡ [] ++ frames said)
unfolding answers handle_request text_eq plugin_server
serve_conn-Served_example =
    serve_conn-Served coding answer_bytes encodes messages plugin_server [] 8
      ((refl, omega arith), ((refl, omega arith), ((refl, omega arith), ((refl, omega arith), tt))))
      (omega arith, (omega arith, (omega arith, tt))) refl (omega arith)

abbrev in_parts : Stream
in_parts = record {
  incoming = (0 ∷ []) ∷ (0 ∷ 0 ∷ 9 ∷ []) ∷ (1 ∷ 2 ∷ []) ∷ [];
  outgoing = [];
  room = 4;
}

serve_conn-split_example :
    (s : Stream) × (serve_conn coding 1 plugin_server in_parts ≡ some (plugin_server, s))
    × (s.outgoing ≡ [])
unfolding plugin_server
serve_conn-split_example =
    serve_conn-split coding 0 plugin_server ((0 ∷ 0 ∷ 9 ∷ []) ∷ (1 ∷ 2 ∷ []) ∷ []) [] 4
      (codes "too short") refl refl

abbrev pong : List ℕ
pong = header_of (record { service_method = control_ping; seq = 1; error = [] }) ++ (0xc0 ∷ [])

call_lem_example :
    (r : Client.Result (Unit {0})) × (call coding coding.unit coding.unit control_ping tt (record {
      seq = 1;
      stream = record { incoming = to_be_bytes (length pong) ∷ pong ∷ []; outgoing = []; room = 3 };
    })
      ≡ (
        record {
          seq = 2;
          stream = record {
            incoming = [];
            outgoing =
                ([] ++ (to_be_bytes 15 ∷ [])) ++ ((bytes_of ping_request ++ (0xc0 ∷ [])) ∷ []);
            room = 1;
          };
        },
        r,
      ))
    × Judged coding coding.unit control_ping 1
        (record { service_method = control_ping; seq = 1; error = [] })
        (0xc0 ∷ [])
        r
unfolding encode_request
call_lem_example =
    call_lem coding coding.unit coding.unit control_ping tt 1 3
      (bytes_of ping_request ++ (0xc0 ∷ [])) pong [] []
      (record { service_method = control_ping; seq = 1; error = [] }) (0xc0 ∷ []) refl (omega arith)
      (omega arith) (omega arith) refl

-- An id has been written, and then once more as a sequence.
serve_conn-unread_example :
    (s : Stream) × (serve_conn coding 2 plugin_server (record {
      incoming =
          to_be_bytes (length (bytes_of dispense_request ++ name_bytes))
          ∷ (bytes_of dispense_request ++ name_bytes)
          ∷ [];
      outgoing = [];
      room = 2;
    })
      ≡ some (after plugin_server, s))
    × (s.outgoing
        ≡ to_be_bytes (length (header_of (given 2) ++ (1 ∷ 2 ∷ 0 ∷ 1 ∷ [])))
          ∷ (header_of (given 2) ++ (1 ∷ 2 ∷ 0 ∷ 1 ∷ []))
          ∷ [])
    × (finish coding coding.id dispenser_dispense 2 (header_of (given 2) ++ (1 ∷ 2 ∷ 0 ∷ 1 ∷ []))
        ≡ err (no_result (codes "too short")))
unfolding plugin_server
serve_conn-unread_example =
    serve_conn-unread coding plugin_server 2 (bytes_of dispense_request ++ name_bytes) name_bytes
      (codes "greeter") [] (0 ∷ 1 ∷ []) (header_of (given 2)) (1 ∷ 2 ∷ 0 ∷ 1 ∷ [])
      (codes "too short") refl refl (omega arith) refl (inl refl) refl refl refl refl refl
      (omega arith)

-- ===== src/Plugin/ConnectionTests.antt =====
-- The theorems about the brokers, the checksum and the descriptions of crates/go-plugin at concrete inputs.
use pixi_ai.Common.{
  ℕ, ◌+◌, ◌≡◌, ◌≢◌, refl, Bool, true, false, inr, none, some, Option, List, [], ◌∷◌, ◌++◌, arith,
  codes, Text, get_elem?, replicate, length,
}
use pixi_ai.Common.Maps.{count, values, Distinct}
use pixi_ai.Plugin.Broker.{
  GrpcBroker, ConnInfo, Incoming, stream, Dialed, channel, new, accept, accepted, bound, offer,
  conn_of, connected, dialed, received, receive_all, register_pending,
}
use pixi_ai.Plugin.Broker.Ledger.{
  Call, fresh, started, dialing, message, closing, run, registered, spent, run-Settled,
}
use pixi_ai.Plugin.Broker.Table.{shows, spec_run, view, run-shows}
use pixi_ai.Plugin.Broker.Meeting.{Served, accept-Served, ids, ids-Distinct}
use pixi_ai.Plugin.Mux.{MuxBroker, handle_inbound_stream}
use pixi_ai.Plugin.Mux.Dialing.{Met, hears, written, meet_lem}
use pixi_ai.Plugin.Info.{FileDescriptor, MethodDescriptor, ServiceInfo, extract_all, extract_from}
use pixi_ai.Plugin.Secure
use pixi_ai.Plugin.Secure.{SecureConfig, check, from_hex, decode, checksum_hex}

abbrev alive : ℕ → Bool
alive tx = true

abbrev address : Text
address = codes "127.0.0.1:9"

abbrev calls : List (Call ℕ)
calls =
    started 4
    ∷ fresh
    ∷ dialing 1 10
    ∷ dialing 1 11
    ∷ dialing 2 12
    ∷ message alive (offer 1 address)
    ∷ closing
    ∷ []

run-Settled_example :
    let (b, es) = run (new true) calls in
    Distinct b.pending × (registered 11 calls ≡ count 11 (values b.pending) + spent 11 es)
run-Settled_example = run-Settled true calls 11

run-shows_example : shows (run (new true) calls) ≡ spec_run (view (new {S = ℕ} true)) calls
run-shows_example = run-shows calls (new true)

abbrev host : GrpcBroker ℕ
host = record { next = 1; pending = []; stream_tx = none; mux_enabled = false }

abbrev plugin : GrpcBroker ℕ
plugin = record { next = 1; pending = []; stream_tx = some 4; mux_enabled = false }

abbrev sends : ℕ → ConnInfo → Bool
sends s info = true

abbrev incoming : Incoming ℕ
incoming = stream 77

abbrev connect : Text → Dialed ℕ
connect uri = channel 78

accept-Served_example :
    let (offers, r) = accept (bound address) sends incoming plugin 3 in
    (r ≡ accepted incoming)
    × Served 3 9 address
        (receive_all alive (register_pending host 3 9).0 (offer 5 address ∷ offers))
    × (dialed connect (received (conn_of (offer 3 address)))
        ≡ connected (connect (codes "http://" ++ address)))
accept-Served_example =
    accept-Served alive host plugin (offer 5 address ∷ []) 3 9 4 address sends incoming connect refl
      refl refl (inr (λ e. absurd (ground arith)), tt)

abbrev last_id : GrpcBroker ℕ
last_id = record host { next = 4_294_967_295 }

ids-Distinct_example : get_elem? (ids 3 last_id) 0 ≢ get_elem? (ids 3 last_id) 2
ids-Distinct_example =
    ids-Distinct last_id 3 0 2 (omega arith) (omega arith) (omega arith) (omega arith)

abbrev mux : MuxBroker
mux = record { next = 1; pending = (70000, 5) ∷ [] }

meet_lem_example :
    Met {C = ℕ} alive mux 70000 33
      (hears 70000 33 (handle_inbound_stream alive mux (some (written {C = ℕ} 70000 33))))
meet_lem_example = meet_lem alive mux 70000 33 (omega arith)

abbrev read_one : List ℕ → Option (List ℕ)
read_one path = some (1 ∷ 2 ∷ [])

abbrev hash : List ℕ → List ℕ
hash bytes = replicate 32 (length bytes)

abbrev config : SecureConfig
config = record { checksum = replicate 32 2 }

-- A sign passes for a digit.
signed : from_hex (b'+' ∷ b'f' ∷ []) ≡ Secure.err Secure.wrong_length
unfolding from_hex decode
signed = refl

-- A text that is not ASCII makes the slice panic.
sliced : from_hex (b'a' ∷ 195 ∷ 169 ∷ b'a' ∷ []) ≡ Secure.panicked
unfolding from_hex
sliced = refl

abbrev echo_method : MethodDescriptor
echo_method = record {
  name = some (codes "Echo");
  input_type = some (codes ".demo.Text");
  output_type = none;
  client_streaming = none;
  server_streaming = some true;
}

abbrev proto : FileDescriptor
proto = record {
  package_name = some (codes "demo");
  source_code_info = some (
      record {
        path = 6 ∷ 1 ∷ 2 ∷ 0 ∷ [];
        leading_comments = some (codes " says" ++ (10 ∷ codes "  it again "));
      }
      ∷ []);
  service =
      record { name = some (codes "GRPCStdio"); method = [] }
      ∷ record { name = some (codes "Echoes"); method = echo_method ∷ [] }
      ∷ [];
}

abbrev echoes : ServiceInfo
echoes = record {
  name = codes "demo.Echoes";
  description = [];
  methods =
      record {
        name = codes "Echo";
        description = codes "says it again";
        input_type = codes "demo.Text";
        output_type = [];
        client_streaming = false;
        server_streaming = true;
      }
      ∷ [];
}

extracted : extract_all true (proto ∷ []) [] ≡ echoes ∷ []
unfolding extract_from
extracted = refl

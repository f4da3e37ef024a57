-- ===== src/Plugin/Broker.antt =====
-- crates/go-plugin/src/grpc_broker.rs: the broker of further connections.
-- A oneshot sender is its number: what the broker does with it is an event. Whether a sender's receiver is
-- still there, and what sockets, channels and timers do, are arguments. Each error is a constructor.
pub mod Ledger
pub mod Table
pub mod Meeting
use pixi_ai.Common.{
  ℕ, zero, suc, ◌+◌, ◌%◌, Bool, true, false, Option, none, some, List, [], ◌∷◌, ◌++◌, map,
  if◌then◌else◌, Text, codes, u32_mod,
}
use pixi_ai.Common.Maps.{get, remove, insert, values, to_list}

pub record BrokeredConn : Type 0 where
  pub network : Text
  pub address : Text

-- `pb::ConnInfo`; of its knock only `knock.knock` is read.
pub record ConnInfo : Type 0 where
  pub service_id : ℕ
  pub network : Text
  pub address : Text
  pub knock : Option Bool

pub data BrokerError : Type 0 where
  not_started bind_failed local_addr_failed send_failed accept_timeout accept_failed : BrokerError
  no_pending receiver_dropped dial_timeout pending_dropped invalid_address connect_failed :
      BrokerError
  parse_failed : BrokerError

pub data Result {ℓ} (A : Type ℓ) : Type ℓ where
  ok : A → Result A
  err : BrokerError → Result A

-- A value is handed to the receiver, or given back since it is gone; or the sender is dropped unused.
pub data Event : Type 0 where
  sent : ℕ → BrokeredConn → Event
  refused : ℕ → Event
  dropped : ℕ → Event

-- `S` is the sender of the stream to the peer.
pub record GrpcBroker (S : Type 0) : Type 0 where
  pub next : ℕ
  pub pending : List (ℕ × ℕ)
  pub stream_tx : Option S
  pub mux_enabled : Bool

-- The listener that `accept` binds: its address is known, unknown, or it is not bound.
pub data Bound : Type 0 where
  bound : Text → Bound
  unbound unaddressed : Bound

-- What `listener.accept` gives within five seconds.
pub data Incoming (C : Type 0) : Type 0 where
  stream : C → Incoming C
  timed_out failed : Incoming C

-- What the receiver of a pending dial gives within five seconds.
pub data Received : Type 0 where
  received : BrokeredConn → Received
  late cancelled : Received

-- Making a channel to an address.
pub data Dialed (C : Type 0) : Type 0 where
  channel : C → Dialed C
  malformed unreachable : Dialed C

abbrev pub conn_of : ConnInfo → BrokeredConn
conn_of info = record { network = info.network; address = info.address }

abbrev pub is_knock : ConnInfo → Bool
is_knock info = elim info.knock [ none ↦ false | some k ↦ k ]

-- The connection information of `accept`.
abbrev pub offer : ℕ → Text → ConnInfo
offer id address = record {
  service_id = id;
  network = codes "tcp";
  address = address;
  knock = none;
}

abbrev pub hand_over : Bool → ℕ → BrokeredConn → List Event × Result (Unit {0})
hand_over true tx conn = (sent tx conn ∷ [], ok tt)
hand_over false tx conn = (refused tx ∷ [], err receiver_dropped)

abbrev pub accepted : {C : Type 0} → Incoming C → Result C
accepted (stream c) = ok c
accepted timed_out = err accept_timeout
accepted failed = err accept_failed

abbrev pub connected : {C : Type 0} → Dialed C → Result C
connected (channel c) = ok c
connected malformed = err invalid_address
connected unreachable = err connect_failed

-- The end of `dial_grpc`, after `register_pending`.
unfoldable pub dialed : {C : Type 0} → (Text → Dialed C) → Received → Result C
dialed connect (received conn) = connected (connect (codes "http://" ++ conn.address))
dialed connect late = err dial_timeout
dialed connect cancelled = err pending_dropped

module _ {S : Type 0} where
  unfoldable pub new : Bool → GrpcBroker S
  new mux = record { next = 1; pending = []; stream_tx = none; mux_enabled = mux }

  -- `fetch_add` wraps around.
  unfoldable pub next_id : GrpcBroker S → GrpcBroker S × ℕ
  next_id b = (record b { next = (b.next + 1) % u32_mod }, b.next)

  abbrev pub set_stream_tx : GrpcBroker S → S → GrpcBroker S
  set_stream_tx b tx = record b { stream_tx = some tx }

  -- A sender that stood under the id is dropped.
  unfoldable pub register_pending : GrpcBroker S → ℕ → ℕ → GrpcBroker S × List Event
  register_pending b id tx =
      (record b { pending = insert id tx b.pending }, map dropped (to_list (get id b.pending)))

  unfoldable pub deliver :
      (ℕ → Bool) → GrpcBroker S → ℕ → BrokeredConn → GrpcBroker S × (List Event × Result (Unit {0}))
  deliver alive b id conn = elim (get id b.pending) [
    | none ↦ (b, ([], err no_pending))
    | some tx ↦ (record b { pending = remove id b.pending }, hand_over (alive tx) tx conn)
  ]

  -- One message of the peer's stream; an error of `deliver` is only logged.
  unfoldable pub receive : (ℕ → Bool) → GrpcBroker S → ConnInfo → GrpcBroker S × List Event
  unfolding deliver
  receive alive b info =
      if is_knock info
      then (b, [])
      else (let (c, r) = deliver alive b info.service_id (conn_of info) in (c, r.0))

  -- The messages of the stream in their order.
  unfoldable pub receive_all : (ℕ → Bool) → GrpcBroker S → List ConnInfo → GrpcBroker S × List Event
  unfolding receive
  receive_all alive b [] = (b, [])
  receive_all alive b (info ∷ infos) =
      let (c, es) = receive alive b info in let (d, fs) = receive_all alive c infos in (d, es ++ fs)

  unfoldable pub close : GrpcBroker S → GrpcBroker S × List Event
  close b = (record b { pending = []; stream_tx = none }, map dropped (values b.pending))

  -- What is sent to the peer, and what `accept` returns.
  unfoldable pub accept :
      {C : Type 0}
      → Bound
      → (S → ConnInfo → Bool)
      → Incoming C
      → GrpcBroker S
      → ℕ
      → List ConnInfo × Result C
  accept listener send incoming b id = elim b.stream_tx [
    | none ↦ ([], err not_started)
    | some tx ↦ elim listener [
      | unbound ↦ ([], err bind_failed)
      | unaddressed ↦ ([], err local_addr_failed)
      | bound address ↦
          if send tx (offer id address)
          then (offer id address ∷ [], accepted incoming)
          else ([], err send_failed)
    ]
  ]

-- `dial_tcp`: `parse` reads a socket address.
unfoldable pub dial_tcp :
    {P C : Type 0} → (Text → Option P) → (P → Option C) → BrokeredConn → Result C
dial_tcp parse connect conn = elim (parse conn.address) [
  | none ↦ err parse_failed
  | some addr ↦ elim (connect addr) [ none ↦ err connect_failed | some c ↦ ok c ]
]

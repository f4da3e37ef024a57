-- ===== src/Plugin/Mux.antt =====
-- crates/go-plugin/src/mux_broker.rs: streams over one connection, told apart by an id.
-- yamux and tokio's channels are arguments: what opening, reading and writing a stream give. A oneshot
-- sender is its number, and `alive` tells whether its receiver is still there.
pub mod Dialing
use pixi_ai.Common.{
  ℕ, ◌+◌, ◌*◌, ◌/◌, ◌%◌, Bool, true, false, Option, none, some, List, [], ◌∷◌, ◌==◌, map,
  if◌then◌else◌, u32_mod,
}
use pixi_ai.Common.Maps.{get, remove, insert, values, to_list}

pub data MuxError : Type 0 where
  accept_timeout accept_cancelled connection_closed reply_dropped open_failed : MuxError
  write_failed ack_failed ack_mismatch : MuxError

pub data Result {ℓ} (A : Type ℓ) : Type ℓ where
  ok : A → Result A
  err : MuxError → Result A

pub record MuxBroker : Type 0 where
  pub next : ℕ
  pub pending : List (ℕ × ℕ)

abbrev pub new : MuxBroker
new = record { next = 1; pending = [] }

abbrev pub next_id : MuxBroker → MuxBroker × ℕ
next_id b = (record b { next = (b.next + 1) % u32_mod }, b.next)

-- `u32::to_le_bytes`.
unfoldable pub to_le_bytes : ℕ → List ℕ
to_le_bytes n = n % 256 ∷ n / 256 % 256 ∷ n / 65536 % 256 ∷ n / 16777216 % 256 ∷ []

-- `u32::from_le_bytes`.
unfoldable pub from_le_bytes : List ℕ → ℕ
from_le_bytes [] = 0
from_le_bytes (b ∷ bytes) = b + 256 * from_le_bytes bytes

-- What waits on a oneshot receiver for five seconds sees.
pub data Received (C : Type 0) : Type 0 where
  received : C → Received C
  late cancelled : Received C

-- `accept` registers its sender, and drops one that stood under the id.
abbrev pub register : MuxBroker → ℕ → ℕ → MuxBroker × List ℕ
register b id tx = (record b { pending = insert id tx b.pending }, to_list (get id b.pending))

-- How `accept` ends.
abbrev pub accept_end : {C : Type 0} → Received C → Result C
accept_end (received s) = ok s
accept_end late = err accept_timeout
accept_end cancelled = err accept_cancelled

-- What polling yamux for an outbound stream gives.
pub data Polled (C : Type 0) : Type 0 where
  ready : C → Polled C
  broken not_yet : Polled C

-- The reply of the driver to a request for a stream.
abbrev pub open_reply : {C : Type 0} → Polled C → Result C
open_reply (ready s) = ok s
open_reply broken = err open_failed
open_reply not_yet = err open_failed

-- What the request for a stream gives the dialer.
pub data Opened (C : Type 0) : Type 0 where
  closed unanswered : Opened C
  answered : Result C → Opened C

-- The result, with the bytes that were written.
unfoldable pub dial : {C : Type 0} → ℕ → Opened C → Bool → Option (List ℕ) → List ℕ × Result C
dial id closed write ack = ([], err connection_closed)
dial id unanswered write ack = ([], err reply_dropped)
dial id (answered (err e)) write ack = ([], err e)
dial id (answered (ok s)) write ack =
    if write
    then (
      to_le_bytes id,
      elim ack [
        | none ↦ err ack_failed
        | some bytes ↦ if from_le_bytes bytes == id then ok s else err ack_mismatch
      ],
    )
    else ([], err write_failed)

-- What becomes of an inbound stream; a routed one is acknowledged first.
pub data Inbound : Type 0 where
  unread : Inbound
  unknown : ℕ → Inbound
  routed : ℕ → List ℕ → Bool → Inbound

-- The entry is taken out of the table; the sender that stood in it, if any, gets the stream.
abbrev pub route : (ℕ → Bool) → MuxBroker → ℕ → List ℕ → Option ℕ → MuxBroker × Inbound
route alive b id bytes none = (record b { pending = remove id b.pending }, unknown id)
route alive b id bytes (some tx) =
    (record b { pending = remove id b.pending }, routed tx bytes (alive tx))

unfoldable pub handle_inbound_stream :
    (ℕ → Bool) → MuxBroker → Option (List ℕ) → MuxBroker × Inbound
handle_inbound_stream alive b none = (b, unread)
handle_inbound_stream alive b (some bytes) =
    let id = from_le_bytes bytes in route alive b id bytes (get id b.pending)

-- The acknowledgement that the dialer can read.
abbrev pub acknowledgement : Inbound → Option (List ℕ)
acknowledgement unread = none
acknowledgement (unknown id) = none
acknowledgement (routed tx bytes taken) = some bytes

abbrev pub close : MuxBroker → MuxBroker × List ℕ
close b = (record b { pending = [] }, values b.pending)

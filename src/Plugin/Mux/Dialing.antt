-- ===== src/Plugin/Mux/Dialing.antt =====
-- crates/go-plugin/src/mux_broker.rs: a dialer and the side that accepts.
use pixi_ai.Common.{
  ℕ, ◌+◌, ◌*◌, ◌/◌, ◌%◌, ◌<◌, ◌≡◌, refl, ◌∙◌, ap, inl, inr, ◌⊎◌, Bool, true, none, some, List,
  u32_mod, arith,
}
use pixi_ai.Common.Options.{Option-cases}
use pixi_ai.Common.Maps.{get, remove}
use pixi_ai.Plugin.Mux.{
  MuxBroker, Result, ok, err, ack_failed, to_le_bytes, from_le_bytes, answered, dial, Inbound,
  unknown, routed, handle_inbound_stream, acknowledgement, route,
}

digits_lem :
    (n : ℕ)
    → n < u32_mod
    → n % 256
        + 256 * (n / 256 % 256 + 256 * (n / 65536 % 256 + 256 * (n / 16777216 % 256 + 256 * 0)))
      ≡ n
digits_lem n h = omega arith

pub from_le_bytes-to_le_bytes : (n : ℕ) → n < u32_mod → from_le_bytes (to_le_bytes n) ≡ n
unfolding from_le_bytes to_le_bytes
from_le_bytes-to_le_bytes n h = digits_lem n h

handle-none :
    (alive : ℕ → Bool) (b : MuxBroker) (id : ℕ) (bytes : List ℕ)
    → from_le_bytes bytes ≡ id
    → get id b.pending ≡ none
    → handle_inbound_stream alive b (some bytes)
      ≡ (record b { pending = remove id b.pending }, unknown id)
unfolding handle_inbound_stream
handle-none alive b id bytes f e =
    ap (λ j. route alive b j bytes (get j b.pending)) f ∙ ap (route alive b id bytes) e

handle-some :
    (alive : ℕ → Bool) (b : MuxBroker) (id tx : ℕ) (bytes : List ℕ)
    → from_le_bytes bytes ≡ id
    → get id b.pending ≡ some tx
    → handle_inbound_stream alive b (some bytes)
      ≡ (record b { pending = remove id b.pending }, routed tx bytes (alive tx))
unfolding handle_inbound_stream
handle-some alive b id tx bytes f e =
    ap (λ j. route alive b j bytes (get j b.pending)) f ∙ ap (route alive b id bytes) e

module _ {C : Type 0} where
  -- The dialer, which has written its id, reads what the other side acknowledges.
  abbrev pub hears : ℕ → C → MuxBroker × Inbound → MuxBroker × (Inbound × Result C)
  hears id s (c, i) = (c, (i, (dial id (answered (ok s)) true (acknowledgement i)).1))

  abbrev pub written : ℕ → C → List ℕ
  written id s = (dial id (answered (ok s)) true none).0

  dial-ack :
      (id : ℕ) (s : C)
      → id < u32_mod
      → (dial id (answered (ok s)) true (some (to_le_bytes id))).1 ≡ ok s
  unfolding dial
  dial-ack id s h = rw (from_le_bytes-to_le_bytes id h) (ground arith)

  -- What becomes of a dialed id, with what waited under it.
  abbrev pub Met : (ℕ → Bool) → MuxBroker → ℕ → C → MuxBroker × (Inbound × Result C) → Type 0
  Met alive b id s (c, (i, r)) =
      (c.pending ≡ remove id b.pending)
      × (((get id b.pending ≡ none) × (i ≡ unknown id) × (r ≡ err ack_failed))
          ⊎ ((tx : ℕ) × (get id b.pending ≡ some tx)
              × (i ≡ routed tx (to_le_bytes id) (alive tx))
              × (r ≡ ok s)))

  -- A stream that is dialed with a u32 id goes to the sender that waits under this id, which waits no
  -- longer, and the dialer has it too, also when the receiver is gone; where nobody waits, the dialer
  -- fails for want of an acknowledgement.
  pub meet_lem :
      (alive : ℕ → Bool) (b : MuxBroker) (id : ℕ) (s : C)
      → id < u32_mod
      → Met alive b id s (hears id s (handle_inbound_stream alive b (some (written id s))))
  unfolding dial
  meet_lem alive b id s h =
      let f = from_le_bytes-to_le_bytes id h in
      elim (Option-cases (get id b.pending)) [
        | inl e ↦ rw (handle-none alive b id (to_le_bytes id) f e) (refl, inl (e, refl, refl))
        | inr (tx, e) ↦
            rw (handle-some alive b id tx (to_le_bytes id) f e)
              (refl, inr (tx, e, refl, dial-ack id s h))
      ]

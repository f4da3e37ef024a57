-- ===== src/Plugin/Broker/Meeting.antt =====
-- crates/go-plugin/src/grpc_broker.rs: one side dials, the other accepts; and the ids that are handed out.
use mathlib.Core.Option.{some-injective}
use pixi_ai.Common.{
  ℕ, zero, suc, ◌+◌, ◌%◌, ◌<◌, ◌≤◌, ◌≡◌, ◌≢◌, refl, sym, append_assoc, if-both, ◌∙◌, ap, Bool, true,
  none, some, List, [], ◌∷◌, ◌++◌, arith, inl, inr, ◌⊎◌, u32_mod, get_elem?, All, Text, codes,
}
use pixi_ai.Common.Options.{Option-cases}
use pixi_ai.Common.Maps.{get, get-remove_self, get-remove_ne}
use pixi_ai.Plugin.Broker.{
  BrokeredConn, ConnInfo, Event, sent, GrpcBroker, next_id, offer, bound, Incoming, accept,
  accepted, Dialed, dialed, connected, received, register_pending, deliver, receive, receive_all,
  is_knock, conn_of,
}

-- A message that leaves the waiter of an id alone.
abbrev pub Other : ℕ → ConnInfo → Type 0
Other id info = (is_knock info ≡ true) ⊎ (info.service_id ≢ id)

apart : (k i j : ℕ) → k < u32_mod → i < j → j < u32_mod → (k + i) % u32_mod ≡ (k + j) % u32_mod → ⊥
apart k i j h ij jn e = omega arith

module _ {S : Type 0} where
  abbrev Waits : ℕ → ℕ → GrpcBroker S × List Event → Type 0
  Waits id tx (b, es) = get id b.pending ≡ some tx

  deliver-Waits :
      (alive : ℕ → Bool) (b : GrpcBroker S) (j : ℕ) (conn : BrokeredConn) (id tx : ℕ)
      → get id b.pending ≡ some tx
      → j ≢ id
      → Waits id tx (let (c, r) = deliver alive b j conn in (c, r.0))
  unfolding deliver
  deliver-Waits alive b j conn id tx w ne = elim (Option-cases (get j b.pending)) [
    | inl e ↦ rw (e, deliver) w
    | inr (t, e) ↦ rw (e, deliver) (get-remove_ne j id b.pending ne ∙ w)
  ]

  receive-Waits :
      (alive : ℕ → Bool) (b : GrpcBroker S) (info : ConnInfo) (id tx : ℕ)
      → get id b.pending ≡ some tx
      → Other id info
      → Waits id tx (receive alive b info)
  unfolding receive
  receive-Waits alive b info id tx w (inl k) = rw (k, receive) w
  receive-Waits alive b info id tx w (inr ne) =
      if-both (Waits id tx) (is_knock info) w
        (deliver-Waits alive b info.service_id (conn_of info) id tx w ne)

  -- What a stream does that brings the offer after messages for others.
  abbrev pub Served : ℕ → ℕ → Text → GrpcBroker S × List Event → Type 0
  Served id tx address (c, es) =
      (get id c.pending ≡ none)
      × (earlier : List Event) × (es ≡ earlier ++ sent tx (conn_of (offer id address)) ∷ [])

  receive_all-Served :
      (alive : ℕ → Bool) (before : List ConnInfo) (b : GrpcBroker S) (id tx : ℕ) (address : Text)
      → get id b.pending ≡ some tx
      → alive tx ≡ true
      → All (Other id) before
      → Served id tx address (receive_all alive b (before ++ offer id address ∷ []))
  unfolding receive_all receive deliver
  receive_all-Served alive [] b id tx address w a o =
      rw (w, a, deliver) (get-remove_self id b.pending, [], refl)
  receive_all-Served alive (info ∷ infos) b id tx address w a (o, os) =
      let (c, es) = receive alive b info in
      let (gone, earlier, e) =
        receive_all-Served alive infos c id tx address (receive-Waits alive b info id tx w o) a
          os in
      (gone, es ++ earlier, ap (◌++◌ es) e ∙ sym (append_assoc es earlier _))

  here : (id tx : ℕ) (b : GrpcBroker S) → get id (register_pending b id tx).0.pending ≡ some tx
  unfolding register_pending
  here id tx b = ground arith

  -- One side has registered the id, the other accepts it over a started stream with a listener that is
  -- bound: the first sends the waiter that side's address as a TCP connection, after whatever messages came for others,
  -- and then dials it; the other side gets what arrives at its listener.
  pub accept-Served :
      {C : Type 0} (alive : ℕ → Bool) (b peer : GrpcBroker S) (before : List ConnInfo) (id tx : ℕ)
      (s : S) (address : Text) (send : S → ConnInfo → Bool) (incoming : Incoming C)
      (connect : Text → Dialed C)
      → peer.stream_tx ≡ some s
      → send s (offer id address) ≡ true
      → alive tx ≡ true
      → All (Other id) before
      → let (offers, r) = accept (bound address) send incoming peer id in
        (r ≡ accepted incoming)
        × Served id tx address (receive_all alive (register_pending b id tx).0 (before ++ offers))
        × (dialed connect (received (conn_of (offer id address)))
            ≡ connected (connect (codes "http://" ++ address)))
  unfolding accept register_pending dialed
  accept-Served alive b peer before id tx s address send incoming connect st sending a os =
      rw (st, sending, accept)
        (
          refl,
          receive_all-Served alive before (register_pending b id tx).0 id tx address (here id tx b)
              a os,
          refl,
        )

  abbrev pub ids : ℕ → GrpcBroker S → List ℕ
  ids zero b = []
  ids (suc n) b = let (c, i) = next_id b in i ∷ ids n c

  -- The ids of consecutive calls count up from the counter, modulo 2 ^ 32.
  ids-get :
      (n : ℕ) (b : GrpcBroker S) (i : ℕ)
      → b.next < u32_mod
      → i < n
      → get_elem? (ids n b) i ≡ some ((b.next + i) % u32_mod)
  unfolding next_id
  ids-get zero b i h lt = absurd (omega arith)
  ids-get (suc n) b zero h lt = ap some (omega arith)
  ids-get (suc n) b (suc i) h lt =
      ids-get n (next_id b).0 i (omega arith) (omega arith) ∙ ap some (omega arith)

  -- The ids of up to 2 ^ 32 consecutive calls are different.
  pub ids-Distinct :
      (b : GrpcBroker S) (n i j : ℕ)
      → b.next < u32_mod
      → n ≤ u32_mod
      → i < j
      → j < n
      → get_elem? (ids n b) i ≢ get_elem? (ids n b) j
  ids-Distinct b n i j r h ij jn e =
      apart b.next i j r ij (omega arith)
        (some-injective _ _ (sym (ids-get n b i r (omega arith)) ∙ e ∙ ids-get n b j r jn))

-- ===== src/Plugin/Broker/Table.antt =====
-- crates/go-plugin/src/grpc_broker.rs: the broker as a table from ids to waiting senders.
use mathlib.Core.Path.{fun_ext}
use pixi_ai.Common.{
  ℕ, ◌≡◌, refl, ◌∙◌, ap, ap₂, Bool, true, false, Option, none, some, List, [], ◌∷◌, ◌++◌, map,
  arith, inl, inr, ◌==◌, if◌then◌else◌,
}
use pixi_ai.Common.Options.{Option-cases}
use pixi_ai.Common.Maps.{get, remove, insert, values, to_list, get-remove_self, get-remove_ne}
use pixi_ai.Plugin.Broker.{
  BrokeredConn, Event, sent, refused, dropped, GrpcBroker, next_id, register_pending, deliver,
  hand_over, receive, close, is_knock, conn_of,
}
use pixi_ai.Plugin.Broker.Ledger.{
  Call, fresh, started, dialing, delivered, message, closing, step, run,
}

-- The abstract broker: which sender waits under an id.
abbrev pub Waiters : Type 0
Waiters = ℕ → Option ℕ

abbrev pub with_waiter : ℕ → ℕ → Waiters → Waiters
with_waiter id tx f i = if id == i then some tx else f i

abbrev pub without : ℕ → Waiters → Waiters
without id f i = if id == i then none else f i

-- The sender that waits under an id gets the connection, if its receiver is still there.
abbrev pub sends_to : (ℕ → Bool) → Option ℕ → BrokeredConn → List (ℕ × BrokeredConn)
sends_to alive none conn = []
sends_to alive (some tx) conn = if alive tx then (tx, conn) ∷ [] else []

abbrev pub sends : List Event → List (ℕ × BrokeredConn)
sends [] = []
sends (sent tx conn ∷ es) = (tx, conn) ∷ sends es
sends (refused tx ∷ es) = sends es
sends (dropped tx ∷ es) = sends es

module _ {S : Type 0} where
  abbrev pub spec_step : Waiters → Call S → Waiters × List (ℕ × BrokeredConn)
  spec_step f fresh = (f, [])
  spec_step f (started tx) = (f, [])
  spec_step f (dialing id tx) = (with_waiter id tx f, [])
  spec_step f (delivered alive id conn) = (without id f, sends_to alive (f id) conn)
  spec_step f (message alive info) =
      if is_knock info
      then (f, [])
      else (without info.service_id f, sends_to alive (f info.service_id) (conn_of info))
  spec_step f closing = ((λ i. none), [])

  abbrev pub spec_run : Waiters → List (Call S) → Waiters × List (ℕ × BrokeredConn)
  spec_run f [] = (f, [])
  spec_run f (c ∷ cs) =
      let (g, out) = spec_step f c in let (h, rest) = spec_run g cs in (h, out ++ rest)

  abbrev pub view : GrpcBroker S → Waiters
  view b i = get i b.pending

  -- What a concrete result shows of the abstract one.
  abbrev pub shows : GrpcBroker S × List Event → Waiters × List (ℕ × BrokeredConn)
  shows (b, es) = (view b, sends es)

get-insert :
    (id tx i : ℕ) (m : List (ℕ × ℕ)) → get i (insert id tx m) ≡ with_waiter id tx (λ j. get j m) i
get-insert id tx i m = ground (arith, get-remove_ne id i m)

get-remove : (id i : ℕ) (m : List (ℕ × ℕ)) → get i (remove id m) ≡ without id (λ j. get j m) i
get-remove id i m = ground (arith, get-remove_self id m, get-remove_ne id i m)

sends-append : (es fs : List Event) → sends (es ++ fs) ≡ sends es ++ sends fs
sends-append [] fs = refl
sends-append (sent tx conn ∷ es) fs = ap (◌∷◌ (tx, conn)) (sends-append es fs)
sends-append (refused tx ∷ es) fs = sends-append es fs
sends-append (dropped tx ∷ es) fs = sends-append es fs

sends-dropped : (xs : List ℕ) → sends (map dropped xs) ≡ []
sends-dropped [] = refl
sends-dropped (x ∷ xs) = sends-dropped xs

sends-hand_over :
    (alive : ℕ → Bool) (tx : ℕ) (conn : BrokeredConn)
    → sends (hand_over (alive tx) tx conn).0 ≡ sends_to alive (some tx) conn
sends-hand_over alive tx conn = ground arith

-- Taking an id away that nothing waits under changes nothing.
without-absent : (id : ℕ) (f : Waiters) → f id ≡ none → (i : ℕ) → f i ≡ without id f i
without-absent id f e i = ground arith

module _ {S : Type 0} where
  deliver-shows :
      (alive : ℕ → Bool) (b : GrpcBroker S) (id : ℕ) (conn : BrokeredConn)
      → shows (let (c, r) = deliver alive b id conn in (c, r.0))
        ≡ (without id (view b), sends_to alive (view b id) conn)
  unfolding deliver
  deliver-shows alive b id conn = elim (Option-cases (get id b.pending)) [
    | inl e ↦ rw (e, deliver) (ap (λ f. (f, [])) (fun_ext (without-absent id (view b) e)))
    | inr (t, e) ↦
        rw (e, deliver)
          (ap₂ (λ f out. (f, out)) (fun_ext (λ i. get-remove id i b.pending))
            (sends-hand_over alive t conn))
  ]

  if-shows :
      (b : GrpcBroker S) (k : Bool) (r : GrpcBroker S × List Event)
      {s : Waiters × List (ℕ × BrokeredConn)}
      → shows r ≡ s
      → shows (if k then (b, []) else r) ≡ (if k then (view b, []) else s)
  if-shows b true r e = refl
  if-shows b false r e = e

  step-shows : (b : GrpcBroker S) (c : Call S) → shows (step b c) ≡ spec_step (view b) c
  unfolding next_id register_pending receive close
  step-shows b fresh = refl
  step-shows b (started s) = refl
  step-shows b (dialing id t) =
      ap₂ (λ f out. (f, out)) (fun_ext (λ i. get-insert id t i b.pending))
        (sends-dropped (to_list (get id b.pending)))
  step-shows b (delivered alive id conn) = deliver-shows alive b id conn
  step-shows b (message alive info) =
      if-shows b (is_knock info)
        (let (c, r) = deliver alive b info.service_id (conn_of info) in (c, r.0))
        (deliver-shows alive b info.service_id (conn_of info))
  step-shows b closing = ap (λ out. ((λ i. none), out)) (sends-dropped (values b.pending))

  -- The broker refines the table: after any calls the same senders wait under the same ids, and the same
  -- senders got the same connections in the same order.
  pub run-shows : (cs : List (Call S)) (b : GrpcBroker S) → shows (run b cs) ≡ spec_run (view b) cs
  unfolding run
  run-shows [] b = refl
  run-shows (c ∷ cs) b =
      let b' = (step b c).0 in
      let now = step-shows b c in
      let after = run-shows cs b' ∙ ap (λ s. spec_run s.0 cs) now in
      ap₂ (λ f out. (f, out)) (ap (λ s. s.0) after)
        (sends-append (step b c).1 (run b' cs).1
          ∙ ap₂ (◌++◌) (ap (λ s. s.1) now) (ap (λ s. s.1) after))

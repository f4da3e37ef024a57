-- ===== src/Plugin/Broker/Ledger.antt =====
-- crates/go-plugin/src/grpc_broker.rs: every registered sender is used once.
use pixi_ai.Common.{
  ℕ, ◌+◌, ◌≡◌, refl, Bool, true, false, List, [], ◌∷◌, ◌++◌, map, arith, inl, inr, if-both,
}
use pixi_ai.Common.Maps.{
  count, get, values, to_list, Distinct, remove-Distinct, insert-Distinct, count-remove,
  count-remove-some,
}
use pixi_ai.Common.Options.{Option-cases}
use pixi_ai.Plugin.Broker.{
  BrokeredConn, ConnInfo, Event, sent, refused, dropped, GrpcBroker, new, next_id, set_stream_tx,
  register_pending, deliver, hand_over, receive, close, is_knock, conn_of,
}

-- The sender that an event is about.
abbrev pub about : Event → ℕ
about (sent tx conn) = tx
about (refused tx) = tx
about (dropped tx) = tx

abbrev pub spent : ℕ → List Event → ℕ
spent tx es = count tx (map about es)

count-append : (n : ℕ) (xs ys : List ℕ) → count n (xs ++ ys) ≡ count n xs + count n ys
count-append n [] ys = omega arith
count-append n (x ∷ xs) ys = omega (arith, count-append n xs ys)

spent-append : (tx : ℕ) (es fs : List Event) → spent tx (es ++ fs) ≡ spent tx es + spent tx fs
spent-append tx [] fs = omega arith
spent-append tx (e ∷ es) fs = omega (arith, spent-append tx es fs)

spent-dropped : (tx : ℕ) (xs : List ℕ) → spent tx (map dropped xs) ≡ count tx xs
spent-dropped tx [] = refl
spent-dropped tx (x ∷ xs) = omega (arith, spent-dropped tx xs)

spent-hand_over :
    (tx t : ℕ) (a : Bool) (conn : BrokeredConn)
    → spent tx (hand_over a t conn).0 ≡ count tx (t ∷ [])
spent-hand_over tx t true conn = refl
spent-hand_over tx t false conn = refl

-- The calls that change the broker; the flags of a message tell which receivers are still there.
pub data Call (S : Type 0) : Type 0 where
  fresh : Call S
  started : S → Call S
  dialing : ℕ → ℕ → Call S
  delivered : (ℕ → Bool) → ℕ → BrokeredConn → Call S
  message : (ℕ → Bool) → ConnInfo → Call S
  closing : Call S

module _ {S : Type 0} where
  abbrev pub step : GrpcBroker S → Call S → GrpcBroker S × List Event
  step b fresh = ((next_id b).0, [])
  step b (started tx) = (set_stream_tx b tx, [])
  step b (dialing id tx) = register_pending b id tx
  step b (delivered alive id conn) = let (c, r) = deliver alive b id conn in (c, r.0)
  step b (message alive info) = receive alive b info
  step b closing = close b

  unfoldable pub run : GrpcBroker S → List (Call S) → GrpcBroker S × List Event
  run b [] = (b, [])
  run b (c ∷ cs) = let (b', es) = step b c in let (b'', fs) = run b' cs in (b'', es ++ fs)

  -- How often a sender is registered by a call.
  abbrev pub entered : ℕ → Call S → ℕ
  entered tx (dialing id t) = count tx (t ∷ [])
  entered tx c = 0

  abbrev pub registered : ℕ → List (Call S) → ℕ
  registered tx [] = 0
  registered tx (c ∷ cs) = entered tx c + registered tx cs

  abbrev waiting : ℕ → GrpcBroker S → ℕ
  waiting tx b = count tx (values b.pending)

  -- What a call does to the senders it holds.
  abbrev Balanced : ℕ → ℕ → GrpcBroker S → GrpcBroker S × List Event → Type 0
  Balanced tx n b r = Distinct r.0.pending × (n + waiting tx b ≡ waiting tx r.0 + spent tx r.1)

  register_pending-Balanced :
      (tx : ℕ) (b : GrpcBroker S) (id t : ℕ)
      → Distinct b.pending
      → Balanced tx (count tx (t ∷ [])) b (register_pending b id t)
  unfolding register_pending
  register_pending-Balanced tx b id t d = (
    insert-Distinct id t b.pending d,
    omega (arith, count-remove tx id b.pending d, spent-dropped tx (to_list (get id b.pending))),
  )

  deliver-Balanced :
      (tx : ℕ) (alive : ℕ → Bool) (b : GrpcBroker S) (id : ℕ) (conn : BrokeredConn)
      → Distinct b.pending
      → Balanced tx 0 b (let (c, r) = deliver alive b id conn in (c, r.0))
  unfolding deliver
  deliver-Balanced tx alive b id conn d = elim (Option-cases (get id b.pending)) [
    | inl e ↦ rw (e, deliver) (d, omega arith)
    | inr (t, e) ↦
        rw (e, deliver)
          (
            remove-Distinct id b.pending d,
            omega
                (arith, count-remove-some tx id b.pending d e, spent-hand_over tx t (alive t) conn),
          )
  ]

  receive-Balanced :
      (tx : ℕ) (alive : ℕ → Bool) (b : GrpcBroker S) (info : ConnInfo)
      → Distinct b.pending
      → Balanced tx 0 b (receive alive b info)
  unfolding receive
  receive-Balanced tx alive b info d =
      if-both (Balanced tx 0 b) (is_knock info) (d, omega arith)
        (deliver-Balanced tx alive b info.service_id (conn_of info) d)

  step-Balanced :
      (tx : ℕ) (b : GrpcBroker S) (c : Call S)
      → Distinct b.pending
      → Balanced tx (entered tx c) b (step b c)
  unfolding next_id close
  step-Balanced tx b fresh d = (d, omega arith)
  step-Balanced tx b (started s) d = (d, omega arith)
  step-Balanced tx b (dialing id t) d = register_pending-Balanced tx b id t d
  step-Balanced tx b (delivered alive id conn) d = deliver-Balanced tx alive b id conn d
  step-Balanced tx b (message alive info) d = receive-Balanced tx alive b info d
  step-Balanced tx b closing d = (tt, omega (arith, spent-dropped tx (values b.pending)))

  run-Balanced :
      (tx : ℕ) (cs : List (Call S)) (b : GrpcBroker S)
      → Distinct b.pending
      → Balanced tx (registered tx cs) b (run b cs)
  unfolding run
  run-Balanced tx [] b d = (d, omega arith)
  run-Balanced tx (c ∷ cs) b d =
      let (d', e) = step-Balanced tx b c d in
      let (d'', f) = run-Balanced tx cs (step b c).0 d' in
      (d'', omega (arith, e, f, spent-append tx (step b c).1 (run (step b c).0 cs).1))

  -- Whatever is called on a new broker, a sender has been sent on, refused or dropped as often as it was
  -- registered, but for the times that it still waits; no id waits twice.
  pub run-Settled :
      (mux : Bool) (cs : List (Call S)) (tx : ℕ)
      → let (b, es) = run (new mux) cs in
        Distinct b.pending × (registered tx cs ≡ count tx (values b.pending) + spent tx es)
  unfolding new
  run-Settled mux cs tx = let (d, e) = run-Balanced tx cs (new mux) tt in (d, omega (arith, e))

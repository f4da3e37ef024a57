-- ===== src/Plugin/Rpc/Replies.antt =====
-- crates/go-plugin/src/{rpc_client,rpc_server}.rs: what the host makes of an answer.
use pixi_ai.Common.{
  ℕ, ◌≢◌, Bool, if-split, ◌+◌, ◌-◌, ◌%◌, ◌^◌, ◌≤◌, ◌<◌, ◌≡◌, refl, ap, ◌∙◌, true, false, not, some,
  List, [], ◌∷◌, ◌++◌, ◌⊎◌, inl, inr, if◌then◌else◌, ltb, leb, ◌==◌, length, Text, text_eq, arith,
  u32_mod, if-both,
}
use pixi_ai.Plugin.Rpc.Stream.{Stream, read_exact, write_all, write_all_lem, read_exact-piece}
use pixi_ai.Plugin.Rpc.Codec.{
  Msgpack, Format, RpcRequest, RpcResponse, encode_request, to_be_bytes, from_be,
  from_be-to_be_bytes, max_message, control_ping, control_quit, dispenser_dispense,
}
use pixi_ai.Plugin.Rpc.Server.{RpcServer, handle_request, dispensed, contains_key}
use pixi_ai.Plugin.Rpc.Client.{
  RpcClient, Result, ok, err, sequence_mismatch, refused, no_result, next_seq, is_empty, decoded,
  judged, finish, take_body, take_length, sent, send_body, send, call, no_header, too_large,
  not_flushed,
}

module _ (m : Msgpack) where
  read_reply : {R : Type 0} → Format R → Text → ℕ → Text ⊎ (RpcResponse × List ℕ) → Result R
  read_reply result method seq r = elim r [
    | inl e ↦ err (no_header e)
    | inr (resp, body) ↦ judged m result method seq resp body
  ]

  small_mod : (n : ℕ) → n < u32_mod → n % u32_mod ≡ n
  small_mod n h = omega arith

  flushes : (room : ℕ) → 3 ≤ room → leb 1 (room - 1 - 1) ≡ true
  flushes room h = ground arith

  fits : (n : ℕ) → n ≤ max_message → ltb max_message n ≡ false
  fits n h = ground arith

  abbrev Echoes : RpcRequest → RpcServer × (RpcResponse × List ℕ) → Type 0
  Echoes req (srv, (resp, body)) = (resp.service_method ≡ req.service_method) × (resp.seq ≡ req.seq)

  dispensed-Echoes :
      (srv : RpcServer) (req : RpcRequest) (r : Text ⊎ (Text × List ℕ))
      → Echoes req (dispensed m srv req r)
  dispensed-Echoes srv req (inl e) = (refl, refl)
  dispensed-Echoes srv req (inr (name, rest)) =
      if-both (Echoes req) (contains_key name srv.plugins) (refl, refl) (refl, refl)

  -- Every answer carries the method and the sequence number of its request.
  pub handle_request-Echoes :
      (srv : RpcServer) (req : RpcRequest) (body : List ℕ)
      → Echoes req (handle_request m srv req body)
  unfolding handle_request
  handle_request-Echoes srv req body =
      if-both (Echoes req) (text_eq req.service_method control_ping) (refl, refl)
        (if-both (Echoes req) (text_eq req.service_method control_quit) (refl, refl)
          (if-both (Echoes req) (text_eq req.service_method dispenser_dispense)
            (dispensed-Echoes srv req (m.name.parse body)) (refl, refl)))

  -- What the host makes of an answer: an error where the number is not that of the call, or the answer
  -- tells of an error, or the result cannot be parsed; and else the result behind the header.
  abbrev pub Judged : {R : Type 0} → Format R → Text → ℕ → RpcResponse → List ℕ → Result R → Type 0
  Judged {R = R} result method seq resp rest r =
      ((resp.seq ≢ seq) × (r ≡ err (sequence_mismatch seq resp.seq)))
      ⊎ (((resp.seq ≡ seq) × (resp.error ≢ []) × (r ≡ err (refused method resp.error)))
          ⊎ (((e : Text) × (resp.seq ≡ seq)
                × (resp.error ≡ [])
                × (result.parse rest ≡ inl e)
                × (r ≡ err (no_result e)))
              ⊎ ((v : R) × (left : List ℕ) × (resp.seq ≡ seq)
                  × (resp.error ≡ [])
                  × (result.parse rest ≡ inr (v, left))
                  × (r ≡ ok v))))

  same_seq : (a b : ℕ) → (a == b) ≡ true → a ≡ b
  same_seq a b e = ground arith

  other_seq : (a b : ℕ) → (a == b) ≡ false → a ≢ b
  other_seq a b e = ground arith

  parsed-Judged :
      {R : Type 0} (result : Format R) (method : Text) (seq : ℕ) (resp : RpcResponse)
      (rest : List ℕ) (o : Text ⊎ (R × List ℕ))
      → resp.seq ≡ seq
      → resp.error ≡ []
      → result.parse rest ≡ o
      → Judged result method seq resp rest (decoded m result o)
  parsed-Judged result method seq resp rest (inl e) s none_told p =
      inr (inr (inl (e, s, none_told, p, refl)))
  parsed-Judged result method seq resp rest (inr (v, left)) s none_told p =
      inr (inr (inr (v, left, s, none_told, p, refl)))

  told-Judged :
      {R : Type 0} (result : Format R) (method : Text) (seq : ℕ) (resp : RpcResponse)
      (rest : List ℕ) (error : Text)
      → resp.error ≡ error
      → resp.seq ≡ seq
      → Judged result method seq resp rest (
          if not (is_empty error)
          then err (refused method resp.error)
          else decoded m result (result.parse rest))
  told-Judged result method seq resp rest [] told s =
      parsed-Judged result method seq resp rest (result.parse rest) s told refl
  told-Judged result method seq resp rest (c ∷ t) told s = inr (inl (s, (λ e. cc), refl))

  not-true : (b : Bool) → not b ≡ true → b ≡ false
  not-true true e = cc
  not-true false e = refl

  not-false : (b : Bool) → not b ≡ false → b ≡ true
  not-false true e = refl
  not-false false e = cc

  judged-Judged :
      {R : Type 0} (result : Format R) (method : Text) (seq : ℕ) (resp : RpcResponse)
      (rest : List ℕ)
      → Judged result method seq resp rest (judged m result method seq resp rest)
  judged-Judged result method seq resp rest =
      if-split (Judged result method seq resp rest) (not (resp.seq == seq))
        (λ e. inl (other_seq resp.seq seq (not-true (resp.seq == seq) e), refl))
        (λ e.
          told-Judged result method seq resp rest resp.error refl
            (same_seq resp.seq seq (not-false (resp.seq == seq) e)))

  -- A call whose request is sent and whose answer arrives in one piece.
  call-judged :
      {T R : Type 0} (f : Format T) (result : Format R) (method : Text) (body : T) (seq room : ℕ)
      (encoded p : List ℕ) (pieces out : List (List ℕ)) (resp : RpcResponse) (rest : List ℕ)
      → encode_request m f (record { service_method = method; seq = seq }) body ≡ some encoded
      → length encoded < u32_mod
      → 3 ≤ room
      → length p ≤ max_message
      → m.response.parse p ≡ inr (resp, rest)
      → call m result f method body (record {
        seq = seq;
        stream = record {
          incoming = to_be_bytes (length p) ∷ p ∷ pieces;
          outgoing = out;
          room = room;
        };
      })
        ≡ (
          record {
            seq = (seq + 1) % 2 ^ 64;
            stream = record {
              incoming = pieces;
              outgoing = (out ++ (to_be_bytes (length encoded) ∷ [])) ++ (encoded ∷ []);
              room = room - 1 - 1;
            };
          },
          judged m result method seq resp rest,
        )
  unfolding call next_seq finish read_reply to_be_bytes from_be
  call-judged {R = R} f result method body seq room encoded p pieces out resp rest e short k len
        parsed =
      let at = λ (inc o : List (List ℕ)) (k : ℕ).
        let s : Stream = record { incoming = inc; outgoing = o; room = k } in s in
      let wrap = λ (r : Stream × Result R).
        let c : RpcClient = record { seq = (seq + 1) % 2 ^ 64; stream = r.0 } in
        let w : RpcClient × Result R = (c, r.1) in w in
      let four = to_be_bytes (length p) in
      let head = to_be_bytes (length encoded) in
      let all = four ∷ p ∷ pieces in
      let s₂ = at all ((out ++ (head ∷ [])) ++ (encoded ∷ [])) (room - 1 - 1) in
      let s₃ = record s₂ { incoming = p ∷ pieces } in
      ap (λ o. wrap (send m result method seq o (at all out room))) e
      ∙ ap
          (λ n.
            wrap
              (send_body m result method seq encoded (write_all (to_be_bytes n) (at all out room))))
          (small_mod (length encoded) short)
      ∙ ap (λ r. wrap (send_body m result method seq encoded r))
          (write_all_lem head (at all out room) (omega arith))
      ∙ ap (λ r. wrap (sent m result method seq r))
          (write_all_lem encoded (at all (out ++ (head ∷ [])) (room - 1)) (omega arith))
      ∙ ap
          (λ b. wrap (
            if b then take_length m result method seq (read_exact 4 s₂) else (s₂, err not_flushed)))
          (flushes room k)
      ∙ ap (λ r. wrap (take_length m result method seq r))
          (read_exact-piece four (p ∷ pieces) s₂.outgoing s₂.room)
      ∙ ap
          (λ l. wrap (
            if ltb max_message l
            then (s₃, err (too_large l))
            else take_body m result method seq (read_exact l s₃)))
          (from_be-to_be_bytes (length p) (omega arith))
      ∙ ap
          (λ b. wrap (
            if b
            then (s₃, err (too_large (length p)))
            else take_body m result method seq (read_exact (length p) s₃)))
          (fits (length p) len)
      ∙ ap (λ r. wrap (take_body m result method seq r))
          (read_exact-piece p pieces s₂.outgoing s₂.room)
      ∙ ap (λ r. wrap (record s₂ { incoming = pieces }, read_reply result method seq r)) parsed

  -- A call whose request is sent and whose answer arrives in one piece, its length before it, writes
  -- the request behind its length and takes the next sequence number; and gives the result behind the
  -- answer's header where the number is that of the call, the answer tells of no error and the result can
  -- be parsed, and else the error that tells which of these fails first. So it is where the request can be
  -- encoded and is below 2 ^ 32 bytes, the answer is of 10 MiB at most with a header that can be parsed,
  -- and the stream takes the writes.
  pub call_lem :
      {T R : Type 0} (f : Format T) (result : Format R) (method : Text) (body : T) (seq room : ℕ)
      (encoded p : List ℕ) (pieces out : List (List ℕ)) (resp : RpcResponse) (rest : List ℕ)
      → encode_request m f (record { service_method = method; seq = seq }) body ≡ some encoded
      → length encoded < u32_mod
      → 3 ≤ room
      → length p ≤ max_message
      → m.response.parse p ≡ inr (resp, rest)
      → (r : Result R) × (call m result f method body (record {
        seq = seq;
        stream = record {
          incoming = to_be_bytes (length p) ∷ p ∷ pieces;
          outgoing = out;
          room = room;
        };
      })
          ≡ (
            record {
              seq = (seq + 1) % 2 ^ 64;
              stream = record {
                incoming = pieces;
                outgoing = (out ++ (to_be_bytes (length encoded) ∷ [])) ++ (encoded ∷ []);
                room = room - 1 - 1;
              };
            },
            r,
          ))
        × Judged result method seq resp rest r
  call_lem f result method body seq room encoded p pieces out resp rest e short k len parsed = (
    judged m result method seq resp rest,
    call-judged f result method body seq room encoded p pieces out resp rest e short k len parsed,
    judged-Judged result method seq resp rest,
  )

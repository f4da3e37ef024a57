-- ===== src/Plugin/Protocol/RoundTrip.antt =====
-- crates/go-plugin/src/protocol.rs: what the host reads of a line that the plugin prints.
use pixi_ai.Common.{
  ℕ, ◌<◌, true, false, Option, none, some, List, [], ◌∷◌, ◌++◌, ◌≡◌, ◌≢◌, refl, sym, ap, ap₂,
  Bool-cases, inl, inr, ◌∙◌, arith, All, u32_mod, get_elem?, Text, codes, text_eq, append_assoc,
  append-nil,
}
use pixi_ai.Common.Split.{
  join, trim, trim_start, trim_end, is_space, Lacks, Solid, split-join, trim_end-append,
  trim_end-Solid,
}
use pixi_ai.Common.Decimal.{
  is_digit, to_string, to_string-digits, to_string-ne-nil, parse_u32-to_string,
}
use pixi_ai.Plugin.Protocol.{
  ServerNegotiationLine, Protocol, grpc, net_rpc, as_str, from_str, ok, parse, parse_fields,
  mux_field, encode, base_fields, bar, or_empty, cert_field,
}

-- A text that ends in a part without spaces.
abbrev Ends : Text → Type 0
Ends s = (u : Text) × (c : ℕ) × (t : Text) × Solid (c ∷ t) × (s ≡ u ++ (c ∷ t))

Ends-append : (u s : Text) → Ends s → Ends (u ++ s)
Ends-append u s (v, c, t, h, e) =
    (u ++ v, c, t, h, ap (λ x. u ++ x) e ∙ sym (append_assoc u v (c ∷ t)))

Ends-join : (p : Text) (ps : List Text) (q : Text) → Ends q → Ends (join bar (p ∷ ps ++ (q ∷ [])))
unfolding join
Ends-join p [] q h = Ends-append p (bar ++ q) (Ends-append bar q h)
Ends-join p (r ∷ ps) q h =
    Ends-append p (bar ++ join bar (r ∷ ps ++ (q ∷ [])))
      (Ends-append bar (join bar (r ∷ ps ++ (q ∷ []))) (Ends-join r ps q h))

trim_end-Ends : (s : Text) → Ends s → trim_end s ≡ s
trim_end-Ends s (u, c, t, h, e) = rw e (trim_end-append u c t h)

digit_lem : (c : ℕ) → is_digit c ≡ true → is_space c ≡ false
digit_lem c h = ground arith

trim_start-digits :
    (s rest : Text) → All (λ c. is_digit c ≡ true) s → s ≢ [] → trim_start (s ++ rest) ≡ s ++ rest
unfolding trim_start
trim_start-digits [] rest d h = absurd (h refl)
trim_start-digits (c ∷ s) rest (d, _) h = rw (digit_lem c d)

digits-Lacks : (s : Text) → All (λ c. is_digit c ≡ true) s → Lacks b'|' s
digits-Lacks [] h = tt
digits-Lacks (c ∷ s) (d, h) = (ground arith, digits-Lacks s h)

join-append : (p : Text) (ps : List Text) → (rest : Text) × (join bar (p ∷ ps) ≡ p ++ rest)
unfolding join
join-append p [] = ([], sym (append-nil p))
join-append p (q ∷ ps) = (bar ++ join bar (q ∷ ps), refl)

trim-join :
    (n : ℕ) (ps : List Text) (q : Text)
    → Ends q
    → trim (join bar (to_string n ∷ ps ++ (q ∷ []))) ≡ join bar (to_string n ∷ ps ++ (q ∷ []))
unfolding trim
trim-join n ps q h =
    let (rest, e) = join-append (to_string n) (ps ++ (q ∷ [])) in
    let start : trim_start (join bar (to_string n ∷ ps ++ (q ∷ [])))
        ≡ join bar (to_string n ∷ ps ++ (q ∷ [])) =
      rw e (trim_start-digits (to_string n) rest (to_string-digits n) (to_string-ne-nil n)) in
    rw start
      (trim_end-Ends (join bar (to_string n ∷ ps ++ (q ∷ []))) (Ends-join (to_string n) ps q h))

parse-join :
    (n : ℕ) (ps : List Text) (q : Text)
    → All (Lacks b'|') (ps ++ (q ∷ []))
    → Ends q
    → parse (join bar (to_string n ∷ ps ++ (q ∷ []))) ≡ parse_fields (to_string n ∷ ps ++ (q ∷ []))
unfolding parse
parse-join n ps q l h = rw (trim-join n ps q h) (
    ap parse_fields (
      split-join b'|' (to_string n) (ps ++ (q ∷ []))
        (digits-Lacks (to_string n) (to_string-digits n), l)))

from_str-as_str : (p : Protocol) → from_str (as_str p) ≡ ok p
unfolding from_str
from_str-as_str grpc = refl
from_str-as_str net_rpc = refl

as_str-Lacks : (p : Protocol) → Lacks b'|' (as_str p)
as_str-Lacks grpc = ground arith
as_str-Lacks net_rpc = ground arith

as_str-Ends : (p : Protocol) → Ends (as_str p)
as_str-Ends grpc = ([], b'g', codes "rpc", ground arith, refl)
as_str-Ends net_rpc = ([], b'n', codes "etrpc", ground arith, refl)

parse_fields-base_fields :
    (l : ServerNegotiationLine) (more : List Text)
    → l.core_version < u32_mod
    → l.app_version < u32_mod
    → parse_fields (base_fields l ++ more)
      ≡ ok (record l {
        server_cert = cert_field (get_elem? more 0);
        mux_supported = mux_field (get_elem? more 1);
      })
unfolding parse_fields
parse_fields-base_fields l more hc ha =
    rw (parse_u32-to_string l.core_version hc)
      (rw (parse_u32-to_string l.app_version ha) (rw (from_str-as_str l.protocol) refl))

Ends-cert : (c : ℕ) (t : Text) → Solid (c ∷ t) → Ends (c ∷ t)
Ends-cert c t h = ([], c, t, h, refl)

base-Lacks :
    (l : ServerNegotiationLine) (more : List Text)
    → Lacks b'|' l.network
    → Lacks b'|' l.address
    → All (Lacks b'|') more
    → All (Lacks b'|') (to_string l.app_version ∷ l.network ∷ l.address ∷ as_str l.protocol ∷ more)
base-Lacks l more hn ha hm = (
  digits-Lacks (to_string l.app_version) (to_string-digits l.app_version),
  (hn, (ha, (as_str-Lacks l.protocol, hm))),
)

encode-cert :
    (l : ServerNegotiationLine) (cert : Text)
    → or_empty l.server_cert ≡ cert
    → Solid cert
    → l.mux_supported ≡ false
    → l.core_version < u32_mod
    → l.app_version < u32_mod
    → Lacks b'|' l.network
    → Lacks b'|' l.address
    → Lacks b'|' cert
    → parse (encode l)
      ≡ ok (record l { server_cert = cert_field (some cert); mux_supported = false })
unfolding encode
encode-cert l [] e s m hc hv hn ha hl =
    let middle = to_string l.app_version ∷ l.network ∷ l.address ∷ [] in
    rw m (
      rw e (
        parse-join l.core_version middle (as_str l.protocol) (base-Lacks l [] hn ha tt)
          (as_str-Ends l.protocol)
        ∙ parse_fields-base_fields l [] hc hv))
encode-cert l (c ∷ t) e s m hc hv hn ha hl =
    let middle = to_string l.app_version ∷ l.network ∷ l.address ∷ as_str l.protocol ∷ [] in
    rw m (
      rw e (
        parse-join l.core_version middle (c ∷ t) (base-Lacks l ((c ∷ t) ∷ []) hn ha (hl, tt))
          (Ends-cert c t s)
        ∙ parse_fields-base_fields l ((c ∷ t) ∷ []) hc hv))

encode-mux :
    (l : ServerNegotiationLine)
    → l.mux_supported ≡ true
    → l.core_version < u32_mod
    → l.app_version < u32_mod
    → Lacks b'|' l.network
    → Lacks b'|' l.address
    → Lacks b'|' (or_empty l.server_cert)
    → parse (encode l)
      ≡ ok (record l {
        server_cert = cert_field (some (or_empty l.server_cert));
        mux_supported = true;
      })
unfolding encode text_eq
encode-mux l m hc hv hn ha hl =
    let cert = or_empty l.server_cert in
    let middle = to_string l.app_version ∷ l.network ∷ l.address ∷ as_str l.protocol ∷ cert ∷ [] in
    rw m (
      parse-join l.core_version middle (codes "true")
        (base-Lacks l (cert ∷ codes "true" ∷ []) hn ha (hl, (ground arith, tt)))
        ([], b't', codes "rue", ground arith, refl)
      ∙ parse_fields-base_fields l (cert ∷ codes "true" ∷ []) hc hv)

cert_field-or_empty : (c : Option Text) → cert_field (some (or_empty c)) ≡ cert_field c
cert_field-or_empty none = refl
cert_field-or_empty (some s) = refl

-- What the plugin encodes, the host parses: with u32 versions, a network and an address without bars
-- and a certificate without bars and spaces, `parse (encode l)` gives `l` back, where an empty
-- certificate is read as none.
pub parse-encode :
    (l : ServerNegotiationLine)
    → l.core_version < u32_mod
    → l.app_version < u32_mod
    → Lacks b'|' l.network
    → Lacks b'|' l.address
    → Lacks b'|' (or_empty l.server_cert)
    → Solid (or_empty l.server_cert)
    → parse (encode l) ≡ ok (record l { server_cert = cert_field l.server_cert })
parse-encode l hc hv hn ha hl hs = elim (Bool-cases l.mux_supported) [
  | inl m ↦
      encode-mux l m hc hv hn ha hl
      ∙ ap₂ (λ c b. ok (record l { server_cert = c; mux_supported = b }))
          (cert_field-or_empty l.server_cert) (sym m)
  | inr m ↦
      encode-cert l (or_empty l.server_cert) refl hs m hc hv hn ha hl
      ∙ ap₂ (λ c b. ok (record l { server_cert = c; mux_supported = b }))
          (cert_field-or_empty l.server_cert) (sym m)
]

digits-Solid : (s : Text) → All (λ c. is_digit c ≡ true) s → Solid s
digits-Solid [] h = tt
digits-Solid (c ∷ s) (d, h) = (digit_lem c d, digits-Solid s h)

pub trim-to_string : (n : ℕ) → trim (to_string n) ≡ to_string n
unfolding trim
trim-to_string n =
    let start : trim_start (to_string n ++ []) ≡ to_string n ++ [] =
      trim_start-digits (to_string n) [] (to_string-digits n) (to_string-ne-nil n) in
    let start' : trim_start (to_string n) ≡ to_string n =
      ap trim_start (sym (append-nil (to_string n))) ∙ start ∙ append-nil (to_string n) in
    rw start' (trim_end-Solid (to_string n) (digits-Solid (to_string n) (to_string-digits n)))

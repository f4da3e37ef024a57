-- ===== src/Plugin/Protocol/Bounds.antt =====
-- crates/go-plugin/src/protocol.rs: what a line that the host accepts holds.
use pixi_ai.Common.{
  ℕ, ◌≤◌, ◌<◌, ◌≡◌, ◌≢◌, Option, none, some, List, [], ◌∷◌, arith, u32_mod, length, get_elem?, Text,
  Option-cases, inl, inr, ◌⊎◌, refl,
}
use pixi_ai.Common.Split.{split, trim}
use pixi_ai.Common.Decimal.{parse_u32, parse_u32-lt}
use pixi_ai.Plugin.Protocol.{
  ServerNegotiationLine, from_str, Result, ok, err, parse, parse_fields, PluginError,
  version_or_err, cert_field,
}

version_or_err-lt : (s : Text) (n : ℕ) → version_or_err (parse_u32 s) ≡ ok n → n < u32_mod
version_or_err-lt s n e = elim (Option-cases (parse_u32 s)) [
  | inl h ↦ ground arith
  | inr (m, h) ↦ ground (arith, parse_u32-lt s {r = m} h)
]

Result-cases {ℓ} :
    {A : Type ℓ} (r : Result A) → ((a : A) × (r ≡ ok a)) ⊎ ((e : PluginError) × (r ≡ err e))
Result-cases (ok a) = inl (a, refl)
Result-cases (err e) = inr (e, refl)

cert_field-nonempty : (o : Option Text) → cert_field o ≢ some []
cert_field-nonempty none e = cc
cert_field-nonempty (some []) e = cc
cert_field-nonempty (some (c ∷ s)) e = ground arith

parse_fields-ok :
    (fields : List Text) (l : ServerNegotiationLine)
    → parse_fields fields ≡ ok l
    → (5 ≤ length fields)
      × (l.core_version < u32_mod)
      × (l.app_version < u32_mod)
      × (l.server_cert ≢ some [])
unfolding parse_fields
parse_fields-ok (core ∷ app ∷ network ∷ address ∷ protocol ∷ more) l e =
    elim (Result-cases (version_or_err (parse_u32 core))) [
      | inr (x, h) ↦ absurd (ground arith)
      | inl (n, h) ↦ elim (Result-cases (version_or_err (parse_u32 app))) [
        | inr (x, k) ↦ absurd (ground arith)
        | inl (m, k) ↦ elim (Result-cases (from_str protocol)) [
          | inr (x, i) ↦ absurd (ground arith)
          | inl (p, i) ↦ ground (
            arith,
            version_or_err-lt core n h,
            version_or_err-lt app m k,
            cert_field-nonempty (get_elem? more 0),
          )
        ]
      ]
    ]
parse_fields-ok [] l e = absurd (ground arith)
parse_fields-ok (a ∷ []) l e = absurd (ground arith)
parse_fields-ok (a ∷ b ∷ []) l e = absurd (ground arith)
parse_fields-ok (a ∷ b ∷ c ∷ []) l e = absurd (ground arith)
parse_fields-ok (a ∷ b ∷ c ∷ d ∷ []) l e = absurd (ground arith)

-- A line that is parsed has at least five fields, both its versions are u32, and its certificate is
-- not the empty text.
pub parse-ok :
    (line : Text) (l : ServerNegotiationLine)
    → parse line ≡ ok l
    → (5 ≤ length (split b'|' (trim line)))
      × (l.core_version < u32_mod)
      × (l.app_version < u32_mod)
      × (l.server_cert ≢ some [])
unfolding parse
parse-ok line l e = parse_fields-ok (split b'|' (trim line)) l e

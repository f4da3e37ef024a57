-- ===== src/Plugin/Protocol/Versions.antt =====
-- crates/go-plugin/src/protocol.rs: the lists of versions.
use pixi_ai.Common.{
  ℕ, ◌≡◌, refl, ap, ◌<◌, ◌↔◌, true, List, [], ◌∷◌, map, arith, All, u32_mod, Text, Bool-cases, inl,
  inr, ◌⊎◌,
}
use pixi_ai.Common.Split.{split, join, trim, Lacks, split-join}
use pixi_ai.Common.Decimal.{is_digit, to_string, to_string-digits, parse_u32, parse_u32-to_string}
use pixi_ai.Plugin.Protocol.{
  encode_version_list, parse_version_list, collect, contains, negotiate_version, ok, err,
  no_compatible_version,
}
use pixi_ai.Plugin.Protocol.RoundTrip.{trim-to_string}

digits-Lacks : (s : Text) → All (λ c. is_digit c ≡ true) s → Lacks b',' s
digits-Lacks [] h = tt
digits-Lacks (c ∷ s) (d, h) = (ground arith, digits-Lacks s h)

Lacks-to_string : (vs : List ℕ) → All (Lacks b',') (map to_string vs)
Lacks-to_string [] = tt
Lacks-to_string (v ∷ vs) = (digits-Lacks (to_string v) (to_string-digits v), Lacks-to_string vs)

collect-to_string :
    (vs : List ℕ)
    → All (λ v. v < u32_mod) vs
    → collect (map (λ v. parse_u32 (trim v)) (map to_string vs)) ≡ vs
collect-to_string [] h = refl
collect-to_string (v ∷ vs) (h, hs) =
    rw (trim-to_string v) (rw (parse_u32-to_string v h) (ap (◌∷◌ v) (collect-to_string vs hs)))

-- Parsing the encoded list of u32 versions gives the list back, also when it is empty.
pub parse_version_list-encode :
    (vs : List ℕ) → All (λ v. v < u32_mod) vs → parse_version_list (encode_version_list vs) ≡ vs
unfolding parse_version_list encode_version_list join split trim parse_u32
parse_version_list-encode [] h = refl
parse_version_list-encode (v ∷ vs) h =
    rw (split-join b',' (to_string v) (map to_string vs) (Lacks-to_string (v ∷ vs)))
      (collect-to_string (v ∷ vs) h)

-- `v` stands in the list.
abbrev pub Offers : List ℕ → ℕ → Type 0
Offers [] v = ⊥
Offers (x ∷ xs) v = (x ≡ v) ⊎ Offers xs v

pub contains-Offers : (xs : List ℕ) (v : ℕ) → (contains xs v ≡ true) ↔ Offers xs v
unfolding contains
contains-Offers [] v = ground arith
contains-Offers (x ∷ xs) v = ground (arith, contains-Offers xs v)

-- Either the host offers the plugin's version and it is agreed on, or the host does not offer it and the
-- error names what both sides have.
pub negotiate_version_lem :
    (host : List ℕ) (plugin : ℕ)
    → (Offers host plugin × (negotiate_version host plugin ≡ ok plugin))
      ⊎ (¬ Offers host plugin
          × (negotiate_version host plugin ≡ err (no_compatible_version host plugin)))
unfolding negotiate_version
negotiate_version_lem host plugin = elim (Bool-cases (contains host plugin)) [
  | inl h ↦ inl ((contains-Offers host plugin).0 h, rw h refl)
  | inr h ↦ inr (λ o. ground (arith, contains-Offers host plugin), rw h refl)
]

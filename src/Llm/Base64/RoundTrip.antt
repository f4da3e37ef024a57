-- ===== src/Llm/Base64/RoundTrip.antt =====
-- crates/llm/src/types.rs, `mod base64_bytes`: what is encoded is decoded.
use pixi_ai.Common.{
  ℕ, zero, suc, ◌+◌, ◌*◌, ◌/◌, ◌%◌, ◌<◌, ◌≡◌, refl, ap, ap₂, ◌∙◌, Bool, true, false, not, ◌&&◌,
  Option, none, some, List, [], ◌∷◌, arith, All, ◌==◌, ==_iff, Text,
}
use pixi_ai.Llm.Base64.{symbol, group, sextet, val, encode, decode_groups, decode, strip, byte_of}

-- A check of all numbers below a bound by evaluation.
all_below : ℕ → (ℕ → Bool) → Bool
all_below zero p = true
all_below (suc n) p = p n && all_below n p

all_below_lem : (n : ℕ) (p : ℕ → Bool) (i : ℕ) → all_below n p ≡ true → i < n → p i ≡ true
unfolding all_below
all_below_lem zero p i h lt = absurd (omega arith)
all_below_lem (suc n) p i h lt = ground (arith, all_below_lem n p i)

is_some_of : ℕ → Option ℕ → Bool
is_some_of i none = false
is_some_of i (some j) = j == i

is_some_of_lem : (i : ℕ) (o : Option ℕ) → is_some_of i o ≡ true → o ≡ some i
unfolding is_some_of
is_some_of_lem i none h = absurd (ground arith)
is_some_of_lem i (some j) h = ap some ((==_iff j i).0 h)

symbols : all_below 64 (λ i. is_some_of i (val (symbol i)) && not (symbol i == b'=')) ≡ true
unfolding all_below is_some_of val symbol
symbols = refl

val-symbol : (i : ℕ) → i < 64 → val (symbol i) ≡ some i
val-symbol i h = is_some_of_lem i (val (symbol i)) (ground (arith, all_below_lem 64 _ i symbols h))

strip-symbol : (i : ℕ) (s : Text) → i < 64 → strip (symbol i ∷ s) ≡ symbol i ∷ strip s
unfolding strip
strip-symbol i s h =
    let kept : (symbol i == b'=') ≡ false = ground (arith, all_below_lem 64 _ i symbols h) in
    rw kept refl

-- Four symbols are one group.
decode_quad :
    (i j k l : ℕ) (s : Text) (out : List ℕ)
    → (i < 64) × (j < 64) × (k < 64) × (l < 64)
    → decode s ≡ some out
    → (let n = i * 262144 + j * 4096 + k * 64 + l in
        decode (symbol i ∷ symbol j ∷ symbol k ∷ symbol l ∷ s)
        ≡ some (byte_of n 65536 ∷ byte_of n 256 ∷ byte_of n 1 ∷ out))
unfolding decode decode_groups
decode_quad i j k l s out (hi, hj, hk, hl) e =
    rw
      (
        strip-symbol i (symbol j ∷ symbol k ∷ symbol l ∷ s) hi,
        strip-symbol j (symbol k ∷ symbol l ∷ s) hj,
        strip-symbol k (symbol l ∷ s) hk,
        strip-symbol l s hl,
        val-symbol i hi,
        val-symbol j hj,
        val-symbol k hk,
        val-symbol l hl,
        e,
      )
      refl

sextet-lt : (n scale : ℕ) → sextet n scale < 64
sextet-lt n scale = below (n / scale)
  where
    below : (q : ℕ) → q % 64 < 64
    below q = omega arith

decode_pair :
    (i j : ℕ)
    → i < 64
    → j < 64
    → decode (symbol i ∷ symbol j ∷ b'=' ∷ b'=' ∷ [])
      ≡ some (byte_of (i * 262144 + j * 4096) 65536 ∷ [])
unfolding decode decode_groups strip
decode_pair i j hi hj =
    rw
      (
        strip-symbol i (symbol j ∷ b'=' ∷ b'=' ∷ []) hi,
        strip-symbol j (b'=' ∷ b'=' ∷ []) hj,
        val-symbol i hi,
        val-symbol j hj,
      )
      refl

decode_triple :
    (i j k : ℕ)
    → i < 64
    → j < 64
    → k < 64
    → (let n = i * 262144 + j * 4096 + k * 64 in
        decode (symbol i ∷ symbol j ∷ symbol k ∷ b'=' ∷ [])
        ≡ some (byte_of n 65536 ∷ byte_of n 256 ∷ []))
unfolding decode decode_groups strip
decode_triple i j k hi hj hk =
    rw
      (
        strip-symbol i (symbol j ∷ symbol k ∷ b'=' ∷ []) hi,
        strip-symbol j (symbol k ∷ b'=' ∷ []) hj,
        strip-symbol k (b'=' ∷ []) hk,
        val-symbol i hi,
        val-symbol j hj,
        val-symbol k hk,
      )
      refl

-- Three bytes are one group.
group_lem :
    (a b c : ℕ)
    → a < 256
    → b < 256
    → c < 256
    → (let n = group a b c in
        let m = sextet n 262144 * 262144 + sextet n 4096 * 4096 + sextet n 64 * 64 + sextet n 1 in
        (byte_of m 65536 ≡ a) × (byte_of m 256 ≡ b) × (byte_of m 1 ≡ c))
group_lem a b c ha hb hc = omega arith

one_lem :
    (a : ℕ)
    → a < 256
    → (let n = group a 0 0 in byte_of (sextet n 262144 * 262144 + sextet n 4096 * 4096) 65536 ≡ a)
one_lem a ha = omega arith

two_lem :
    (a b : ℕ)
    → a < 256
    → b < 256
    → (let n = group a b 0 in
        let m = sextet n 262144 * 262144 + sextet n 4096 * 4096 + sextet n 64 * 64 in
        (byte_of m 65536 ≡ a) × (byte_of m 256 ≡ b))
two_lem a b ha hb = omega arith

decode-nil : decode [] ≡ some []
unfolding decode decode_groups strip
decode-nil = refl

-- Every byte sequence is read back from its base64 text.
pub decode-encode : (bytes : List ℕ) → All (λ b. b < 256) bytes → decode (encode bytes) ≡ some bytes
unfolding encode
decode-encode [] h = decode-nil
decode-encode (a ∷ []) (ha, _) =
    let n = group a 0 0 in
    decode_pair (sextet n 262144) (sextet n 4096) (sextet-lt n 262144) (sextet-lt n 4096)
    ∙ ap (λ x. some (x ∷ [])) (one_lem a ha)
decode-encode (a ∷ b ∷ []) (ha, (hb, _)) =
    let n = group a b 0 in
    let (p, q) = two_lem a b ha hb in
    decode_triple (sextet n 262144) (sextet n 4096) (sextet n 64) (sextet-lt n 262144)
      (sextet-lt n 4096) (sextet-lt n 64)
    ∙ ap₂ (λ x y. some (x ∷ y ∷ [])) p q
decode-encode (a ∷ b ∷ c ∷ bytes) (ha, (hb, (hc, h))) =
    let n = group a b c in
    let (p, q, r) = group_lem a b c ha hb hc in
    decode_quad (sextet n 262144) (sextet n 4096) (sextet n 64) (sextet n 1) (encode bytes) bytes
      (sextet-lt n 262144, sextet-lt n 4096, sextet-lt n 64, sextet-lt n 1) (decode-encode bytes h)
    ∙ ap₂
        (λ x y. some (
          x
          ∷ y
          ∷ byte_of
              (sextet n 262144 * 262144 + sextet n 4096 * 4096 + sextet n 64 * 64 + sextet n 1) 1
          ∷ bytes))
        p q
    ∙ ap (λ z. some (a ∷ b ∷ z ∷ bytes)) r

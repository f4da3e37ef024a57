-- ===== src/Plugin/Secure/Hex.antt =====
-- crates/go-plugin/src/secure.rs, `mod hex`: a checksum printed is read back.
use pixi_ai.Common.{
  ℕ, ◌+◌, ◌*◌, ◌/◌, ◌%◌, ◌<◌, ◌≡◌, refl, ap, true, false, some, List, [], ◌∷◌, ◌==◌, ==_iff, length,
  arith, All,
}
use pixi_ai.Plugin.Secure.{
  ok, hex_digit, encode, to_digit, radix_pair, is_boundary, decode_pairs, decode, from_hex,
  checksum_hex,
}

to_digit-hex_digit : (n : ℕ) → n < 16 → to_digit (hex_digit n) ≡ some n
unfolding to_digit
to_digit-hex_digit n h = ground arith

radix_pair-hex_digit :
    (h l : ℕ) → h < 16 → l < 16 → radix_pair (hex_digit h) (hex_digit l) ≡ some (h * 16 + l)
unfolding radix_pair
radix_pair-hex_digit h l p q = rw (no_plus h p, to_digit-hex_digit h p, to_digit-hex_digit l q) refl
  where
    no_plus : (n : ℕ) → n < 16 → (hex_digit n == b'+') ≡ false
    no_plus n r = ground arith

is_boundary-encode : (bytes : List ℕ) → All (λ b. b < 256) bytes → is_boundary (encode bytes) ≡ true
unfolding encode
is_boundary-encode [] h = refl
is_boundary-encode (b ∷ bytes) (h, hs) = ground arith

decode_pairs-encode :
    (bytes : List ℕ) → All (λ b. b < 256) bytes → decode_pairs (encode bytes) ≡ ok bytes
unfolding encode decode_pairs
decode_pairs-encode [] h = refl
decode_pairs-encode (b ∷ bytes) (h, hs) =
    rw
      (
        is_boundary-encode bytes hs,
        decode_pairs-encode bytes hs,
        radix_pair-hex_digit (b / 16) (b % 16) (omega arith) (omega arith),
      )
      (ap (λ x. ok (x ∷ bytes)) (omega arith))

even_length : (bytes : List ℕ) → length (encode bytes) ≡ 2 * length bytes
unfolding encode
even_length [] = refl
even_length (b ∷ bytes) = omega (arith, even_length bytes)

even_test : (bytes : List ℕ) → (length (encode bytes) % 2 == 0) ≡ true
even_test bytes = (==_iff _ _).1 (omega (arith, even_length bytes))

-- The checksum that is printed for a file is read back as the same checksum.
pub from_hex-checksum_hex :
    (checksum : List ℕ)
    → All (λ b. b < 256) checksum
    → length checksum ≡ 32
    → from_hex (checksum_hex checksum) ≡ ok (record { checksum = checksum })
unfolding from_hex decode
from_hex-checksum_hex checksum h n =
    rw (even_test checksum, decode_pairs-encode checksum h) (ground arith)

-- ===== src/Plugin/Secure.antt =====
-- crates/go-plugin/src/secure.rs: the checksum of a plugin's binary.
-- SHA-256 and reading a file are arguments. A text is its UTF-8 bytes, since `decode` slices them.
pub mod Compare
pub mod Hex
use Prim.Native.Nat.{bit_or, bit_xor}
use pixi_ai.Common.{
  ℕ, zero, suc, ◌+◌, ◌-◌, ◌*◌, ◌/◌, ◌%◌, Bool, true, false, not, ◌&&◌, Option, none, some, List, [],
  ◌∷◌, ◌++◌, ◌==◌, leb, ltb, if◌then◌else◌, length,
}

pub data SecureError : Type 0 where
  invalid_hex wrong_length unreadable checksum_mismatch : SecureError

-- `panicked` where a slice of the text does not end between two characters.
pub data Result {ℓ} (A : Type ℓ) : Type ℓ where
  ok : A → Result A
  err : SecureError → Result A
  panicked : Result A

pub record SecureConfig : Type 0 where
  pub checksum : List ℕ

abbrev pub hex_digit : ℕ → ℕ
hex_digit n = if ltb n 10 then b'0' + n else b'a' + n - 10

-- `{b:02x}` for each byte.
unfoldable pub encode : List ℕ → List ℕ
encode [] = []
encode (b ∷ bytes) = hex_digit (b / 16) ∷ hex_digit (b % 16) ∷ encode bytes

abbrev pub between : ℕ → ℕ → ℕ → Bool
between a b c = leb a c && leb c b

-- `char::to_digit(16)`.
unfoldable pub to_digit : ℕ → Option ℕ
to_digit c =
    if between b'0' b'9' c
    then some (c - b'0')
    else if between b'a' b'f' c
    then some (c - b'a' + 10)
    else if between b'A' b'F' c
    then some (c - b'A' + 10)
    else none

abbrev pub two_digits : Option ℕ → Option ℕ → Option ℕ
two_digits none d = none
two_digits (some h) none = none
two_digits (some h) (some l) = some (h * 16 + l)

-- `u8::from_str_radix(_, 16)` on two bytes, which takes a plus sign in front of digits.
unfoldable pub radix_pair : ℕ → ℕ → Option ℕ
unfolding to_digit
radix_pair c d = if c == b'+' then to_digit d else two_digits (to_digit c) (to_digit d)

-- Whether a text may be cut in front of these bytes.
abbrev pub is_boundary : List ℕ → Bool
is_boundary [] = true
is_boundary (b ∷ bytes) = not (between 128 191 b)

abbrev pub onto : Option ℕ → Result (List ℕ) → Result (List ℕ)
onto none r = err invalid_hex
onto (some b) (ok bs) = ok (b ∷ bs)
onto (some b) (err e) = err e
onto (some b) panicked = panicked

unfoldable pub decode_pairs : List ℕ → Result (List ℕ)
unfolding radix_pair
decode_pairs [] = ok []
decode_pairs (c ∷ []) = err invalid_hex
decode_pairs (c ∷ d ∷ s) =
    let rest = decode_pairs s in if is_boundary s then onto (radix_pair c d) rest else panicked

unfoldable pub decode : List ℕ → Result (List ℕ)
unfolding decode_pairs
decode s = if length s % 2 == 0 then decode_pairs s else err invalid_hex

abbrev pub sized : Result (List ℕ) → Result SecureConfig
sized (ok bytes) = if length bytes == 32 then ok (record { checksum = bytes }) else err wrong_length
sized (err e) = err e
sized panicked = panicked

unfoldable pub from_hex : List ℕ → Result SecureConfig
unfolding decode
from_hex hex = sized (decode hex)

abbrev pub checksum_hex : List ℕ → List ℕ
checksum_hex checksum = encode checksum

-- The loop over the pairs of bytes.
abbrev pub diff_from : ℕ → List ℕ → List ℕ → ℕ
diff_from diff [] b = diff
diff_from diff (x ∷ a) [] = diff
diff_from diff (x ∷ a) (y ∷ b) = diff_from (bit_or diff (bit_xor x y)) a b

unfoldable pub constant_time_eq : List ℕ → List ℕ → Bool
constant_time_eq a b = if length a == length b then diff_from 0 a b == 0 else false

unfoldable pub checked : (List ℕ → List ℕ) → SecureConfig → Option (List ℕ) → Result (Unit {0})
unfolding constant_time_eq
checked hash config none = err unreadable
checked hash config (some bytes) =
    if constant_time_eq (hash bytes) config.checksum then ok tt else err checksum_mismatch

-- `read` gives the file's bytes if it can be read, `hash` their SHA-256.
abbrev pub check :
    (List ℕ → Option (List ℕ)) → (List ℕ → List ℕ) → SecureConfig → List ℕ → Result (Unit {0})
check read hash config path = checked hash config (read path)

unfoldable pub compute_checksum :
    (List ℕ → Option (List ℕ)) → (List ℕ → List ℕ) → List ℕ → Result (List ℕ)
compute_checksum read hash path = elim (read path) [
  | none ↦ err unreadable
  | some bytes ↦ ok (hash bytes)
]

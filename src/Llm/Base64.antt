-- ===== src/Llm/Base64.antt =====
-- crates/llm/src/types.rs, `mod base64_bytes`: audio as base64 text. The shifted parts of a group do not
-- overlap, so `|` is written `+`; `>>` is a division and `& 63` a remainder.
pub mod RoundTrip
use mathlib.Core.Option
use pixi_ai.Common.{
  ℕ, ◌+◌, ◌*◌, ◌/◌, ◌%◌, Option, none, some, List, [], ◌∷◌, ◌++◌, ◌==◌, get_elem?, position,
  if◌then◌else◌, Text, codes,
}
use pixi_ai.Common.Options.{◌>>=◌}

abbrev pub alphabet : Text
alphabet = codes "ABCDEFGHIJKLMNOPQRSTUVWXYZabcdefghijklmnopqrstuvwxyz0123456789+/"

abbrev pub or_zero : Option ℕ → ℕ
or_zero none = 0
or_zero (some c) = c

-- `ALPHABET[i]` for an index below 64.
unfoldable pub symbol : ℕ → ℕ
symbol i = or_zero (get_elem? alphabet i)

abbrev pub group : ℕ → ℕ → ℕ → ℕ
group a b c = a * 65536 + b * 256 + c

-- The sixth of a group of 24 bits: `n >> shift & 63`.
abbrev pub sextet : ℕ → ℕ → ℕ
sextet n scale = n / scale % 64

-- One round of the loop for each three bytes, or for what is left.
unfoldable pub encode : List ℕ → Text
encode [] = []
encode (a ∷ []) =
    let n = group a 0 0 in symbol (sextet n 262144) ∷ symbol (sextet n 4096) ∷ b'=' ∷ b'=' ∷ []
encode (a ∷ b ∷ []) =
    let n = group a b 0 in
    symbol (sextet n 262144) ∷ symbol (sextet n 4096) ∷ symbol (sextet n 64) ∷ b'=' ∷ []
encode (a ∷ b ∷ c ∷ bytes) =
    let n = group a b c in
    symbol (sextet n 262144)
    ∷ symbol (sextet n 4096)
    ∷ symbol (sextet n 64)
    ∷ symbol (sextet n 1)
    ∷ encode bytes

-- `val`.
unfoldable pub val : ℕ → Option ℕ
val c = position (λ a. a == c) alphabet

abbrev pub byte_of : ℕ → ℕ → ℕ
byte_of n scale = n / scale % 256

-- `out.push` for each byte of a group.
unfoldable pub decode_groups : Text → Option (List ℕ)
unfolding val
decode_groups [] = some []
decode_groups (a ∷ []) = do i ← val a; some (byte_of (i * 262144) 65536 ∷ [])
decode_groups (a ∷ b ∷ []) = do
  i ← val a
  j ← val b
  some (byte_of (i * 262144 + j * 4096) 65536 ∷ [])
decode_groups (a ∷ b ∷ c ∷ []) = do
  i ← val a
  j ← val b
  k ← val c
  let n = i * 262144 + j * 4096 + k * 64
  some (byte_of n 65536 ∷ byte_of n 256 ∷ [])
decode_groups (a ∷ b ∷ c ∷ d ∷ rest) = do
  i ← val a
  j ← val b
  k ← val c
  l ← val d
  let n = i * 262144 + j * 4096 + k * 64 + l
  out ← decode_groups rest
  some (byte_of n 65536 ∷ byte_of n 256 ∷ byte_of n 1 ∷ out)

-- The padding is filtered out.
unfoldable pub strip : Text → Text
strip [] = []
strip (c ∷ s) = if c == b'=' then strip s else c ∷ strip s

unfoldable pub decode : Text → Option (List ℕ)
unfolding decode_groups strip
decode s = decode_groups (strip s)

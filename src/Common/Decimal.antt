-- ===== src/Common/Decimal.antt =====
-- `u32`: `to_string` and `str::parse::<u32>`.
use mathlib.Core.Path.{◌≡◌, refl, ◌∙◌}
use mathlib.Core.Logic.{◌≢◌}
use mathlib.Core.Bool.{Bool, true, ◌&&◌}
use mathlib.Core.List.{[], ◌∷◌}
use mathlib.Core.Option.{Option, none, some}
use native.Mathlib.Omega.{arith}
use Prim.Native.Nat.{ℕ, zero, suc, ◌+◌, ◌-◌, ◌*◌, ◌/◌, ◌%◌, ◌<◌}
use pixi_ai.Common.Tests.{◌==◌, leb, ltb, if◌then◌else◌, All, u32_mod}
use pixi_ai.Common.Texts.{Text}

abbrev pub is_digit : ℕ → Bool
is_digit c = leb b'0' c && leb c b'9'

-- The digits of `n` in front of `out`; `n + 1` rounds are enough, since `n` is divided by ten.
pub digits : ℕ → ℕ → Text → Text
digits zero n out = out
digits (suc fuel) n out =
    let more = digits fuel (n / 10) ((b'0' + n % 10) ∷ out) in
    if ltb n 10 then (b'0' + n) ∷ out else more

unfoldable pub to_string : ℕ → Text
unfolding digits
to_string n = digits (suc n) n []

pub scan : Text → ℕ → Option ℕ
scan [] n = some n
scan (c ∷ s) n =
    let next = n * 10 + (c - b'0') in
    if is_digit c then if ltb next u32_mod then scan s next else none else none

-- One leading plus sign is accepted, and at least one digit is wanted.
pub scan_all : Text → Option ℕ
unfolding scan
scan_all [] = none
scan_all (c ∷ s) = scan (c ∷ s) 0

unfoldable pub parse_u32 : Text → Option ℕ
unfolding scan_all
parse_u32 [] = none
parse_u32 (c ∷ s) = if c == b'+' then scan_all s else scan_all (c ∷ s)

digits-All :
    (fuel n : ℕ) (out : Text)
    → All (λ c. is_digit c ≡ true) out
    → All (λ c. is_digit c ≡ true) (digits fuel n out)
unfolding digits
digits-All zero n out h = h
digits-All (suc fuel) n out h =
    ground (arith, digits-All fuel (n / 10) ((b'0' + n % 10) ∷ out) (ground arith, h))

-- Only digits are printed.
pub to_string-digits : (n : ℕ) → All (λ c. is_digit c ≡ true) (to_string n)
unfolding to_string
to_string-digits n = digits-All (suc n) n [] tt

scan-digits :
    (fuel n : ℕ) (out : Text) → n < fuel → n < u32_mod → scan (digits fuel n out) 0 ≡ scan out n
unfolding digits scan
scan-digits zero n out h lt = absurd (omega arith)
scan-digits (suc fuel) n out h lt =
    ground (arith, scan-digits fuel (n / 10) ((b'0' + n % 10) ∷ out))

digits-ne-nil : (fuel n : ℕ) (out : Text) → out ≢ [] → digits fuel n out ≢ []
unfolding digits
digits-ne-nil zero n out h = h
digits-ne-nil (suc fuel) n out h =
    ground (arith, digits-ne-nil fuel (n / 10) ((b'0' + n % 10) ∷ out) (λ e. cc))

pub to_string-ne-nil : (n : ℕ) → to_string n ≢ []
unfolding to_string digits
to_string-ne-nil n = ground (arith, digits-ne-nil n (n / 10) ((b'0' + n % 10) ∷ []) (λ e. cc))

parse_u32-digits : (s : Text) → s ≢ [] → All (λ c. is_digit c ≡ true) s → parse_u32 s ≡ scan s 0
unfolding parse_u32
parse_u32-digits [] h d = absurd (h refl)
parse_u32-digits (c ∷ s) h (d, ds) = ground arith

-- Every `u32` is read back from its print.
pub parse_u32-to_string : (n : ℕ) → n < u32_mod → parse_u32 (to_string n) ≡ some n
parse_u32-to_string n h =
    parse_u32-digits (to_string n) (to_string-ne-nil n) (to_string-digits n)
    ∙ unfold to_string scan in scan-digits (suc n) n [] (omega arith) h

-- What is parsed is a `u32`.
scan-lt : (s : Text) (n : ℕ) {r : ℕ} → n < u32_mod → scan s n ≡ some r → r < u32_mod
unfolding scan
scan-lt [] n h e = ground arith
scan-lt (c ∷ s) n {r} h e = ground (arith, scan-lt s (n * 10 + (c - b'0')) {r = r})

pub parse_u32-lt : (s : Text) {r : ℕ} → parse_u32 s ≡ some r → r < u32_mod
unfolding parse_u32
parse_u32-lt [] e = absurd (ground arith)
parse_u32-lt (c ∷ []) {r} e = ground (arith, scan-lt (c ∷ []) 0 {r = r})
parse_u32-lt (c ∷ d ∷ s) {r} e =
    ground (arith, scan-lt (c ∷ d ∷ s) 0 {r = r}, scan-lt (d ∷ s) 0 {r = r})

-- ===== src/Common/Bits.antt =====
-- Facts about the bitwise operations on numbers.
use Prim.Native.Nat.{bit_or, bit_xor, bit_or-bitwise, bit_xor-bitwise, digits, differ, max}
use Prim.Native.Nat.{ℕ, zero, suc, ◌*◌, ◌/◌, ◌%◌, ◌^◌, ◌≤◌, ◌<◌}
use mathlib.Core.Path.{◌≡◌, refl, sym, ap, subst, ◌∙◌}
use native.Mathlib.Omega.{arith}

differ_zero : (x y : ℕ) → differ x y ≡ 0 → x ≡ y
differ_zero zero y e = omega (arith, e)
differ_zero (suc x) zero e = e
differ_zero (suc x) (suc y) e = ap suc (differ_zero x y e)

differ_self : (x : ℕ) → differ x x ≡ 0
differ_self zero = refl
differ_self (suc x) = differ_self x

xor_digits : (n a b : ℕ) → a ≤ n → digits (λ c. c) differ n a b ≡ 0 → a ≡ b
xor_digits zero zero b h e = omega (arith, e)
xor_digits zero (suc a) b h e = absurd (omega arith)
xor_digits (suc n) zero b h e = omega (arith, e)
xor_digits (suc n) (suc a) b h e = omega (
  arith,
  xor_digits n (suc a / 2) (b / 2) (omega arith) (omega (arith, e)),
  differ_zero (suc a % 2) (b % 2) (omega (arith, e)),
)

xor_digits_self : (n a : ℕ) → a ≤ n → digits (λ c. c) differ n a a ≡ 0
xor_digits_self zero zero h = refl
xor_digits_self zero (suc a) h = absurd (omega arith)
xor_digits_self (suc n) zero h = refl
xor_digits_self (suc n) (suc a) h =
    omega (arith, xor_digits_self n (suc a / 2) (omega arith), differ_self (suc a % 2))

or_digits : (n a b : ℕ) → a ≤ n → digits (λ c. c) max n a b ≡ 0 → (a ≡ 0) × (b ≡ 0)
or_digits zero zero b h e = (refl, e)
or_digits zero (suc a) b h e = absurd (omega arith)
or_digits (suc n) zero b h e = (refl, e)
or_digits (suc n) (suc a) b h e =
    let (p, q) = or_digits n (suc a / 2) (b / 2) (omega arith) (omega (arith, e)) in
    absurd (omega (arith, p, q, e))

pub bit_xor_eq_zero : (a b : ℕ) → bit_xor a b ≡ 0 → a ≡ b
bit_xor_eq_zero a b e = xor_digits a a b (omega arith) (sym (λ i. bit_xor-bitwise a b i) ∙ e)

pub bit_xor_self : (a : ℕ) → bit_xor a a ≡ 0
bit_xor_self a = (λ i. bit_xor-bitwise a a i) ∙ xor_digits_self a a (omega arith)

pub bit_or_eq_zero : (a b : ℕ) → bit_or a b ≡ 0 → (a ≡ 0) × (b ≡ 0)
bit_or_eq_zero a b e = or_digits a a b (omega arith) (sym (λ i. bit_or-bitwise a b i) ∙ e)

differ_bit : (x y : ℕ) → x < 2 → y < 2 → differ x y < 2
differ_bit zero y p q = q
differ_bit (suc zero) zero p q = p
differ_bit (suc zero) (suc y) p q = omega arith
differ_bit (suc (suc x)) y p q = absurd (omega arith)

xor_digits_lt : (k n a b : ℕ) → a < 2 ^ k → b < 2 ^ k → digits (λ c. c) differ n a b < 2 ^ k
xor_digits_lt k zero a b p q = q
xor_digits_lt k (suc n) zero b p q = q
xor_digits_lt zero (suc n) (suc a) b p q = absurd (omega arith)
xor_digits_lt (suc k) (suc n) (suc a) b p q = omega (
  arith,
  twice k,
  xor_digits_lt k n (suc a / 2) (b / 2) (omega (arith, twice k)) (omega (arith, twice k)),
  differ_bit (suc a % 2) (b % 2) (omega arith) (omega arith),
)
  where
    twice : (k : ℕ) → 2 ^ suc k ≡ 2 * 2 ^ k
    twice k = omega arith

pub bit_xor_lt : (k a b : ℕ) → a < 2 ^ k → b < 2 ^ k → bit_xor a b < 2 ^ k
bit_xor_lt k a b p q =
    subst (λ n. n < 2 ^ k) (sym (λ i. bit_xor-bitwise a b i)) (xor_digits_lt k a a b p q)

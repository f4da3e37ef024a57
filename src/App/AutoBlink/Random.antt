-- ===== src/App/AutoBlink/Random.antt =====
-- crates/app/src/auto_blink.rs, `xorshift32`: the state stays a u32 that is not zero.
use Prim.Native.Nat.{bit_xor}
use pixi_ai.Common.{ℕ, ◌<◌, ◌≡◌, ◌≢◌, arith, u32_mod}
use pixi_ai.Common.Bits.{bit_xor_eq_zero, bit_xor_lt}
use pixi_ai.App.AutoBlink.{xorshift32, shl, shr}

shl_5 : (x : ℕ) → x < u32_mod → x ≡ shl x 5 → x ≡ 0
shl_5 x h e = omega (arith, e)

shl_13 : (x : ℕ) → x < u32_mod → x ≡ shl x 13 → x ≡ 0
shl_13 x h e = omega (arith, e)

shr_17 : (x : ℕ) → x ≡ shr x 17 → x ≡ 0
shr_17 x e = omega (arith, e)

-- A seed below 2 ^ 32 that is not zero.
abbrev pub Seeded : ℕ → Type 0
Seeded x = (x < u32_mod) × (x ≢ 0)

bit_xor-Seeded : (x y : ℕ) → Seeded x → y < u32_mod → (x ≡ y → x ≡ 0) → Seeded (bit_xor x y)
bit_xor-Seeded x y (h, n) q c = (bit_xor_lt 32 x y h q, λ e. n (c (bit_xor_eq_zero x y e)))

-- The generator takes a seed that is not zero to one that is not zero.
pub xorshift32-Seeded : (x : ℕ) → Seeded x → Seeded (xorshift32 x)
unfolding xorshift32
xorshift32-Seeded x s =
    let y = bit_xor x (shl x 13) in
    let y-Seeded : Seeded y = bit_xor-Seeded x (shl x 13) s (omega arith) (shl_13 x s.0) in
    let z = bit_xor y (shr y 17) in
    let z-Seeded : Seeded z =
      bit_xor-Seeded y (shr y 17) y-Seeded (omega (arith, y-Seeded.0)) (shr_17 y) in
    bit_xor-Seeded z (shl z 5) z-Seeded (omega arith) (shl_5 z z-Seeded.0)

-- ===== src/Vrm/F32.antt =====
-- `f32`, as crates/vrm and crates/app use it: its operations, and comparisons that a NaN fails.
use Prim.Native.Nat.{Ordering, lt, eq, gt}
use pixi_ai.Common.{ℕ, Bool, true, false, Option, none, some, if◌then◌else◌}

-- `ratio n d` is the literal n / d.
pub record F32 (F : Type 0) : Type 0 where
  pub ratio : ℕ → ℕ → F
  pub neg : F → F
  pub abs : F → F
  pub add : F → F → F
  pub sub : F → F → F
  pub mul : F → F → F
  pub div : F → F → F
  pub rem : F → F → F
  pub min_f : F → F → F
  pub max_f : F → F → F
  pub copysign : F → F → F
  pub partial_cmp : F → F → Option Ordering

abbrev pub is_lt : Option Ordering → Bool
is_lt none = false
is_lt (some lt) = true
is_lt (some eq) = false
is_lt (some gt) = false

abbrev pub is_le : Option Ordering → Bool
is_le none = false
is_le (some lt) = true
is_le (some eq) = true
is_le (some gt) = false

module _ {F : Type 0} (f : F32 F) where
  abbrev pub lt_f : F → F → Bool
  lt_f a b = is_lt (f.partial_cmp a b)

  abbrev pub le_f : F → F → Bool
  le_f a b = is_le (f.partial_cmp a b)

  abbrev pub zero_f : F
  zero_f = f.ratio 0 1

  abbrev pub one_f : F
  one_f = f.ratio 1 1

  abbrev pub clamp : F → F → F → F
  clamp x low high = if lt_f x low then low else (if lt_f high x then high else x)

-- ===== src/Plugin/Secure/Compare.antt =====
-- crates/go-plugin/src/secure.rs: the comparison that takes the same time for every input.
use Prim.Native.Nat.{bit_or, bit_xor}
use pixi_ai.Common.{
  ℕ, ◌≡◌, refl, subst, Option, none, some, ap, ap₂, ◌∙◌, ◌↔◌, Bool, true, false, List, [], ◌∷◌,
  if◌then◌else◌, length, arith,
}
use pixi_ai.Common.Bits.{bit_xor_eq_zero, bit_xor_self, bit_or_eq_zero}
use mathlib.Core.Option.{some-injective}
use pixi_ai.Plugin.Secure.{
  SecureConfig, ok, err, checksum_mismatch, check, checked, diff_from, constant_time_eq,
}

-- The difference is zero from the start on, or never again.
diff_from_zero :
    (d : ℕ) (a b : List ℕ) → length a ≡ length b → diff_from d a b ≡ 0 → (d ≡ 0) × (a ≡ b)
diff_from_zero d [] [] l e = (e, refl)
diff_from_zero d [] (y ∷ b) l e = absurd (omega (arith, l))
diff_from_zero d (x ∷ a) [] l e = absurd (omega (arith, l))
diff_from_zero d (x ∷ a) (y ∷ b) l e =
    let (z, q) = diff_from_zero (bit_or d (bit_xor x y)) a b (omega (arith, l)) e in
    let (p, x_y) = bit_or_eq_zero d (bit_xor x y) z in (p, ap₂ (◌∷◌) (bit_xor_eq_zero x y x_y) q)

diff_from_self : (a : List ℕ) → diff_from 0 a a ≡ 0
diff_from_self [] = refl
diff_from_self (x ∷ a) =
    ap (λ d. diff_from d a a) (ap (bit_or 0) (bit_xor_self x)) ∙ diff_from_self a

same_lengths :
    (a b : List ℕ) → constant_time_eq a b ≡ true → (length a ≡ length b) × (diff_from 0 a b ≡ 0)
unfolding constant_time_eq
same_lengths a b e = ground arith

same_bytes : (a : List ℕ) → constant_time_eq a a ≡ true
unfolding constant_time_eq
same_bytes a = ground (arith, diff_from_self a)

-- The comparison in constant time decides whether two byte strings are the same.
pub constant_time_eq_iff : (a b : List ℕ) → (constant_time_eq a b ≡ true) ↔ (a ≡ b)
constant_time_eq_iff a b = (
  (λ e. let (l, d) = same_lengths a b e in (diff_from_zero 0 a b l d).1),
  (λ e. subst (λ c. constant_time_eq a c ≡ true) e (same_bytes a)),
)

accepts : (b : Bool) → (if b then ok (tt {0}) else err checksum_mismatch) ≡ ok (tt {0}) → b ≡ true
accepts true e = refl
accepts false e = absurd (ground arith)

checked_iff :
    (hash : List ℕ → List ℕ) (config : SecureConfig) (o : Option (List ℕ))
    → (checked hash config o ≡ ok tt)
      ↔ ((bytes : List ℕ) × (o ≡ some bytes) × (hash bytes ≡ config.checksum))
unfolding checked
checked_iff hash config none =
    ((λ e. absurd (ground arith)), (λ (bytes, p, q). absurd (ground arith)))
checked_iff hash config (some bytes) = (
  (λ e.
      let same = accepts (constant_time_eq (hash bytes) config.checksum) e in
      (bytes, refl, (constant_time_eq_iff (hash bytes) config.checksum).0 same)),
  (λ (c, p, q).
      let same = ap hash (some-injective _ _ p) ∙ q in
      rw ((constant_time_eq_iff (hash bytes) config.checksum).1 same) refl),
)

-- A plugin passes the check exactly if its binary is read and hashes to the checksum.
pub check_iff :
    (read : List ℕ → Option (List ℕ)) (hash : List ℕ → List ℕ) (config : SecureConfig)
    (path : List ℕ)
    → (check read hash config path ≡ ok tt)
      ↔ ((bytes : List ℕ) × (read path ≡ some bytes) × (hash bytes ≡ config.checksum))
check_iff read hash config path = checked_iff hash config (read path)

-- ===== src/Common/Split.antt =====
-- `str::split(char)`, `[String]::join` and `str::trim` over code points.
use mathlib.Core.Path.{◌≡◌, refl, ap}
use mathlib.Core.Logic.{◌≢◌}
use mathlib.Core.Bool.{Bool, false, ◌&&◌, ◌||◌}
use mathlib.Core.List.{List, [], ◌∷◌, ◌++◌}
use native.Mathlib.Omega.{arith}
use Prim.Native.Nat.{ℕ}
use pixi_ai.Common.Tests.{◌==◌, leb, if◌then◌else◌, All}
use pixi_ai.Common.Texts.{Text}

-- Puts a character in front of the first part.
abbrev pub onto_first : ℕ → List Text → List Text
onto_first c [] = (c ∷ []) ∷ []
onto_first c (p ∷ ps) = (c ∷ p) ∷ ps

unfoldable pub split : ℕ → Text → List Text
split sep [] = [] ∷ []
split sep (c ∷ s) = if c == sep then [] ∷ split sep s else onto_first c (split sep s)

unfoldable pub join : Text → List Text → Text
join sep [] = []
join sep (p ∷ []) = p
join sep (p ∷ q ∷ ps) = p ++ (sep ++ join sep (q ∷ ps))

-- The `White_Space` property of Unicode.
abbrev pub is_space : ℕ → Bool
is_space c =
    (leb 9 c && leb c 13)
    || (c == 32)
    || (c == 0x85)
    || (c == 0xa0)
    || (c == 0x1680)
    || (leb 0x2000 c && leb c 0x200a)
    || (c == 0x2028)
    || (c == 0x2029)
    || (c == 0x202f)
    || (c == 0x205f)
    || (c == 0x3000)

unfoldable pub trim_start : Text → Text
trim_start [] = []
trim_start (c ∷ s) = if is_space c then trim_start s else c ∷ s

-- Puts a character in front of a text whose end is trimmed.
abbrev pub onto_trimmed : ℕ → Text → Text
onto_trimmed c [] = if is_space c then [] else c ∷ []
onto_trimmed c (d ∷ s) = c ∷ d ∷ s

unfoldable pub trim_end : Text → Text
trim_end [] = []
trim_end (c ∷ s) = onto_trimmed c (trim_end s)

unfoldable pub trim : Text → Text
unfolding trim_start trim_end
trim s = trim_end (trim_start s)

abbrev pub Lacks : ℕ → Text → Type 0
Lacks sep = All (λ c. c ≢ sep)

abbrev pub Solid : Text → Type 0
Solid = All (λ c. is_space c ≡ false)

pub split-Lacks : (sep : ℕ) (p : Text) → Lacks sep p → split sep p ≡ p ∷ []
unfolding split
split-Lacks sep [] h = refl
split-Lacks sep (c ∷ p) (n, h) = ground (arith, split-Lacks sep p h)

-- A part that lacks the separator, in front of one, is split off.
pub split-append :
    (sep : ℕ) (p rest : Text) → Lacks sep p → split sep (p ++ sep ∷ rest) ≡ p ∷ split sep rest
unfolding split
split-append sep [] rest h = ground arith
split-append sep (c ∷ p) rest (n, h) = ground (arith, split-append sep p rest h)

-- Splitting a join of parts that lack the separator gives the parts back.
pub split-join :
    (sep : ℕ) (p : Text) (ps : List Text)
    → All (Lacks sep) (p ∷ ps)
    → split sep (join (sep ∷ []) (p ∷ ps)) ≡ p ∷ ps
unfolding join
split-join sep p [] (h, _) = split-Lacks sep p h
split-join sep p (q ∷ ps) (h, hs) =
    rw (split-append sep p (join (sep ∷ []) (q ∷ ps)) h) (ap (◌∷◌ p) (split-join sep q ps hs))

pub trim_end-Solid : (s : Text) → Solid s → trim_end s ≡ s
unfolding trim_end
trim_end-Solid [] h = refl
trim_end-Solid (c ∷ []) (n, h) = rw n
trim_end-Solid (c ∷ d ∷ s) (n, h) = rw (trim_end-Solid (d ∷ s) h)

-- A text that ends in a solid part keeps its end.
pub trim_end-append :
    (s : Text) (c : ℕ) (t : Text) → Solid (c ∷ t) → trim_end (s ++ (c ∷ t)) ≡ s ++ (c ∷ t)
unfolding trim_end
trim_end-append [] c t h = trim_end-Solid (c ∷ t) h
trim_end-append (x ∷ []) c t h = ap (onto_trimmed x) (trim_end-append [] c t h)
trim_end-append (x ∷ y ∷ s) c t h = ap (onto_trimmed x) (trim_end-append (y ∷ s) c t h)

-- ===== src/Plugin/Info/OneLine.antt =====
-- crates/go-plugin/src/plugin_info.rs, `clean_comment`: a description is one line.
use pixi_ai.Common.{
  ℕ, suc, ◌≡◌, ◌≢◌, Bool, true, false, not, Option, none, some, List, [], ◌∷◌, ◌++◌, map, keep_if,
  ◌==◌, if-both, if-split, All, All-append, Text, codes, arith,
}
use pixi_ai.Common.Split.{
  split, join, trim, trim_start, trim_end, onto_first, onto_trimmed, is_space, Lacks,
}
use pixi_ai.Plugin.Info.{
  Location, ServiceDescriptor, MethodDescriptor, FileDescriptor, MethodInfo, text_or_empty,
  is_empty, strip_return, lines_of, clean_comment, first_comment, get_leading_comment, path_eq,
  methods_from, service_info,
}

abbrev pub OneLine : Text → Type 0
OneLine = Lacks b'\n'

Lines : List Text → Type 0
Lines = All OneLine

onto_first-Lines : (c : ℕ) (ps : List Text) → c ≢ b'\n' → Lines ps → Lines (onto_first c ps)
unfolding Lines
onto_first-Lines c [] n h = ((n, tt), tt)
onto_first-Lines c (p ∷ ps) n (h, hs) = ((n, h), hs)

newline : (c : ℕ) → (c == b'\n') ≡ false → c ≢ b'\n'
newline c e q = ground arith

split-Lines : (s : Text) → Lines (split b'\n' s)
unfolding split Lines
split-Lines [] = (tt, tt)
split-Lines (c ∷ s) =
    if-split Lines (c == b'\n') (λ e. (tt, split-Lines s))
      (λ e. onto_first-Lines c (split b'\n' s) (newline c e) (split-Lines s))

strip_return-OneLine : (s : Text) → OneLine s → OneLine (strip_return s)
strip_return-OneLine [] h = tt
strip_return-OneLine (c ∷ []) h = if-both OneLine (c == b'\r') tt h
strip_return-OneLine (c ∷ d ∷ s) (n, h) = (n, strip_return-OneLine (d ∷ s) h)

lines_of-Lines : (ps : List Text) → Lines ps → Lines (lines_of ps)
unfolding Lines
lines_of-Lines [] h = tt
lines_of-Lines (p ∷ []) (h, hs) = if-both Lines (is_empty p) tt (strip_return-OneLine p h, tt)
lines_of-Lines (p ∷ q ∷ ps) (h, hs) = (strip_return-OneLine p h, lines_of-Lines (q ∷ ps) hs)

trim_start-OneLine : (s : Text) → OneLine s → OneLine (trim_start s)
unfolding trim_start
trim_start-OneLine [] h = tt
trim_start-OneLine (c ∷ s) (n, h) = if-both OneLine (is_space c) (trim_start-OneLine s h) (n, h)

onto_trimmed-OneLine : (c : ℕ) (s : Text) → c ≢ b'\n' → OneLine s → OneLine (onto_trimmed c s)
onto_trimmed-OneLine c [] n h = if-both OneLine (is_space c) tt (n, tt)
onto_trimmed-OneLine c (d ∷ s) n h = (n, h)

trim_end-OneLine : (s : Text) → OneLine s → OneLine (trim_end s)
unfolding trim_end
trim_end-OneLine [] h = tt
trim_end-OneLine (c ∷ s) (n, h) = onto_trimmed-OneLine c (trim_end s) n (trim_end-OneLine s h)

trims-Lines : (ps : List Text) → Lines ps → Lines (map trim ps)
unfolding Lines trim
trims-Lines [] h = tt
trims-Lines (p ∷ ps) (h, hs) =
    (trim_end-OneLine (trim_start p) (trim_start-OneLine p h), trims-Lines ps hs)

keep_if-Lines : (f : Text → Bool) (ps : List Text) → Lines ps → Lines (keep_if f ps)
unfolding Lines
keep_if-Lines f [] h = tt
keep_if-Lines f (p ∷ ps) (h, hs) =
    elim (f p) as (λ b. All OneLine (elim b [ true ↦ p ∷ keep_if f ps | false ↦ keep_if f ps ])) [
      | true ↦ (h, keep_if-Lines f ps hs)
      | false ↦ keep_if-Lines f ps hs
    ]

join-OneLine : (ps : List Text) → Lines ps → OneLine (join (codes " ") ps)
unfolding join Lines
join-OneLine [] h = tt
join-OneLine (p ∷ []) (h, hs) = h
join-OneLine (p ∷ q ∷ ps) (h, hs) =
    All-append (λ c. c ≢ b'\n') p (codes " " ++ join (codes " ") (q ∷ ps)) h
      ((λ e. absurd (ground arith)), join-OneLine (q ∷ ps) hs)

pub clean_comment-OneLine : (comment : Text) → OneLine (clean_comment comment)
unfolding clean_comment
clean_comment-OneLine comment =
    let parts = split b'\n' comment in
    let trimmed = map trim (lines_of parts) in
    join-OneLine (keep_if (λ l. not (is_empty l)) trimmed) (
      keep_if-Lines (λ l. not (is_empty l)) trimmed
        (trims-Lines (lines_of parts) (lines_of-Lines parts (split-Lines comment))))

-- What is found, if anything, is one line.
FoundLine : Option Text → Type 0
FoundLine o = OneLine (text_or_empty o)

first_comment-FoundLine : (ls : List Location) (path : List ℕ) → FoundLine (first_comment ls path)
unfolding FoundLine first_comment
first_comment-FoundLine [] path = tt
first_comment-FoundLine (l ∷ ls) path =
    if-both FoundLine (path_eq l.path path)
      (elim (l.leading_comments)
        as (λ o. OneLine (
          text_or_empty (elim o [
            | none ↦ first_comment ls path
            | some comment ↦ some (clean_comment comment)
          ]))) [
            | none ↦ first_comment-FoundLine ls path
            | some comment ↦ clean_comment-OneLine comment
          ])
      (first_comment-FoundLine ls path)

comment-OneLine :
    (o : Option (List Location)) (path : List ℕ)
    → OneLine (text_or_empty (get_leading_comment o path))
unfolding FoundLine
comment-OneLine none path = tt
comment-OneLine (some ls) path = first_comment-FoundLine ls path

methods_from-OneLine :
    (file : FileDescriptor) (s m : ℕ) (ds : List MethodDescriptor)
    → All (λ (i : MethodInfo). OneLine i.description) (methods_from file s m ds)
unfolding methods_from
methods_from-OneLine file s m [] = tt
methods_from-OneLine file s m (d ∷ ds) = (
  comment-OneLine file.source_code_info (6 ∷ s ∷ 2 ∷ m ∷ []),
  methods_from-OneLine file s (suc m) ds,
)

-- The descriptions of a service and of its methods have no line break.
pub service_info-OneLine :
    (file : FileDescriptor) (s : ℕ) (d : ServiceDescriptor)
    → OneLine (service_info file s d).description
      × All (λ (i : MethodInfo). OneLine i.description) (service_info file s d).methods
unfolding service_info
service_info-OneLine file s d =
    (comment-OneLine file.source_code_info (6 ∷ s ∷ []), methods_from-OneLine file s 0 d.method)

-- ===== src/Plugin/Rpc/Stream.antt =====
-- The yamux stream of crates/go-plugin/src/{rpc_client,rpc_server}.rs, which is not this repository's:
-- what the other side sends until it closes the stream or the stream breaks, as it arrives, and what is
-- written. `room` counts the writes that the stream takes before it breaks.
use pixi_ai.Common.{
  ℕ, ◌+◌, ◌-◌, ◌≤◌, ◌≡◌, refl, ap, Bool, true, false, Option, none, some, List, [], ◌∷◌, ◌++◌,
  if◌then◌else◌, leb, length, take, drop, length-drop, if-both, append-take-drop, length-append,
  arith,
}

pub record Stream : Type 0 where
  pub incoming : List (List ℕ)
  pub outgoing : List (List ℕ)
  pub room : ℕ

-- A piece that is used up is gone.
abbrev pub remaining : List ℕ → List (List ℕ) → List (List ℕ)
remaining [] pieces = pieces
remaining (b ∷ bs) pieces = (b ∷ bs) ∷ pieces

-- A read gives at most what has arrived in one piece, and nothing at the end.
unfoldable pub read_from : ℕ → List (List ℕ) → List ℕ × List (List ℕ)
read_from n [] = ([], [])
read_from n ([] ∷ pieces) = read_from n pieces
read_from n ((b ∷ bs) ∷ pieces) = (take n (b ∷ bs), remaining (drop n (b ∷ bs)) pieces)

unfoldable pub read_exact_from : ℕ → List (List ℕ) → Option (List ℕ × List (List ℕ))
read_exact_from n [] = if leb n 0 then some ([], []) else none
read_exact_from n (bs ∷ pieces) =
    let more = read_exact_from (n - length bs) pieces in
    if leb n (length bs)
    then some (take n bs, remaining (drop n bs) pieces)
    else elim more [ none ↦ none | some (got, rest) ↦ some (bs ++ got, rest) ]

unfoldable pub read : ℕ → Stream → List ℕ × Stream
unfolding read_from
read n s = let (got, rest) = read_from n s.incoming in (got, record s { incoming = rest })

-- Nothing is left to read where the stream ends too early.
abbrev pub filled : Stream → Option (List ℕ × List (List ℕ)) → Option (List ℕ) × Stream
filled s none = (none, record s { incoming = [] })
filled s (some (got, rest)) = (some got, record s { incoming = rest })

unfoldable pub read_exact : ℕ → Stream → Option (List ℕ) × Stream
unfolding read_exact_from
read_exact n s = filled s (read_exact_from n s.incoming)

unfoldable pub write_all : List ℕ → Stream → Bool × Stream
write_all bs s =
    if leb 1 s.room
    then (true, record s { outgoing = s.outgoing ++ (bs ∷ []); room = s.room - 1 })
    else (false, s)

-- How many bytes are still to be read.
abbrev pub size : List (List ℕ) → ℕ
size [] = 0
size (bs ∷ pieces) = length bs + size pieces

size-remaining :
    (bs : List ℕ) (pieces : List (List ℕ)) → size (remaining bs pieces) ≡ length bs + size pieces
size-remaining [] pieces = omega arith
size-remaining (b ∷ bs) pieces = refl

pub size-read_from :
    (n : ℕ) (pieces : List (List ℕ))
    → length (read_from n pieces).0 + size (read_from n pieces).1 ≡ size pieces
unfolding read_from
size-read_from n [] = omega arith
size-read_from n ([] ∷ pieces) = omega (arith, size-read_from n pieces)
size-read_from n ((b ∷ bs) ∷ pieces) =
    let xs = b ∷ bs in
    omega (
      arith,
      size-remaining (drop n xs) pieces,
      length-append (take n xs) (drop n xs),
      ap length (append-take-drop n xs),
    )

-- What is left is no more than there was.
abbrev pub Within : ℕ → Option (List ℕ × List (List ℕ)) → Type 0
Within k none = Unit
Within k (some (got, rest)) = size rest ≤ k

grow :
    (k j : ℕ) (bs : List ℕ) (r : Option (List ℕ × List (List ℕ)))
    → k ≤ j
    → Within k r
    → Within j (elim r [ none ↦ none | some (got, rest) ↦ some (bs ++ got, rest) ])
grow k j bs none h w = tt
grow k j bs (some (got, rest)) h w = omega arith

pub size-read_exact_from :
    (n : ℕ) (pieces : List (List ℕ)) → Within (size pieces) (read_exact_from n pieces)
unfolding read_exact_from
size-read_exact_from n [] = if-both (Within 0) (leb n 0) (omega arith) tt
size-read_exact_from n (bs ∷ pieces) =
    if-both (Within (length bs + size pieces)) (leb n (length bs))
      (omega (arith, length-drop n bs, size-remaining (drop n bs) pieces))
      (grow (size pieces) _ bs (read_exact_from (n - length bs) pieces) (omega arith)
        (size-read_exact_from (n - length bs) pieces))

leb_refl : (n : ℕ) → leb n n ≡ true
leb_refl n = ground arith

leb_zero : (n : ℕ) → leb 0 n ≡ true
leb_zero n = ground arith

piece :
    (bs : List ℕ) (pieces : List (List ℕ))
    → read_exact_from (length bs) (bs ∷ pieces) ≡ some (bs, pieces)
unfolding read_exact_from
piece bs pieces = rw (leb_refl (length bs), take_all bs, drop_all bs) refl
  where
    take_all : (xs : List ℕ) → take (length xs) xs ≡ xs
    take_all [] = refl
    take_all (x ∷ xs) = ap (◌∷◌ x) (take_all xs)

    drop_all : (xs : List ℕ) → drop (length xs) xs ≡ []
    drop_all [] = refl
    drop_all (x ∷ xs) = drop_all xs

-- A piece of the length that is asked for is read whole.
pub read_exact-piece :
    (bs : List ℕ) (pieces out : List (List ℕ)) (room : ℕ)
    → read_exact (length bs) (record { incoming = bs ∷ pieces; outgoing = out; room = room })
      ≡ (some bs, record { incoming = pieces; outgoing = out; room = room })
unfolding read_exact read_exact_from
read_exact-piece bs pieces out room =
    let s : Stream = record { incoming = bs ∷ pieces; outgoing = out; room = room } in
    ap (filled s) (piece bs pieces)

-- Reading nothing succeeds.
pub read_exact_from-zero :
    (pieces : List (List ℕ)) → (rest : List (List ℕ)) × (read_exact_from 0 pieces ≡ some ([], rest))
unfolding read_exact_from
read_exact_from-zero [] = ([], refl)
read_exact_from-zero (bs ∷ pieces) = (remaining bs pieces, rw (leb_zero (length bs)) refl)

pub write_all_lem :
    (bs : List ℕ) (s : Stream)
    → 1 ≤ s.room
    → write_all bs s ≡ (true, record s { outgoing = s.outgoing ++ (bs ∷ []); room = s.room - 1 })
unfolding write_all
write_all_lem bs s h = ground arith

-- ===== src/Video/Annexb/Frames.antt =====
-- What the conversion to Annex B writes, against the list of NAL units that the input frames.
use native.Mathlib.Nat.{pow-suc}
use pixi_ai.Common.{
  ℕ, zero, suc, ◌+◌, ◌*◌, ◌/◌, ◌%◌, ◌^◌, ◌<◌, ◌≡◌, refl, sym, ap, ◌∙◌, ◌⊎◌, false, List, [], ◌∷◌,
  ◌++◌, arith, append_assoc, append-nil, length, some, take, drop, length-append, take-append,
  drop-append, All, ltb,
}
use pixi_ai.Video.Annexb.{
  Bytes, start_code, big_endian, avcc_loop, avcc_to_annex_b, parameter_sets,
  annex_b_from_avcc_extra,
}

-- The `w` bytes of `n`, most significant first.
abbrev pub be_bytes : ℕ → ℕ → Bytes
be_bytes zero n = []
be_bytes (suc w) n = be_bytes w (n / 256) ++ (n % 256 ∷ [])

-- NAL units behind their lengths of `w` bytes each.
abbrev pub framed : ℕ → List Bytes → Bytes
framed w [] = []
framed w (nal ∷ nals) = be_bytes w (length nal) ++ (nal ++ framed w nals)

-- NAL units behind start codes.
abbrev pub annex_b : List Bytes → Bytes
annex_b [] = []
annex_b (nal ∷ nals) = start_code ++ (nal ++ annex_b nals)

length-be_bytes : (w n : ℕ) → length (be_bytes w n) ≡ w
length-be_bytes zero n = refl
length-be_bytes (suc w) n =
    omega (arith, length-append (be_bytes w (n / 256)) (n % 256 ∷ []), length-be_bytes w (n / 256))

big_endian-append :
    (acc : ℕ) (xs ys : Bytes) → big_endian acc (xs ++ ys) ≡ big_endian (big_endian acc xs) ys
unfolding big_endian
big_endian-append acc [] ys = refl
big_endian-append acc (x ∷ xs) ys = big_endian-append (acc * 256 + x) xs ys

-- A length that fits its bytes is read back from them.
pub big_endian-be_bytes : (w n : ℕ) → n < 256 ^ w → big_endian 0 (be_bytes w n) ≡ n
unfolding big_endian
big_endian-be_bytes zero n h = omega arith
big_endian-be_bytes (suc w) n h =
    big_endian-append 0 (be_bytes w (n / 256)) (n % 256 ∷ [])
    ∙ rw (big_endian-be_bytes w (n / 256) (omega (arith, pow-suc 256 w))) (omega arith)

-- What is left after the last whole unit: less than a length field, or less than it announces.
abbrev pub Truncated : ℕ → Bytes → Type 0
Truncated w tail = (length tail < w) ⊎ (length (drop w tail) < big_endian 0 (take w tail))

-- One round of the loop, on a unit that is whole.
avcc_loop-unit :
    (fuel w : ℕ) (nal rest out : Bytes)
    → length nal < 256 ^ w
    → avcc_loop (suc fuel) w (be_bytes w (length nal) ++ (nal ++ rest)) out
      ≡ avcc_loop fuel w rest (out ++ (start_code ++ nal))
unfolding avcc_loop
avcc_loop-unit fuel w nal rest out h =
    rw
      (
        take-append (be_bytes w (length nal)) (nal ++ rest) w
            (sym (length-be_bytes w (length nal))),
        drop-append (be_bytes w (length nal)) (nal ++ rest) w
            (sym (length-be_bytes w (length nal))),
        big_endian-be_bytes w (length nal) h,
        take-append nal rest (length nal) refl,
        drop-append nal rest (length nal) refl,
      )
      (ground (
        arith,
        length-append (be_bytes w (length nal)) (nal ++ rest),
        length-append nal rest,
        length-be_bytes w (length nal),
      ))

regroup :
    (w : ℕ) (nal : Bytes) (nals : List Bytes) (tail : Bytes)
    → framed w (nal ∷ nals) ++ tail ≡ be_bytes w (length nal) ++ (nal ++ (framed w nals ++ tail))
regroup w nal nals tail =
    append_assoc (be_bytes w (length nal)) (nal ++ framed w nals) tail
    ∙ ap (◌++◌ (be_bytes w (length nal))) (append_assoc nal (framed w nals) tail)

shorter :
    (w : ℕ) (nal : Bytes) (nals : List Bytes) (tail : Bytes) (fuel : ℕ)
    → 0 < w
    → length (framed w (nal ∷ nals) ++ tail) < suc fuel
    → length (framed w nals ++ tail) < fuel
shorter w nal nals tail fuel pos enough = omega (
  arith,
  ap length (regroup w nal nals tail),
  length-append (be_bytes w (length nal)) (nal ++ (framed w nals ++ tail)),
  length-append nal (framed w nals ++ tail),
  length-be_bytes w (length nal),
)

avcc_loop-framed :
    (nals : List Bytes) (fuel w : ℕ) (tail out : Bytes)
    → 0 < w
    → length (framed w nals ++ tail) < fuel
    → All (λ nal. length nal < 256 ^ w) nals
    → Truncated w tail
    → avcc_loop fuel w (framed w nals ++ tail) out ≡ out ++ annex_b nals
avcc_loop-framed nals zero w tail out pos enough small cut = absurd (omega arith)
avcc_loop-framed [] (suc fuel) w tail out pos enough small cut =
    unfold avcc_loop in ground (arith, append-nil out, cut)
avcc_loop-framed (nal ∷ nals) (suc fuel) w tail out pos enough (s, small) cut =
    rw (regroup w nal nals tail, avcc_loop-unit fuel w nal (framed w nals ++ tail) out s)
      (avcc_loop-framed nals fuel w tail (out ++ (start_code ++ nal)) pos
          (shorter w nal nals tail fuel pos enough) small cut
        ∙ append_assoc out (start_code ++ nal) (annex_b nals))

-- `avcc_to_annex_b` writes every whole NAL unit of its input behind a start code, in order, after
-- what was written before, and drops a tail that is cut off.
pub avcc_to_annex_b-framed :
    (nals : List Bytes) (w : ℕ) (tail out : Bytes)
    → 0 < w
    → All (λ nal. length nal < 256 ^ w) nals
    → Truncated w tail
    → avcc_to_annex_b (framed w nals ++ tail) w out ≡ out ++ annex_b nals
unfolding avcc_to_annex_b
avcc_to_annex_b-framed nals w tail out pos small cut =
    avcc_loop-framed nals (suc (length (framed w nals ++ tail))) w tail out pos (omega arith) small
      cut

parameter_sets-unit :
    (count : ℕ) (nal rest out : Bytes)
    → length nal < 256 ^ 2
    → parameter_sets (suc count) (be_bytes 2 (length nal) ++ (nal ++ rest)) out
      ≡ parameter_sets count rest (out ++ (start_code ++ nal))
unfolding parameter_sets
parameter_sets-unit count nal rest out h =
    rw
      (
        big_endian-be_bytes 2 (length nal) h,
        take-append nal rest (length nal) refl,
        drop-append nal rest (length nal) refl,
      )
      (ground (arith, length-append nal rest))

parameter_sets-framed :
    (nals : List Bytes) (rest out : Bytes)
    → All (λ nal. length nal < 256 ^ 2) nals
    → parameter_sets (length nals) (framed 2 nals ++ rest) out ≡ (out ++ annex_b nals, some rest)
parameter_sets-framed [] rest out small = unfold parameter_sets in rw append-nil
parameter_sets-framed (nal ∷ nals) rest out (s, small) = rw (
  regroup 2 nal nals rest,
  parameter_sets-unit (length nals) nal (framed 2 nals ++ rest) out s,
  parameter_sets-framed nals rest (out ++ (start_code ++ nal)) small,
  append_assoc out (start_code ++ nal) (annex_b nals),
)

leb_long :
    (header : Bytes) (count : ℕ) (body : Bytes)
    → length header ≡ 5
    → 0 < length body
    → ltb (length (header ++ (count ∷ body))) 7 ≡ false
leb_long header count body five long = ground (arith, length-append header (count ∷ body))

-- The parameter sets of a well-formed avcC record come out behind start codes, sequence sets first:
-- five header bytes, a byte whose low five bits count the sequence sets, those, a byte that counts
-- the picture sets, those, and anything behind them.
pub annex_b_from_avcc_extra-framed :
    (header : Bytes) (count : ℕ) (sps pps : List Bytes) (rest out : Bytes)
    → length header ≡ 5
    → count % 32 ≡ length sps
    → All (λ nal. length nal < 256 ^ 2) sps
    → All (λ nal. length nal < 256 ^ 2) pps
    → annex_b_from_avcc_extra
        (header ++ (count ∷ (framed 2 sps ++ (length pps ∷ (framed 2 pps ++ rest)))))
        out
      ≡ (out ++ annex_b sps) ++ annex_b pps
unfolding annex_b_from_avcc_extra
annex_b_from_avcc_extra-framed header count sps pps rest out five few small small' =
    rw (drop-append header (count ∷ body) 5 (sym five), leb_long header count body five long)
      (rw (few, parameter_sets-framed sps (length pps ∷ (framed 2 pps ++ rest)) out small)
        (ap (λ r. r.0) (parameter_sets-framed pps rest (out ++ annex_b sps) small')))
  where
    body : Bytes
    body = framed 2 sps ++ (length pps ∷ (framed 2 pps ++ rest))

    long : 0 < length body
    long = omega (arith, length-append (framed 2 sps) (length pps ∷ (framed 2 pps ++ rest)))

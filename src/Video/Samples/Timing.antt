-- ===== src/Video/Samples/Timing.antt =====
-- The times of the samples against the expanded run-length tables.
use pixi_ai.Common.{
  ℕ, zero, suc, ◌+◌, ◌-◌, ◌≤◌, ◌<◌, ◌≡◌, refl, sym, ap, ◌∙◌, List, [], ◌∷◌, ◌++◌, map, some, arith,
  All, append_assoc, append-nil, length, length-append, length-replicate, replicate, take,
}
use mathlib.Core.List.{map-append}
use pixi_ai.Common.Int.{ℤ, pos}
use pixi_ai.Video.Samples.{
  SampleEntry, SampleToChunk, Track, ok, Runs, advance, consume, Boxes, Walk, push_sample,
  walk_chunks, start_walk, boxes, build_sample_table,
}
use pixi_ai.Video.Samples.Table.{walk_chunks_inv}

-- The values that `n` rounds of the decoder read.
pub values {ℓ} : {A : Type ℓ} → ℕ → Runs A → List A
values zero r = []
values (suc n) r = (advance r).value ∷ values n (consume (advance r))

-- Each run's value as often as it counts.
abbrev pub expand {ℓ} : {A : Type ℓ} → List (ℕ × A) → List A
expand [] = []
expand ((count, v) ∷ runs) = replicate count v ++ expand runs

-- Running sums: the times at which samples of these lengths begin.
abbrev pub begins : ℕ → List ℕ → List ℕ
begins t [] = []
begins t (d ∷ ds) = t ∷ begins (t + d) ds

module _ {ℓ} {A : Type ℓ} (k c : ℕ) (u v : A) (runs : List (ℕ × A)) where
  -- A used-up run gives way to the next one; any other goes on.
  advance_next :
      advance (record { iter = (c, u) ∷ runs; remaining = 0; value = v })
      ≡ record { iter = runs; remaining = c; value = u }
  unfolding advance
  advance_next = refl

  advance_keep :
      advance (record { iter = (c, u) ∷ runs; remaining = suc k; value = v })
      ≡ record { iter = (c, u) ∷ runs; remaining = suc k; value = v }
  unfolding advance
  advance_keep = ground arith

advance_end {ℓ} :
    {A : Type ℓ} (k : ℕ) (v : A)
    → advance (record { iter = []; remaining = k; value = v })
      ≡ record { iter = []; remaining = k; value = v }
unfolding advance
advance_end k v = refl

-- While the runs last, the decoder reads the expanded table.
values-expand {ℓ} :
    {A : Type ℓ} (n k : ℕ) (v : A) (runs : List (ℕ × A))
    → All (λ run. 0 < run.0) runs
    → n ≤ k + length (expand runs)
    → values n (record { iter = runs; remaining = k; value = v })
      ≡ take n (replicate k v ++ expand runs)
unfolding values
values-expand zero k v runs positive h = refl
values-expand (suc n) zero v [] positive h = absurd (omega arith)
values-expand (suc n) zero v ((zero, u) ∷ runs) (some_left, positive) h = absurd (omega arith)
values-expand (suc n) zero v ((suc c, u) ∷ runs) (some_left, positive) h =
    let one_less : suc c - 1 ≡ c = omega arith in
    rw (advance_next 0 (suc c) u v runs, one_less)
      (ap (◌∷◌ u) (
        values-expand n c u runs positive
          (omega (arith, length-append (replicate c u) (expand runs), length-replicate c u))))
values-expand (suc n) (suc k) v [] positive h =
    let one_less : suc k - 1 ≡ k = omega arith in
    rw (advance_end (suc k) v, one_less)
      (ap (◌∷◌ v) (values-expand n k v [] positive (omega arith)))
values-expand (suc n) (suc k) v ((c, u) ∷ runs) positive h =
    let one_less : suc k - 1 ≡ k = omega arith in
    rw (advance_keep k c u v runs, one_less)
      (ap (◌∷◌ v) (values-expand n k v ((c, u) ∷ runs) positive (omega arith)))

abbrev pub offsets_of : List SampleEntry → List ℤ
offsets_of = map (λ s. s.cts_offset)

abbrev pub times_of : List SampleEntry → List ℕ
times_of = map (λ s. s.dts_ticks)

-- What has been read of the composition offsets, and what a longer walk would read.
abbrev ReadsOffsets : Runs ℤ → Walk → Type 0
ReadsOffsets start w =
    (m : ℕ) → offsets_of w.samples ++ values m w.ctts ≡ values (w.sample_idx + m) start

push_sample-ReadsOffsets :
    (start : Runs ℤ) (b : Boxes) (w : Walk) (offset size : ℕ)
    → ReadsOffsets start w
    → ReadsOffsets start (push_sample b w offset size)
unfolding push_sample values
push_sample-ReadsOffsets start b w offset size h m =
    rw (map-append, append_assoc) (h (suc m) ∙ ap (λ k. values k start) (omega arith))

abbrev ReadsTimes : Runs ℕ → Walk → Type 0
ReadsTimes start w =
    (m : ℕ)
    → times_of w.samples ++ begins w.dts_ticks (values m w.stts)
      ≡ begins 0 (values (w.sample_idx + m) start)

push_sample-ReadsTimes :
    (start : Runs ℕ) (b : Boxes) (w : Walk) (offset size : ℕ)
    → ReadsTimes start w
    → ReadsTimes start (push_sample b w offset size)
unfolding push_sample values
push_sample-ReadsTimes start b w offset size h m =
    rw (map-append, append_assoc) (h (suc m) ∙ ap (λ k. begins 0 (values k start)) (omega arith))

push_sample_counted :
    (b : Boxes) (w : Walk) (offset size : ℕ)
    → length w.samples ≡ w.sample_idx
    → length (push_sample b w offset size).samples ≡ (push_sample b w offset size).sample_idx
unfolding push_sample
push_sample_counted b w offset size h = omega (arith, length-append {0} w.samples)

record Reads (stts : Runs ℕ) (ctts : Runs ℤ) (w : Walk) : Type 0 where
  counted : length w.samples ≡ w.sample_idx
  times : ReadsTimes stts w
  offsets : ReadsOffsets ctts w

push_sample-Reads :
    (stts : Runs ℕ) (ctts : Runs ℤ) (b : Boxes) (w : Walk) (offset size : ℕ)
    → Reads stts ctts w
    → Reads stts ctts (push_sample b w offset size)
push_sample-Reads stts ctts b w offset size r = record {
  counted = push_sample_counted b w offset size r.counted;
  times = push_sample-ReadsTimes stts b w offset size r.times;
  offsets = push_sample-ReadsOffsets ctts b w offset size r.offsets;
}

-- The samples of a table begin at the running sums of the expanded time-to-sample table, and carry
-- the offsets of the expanded composition table, where no run is empty and the runs cover the
-- samples.
pub build_sample_table_times :
    (t : Track) (offsets sizes : List ℕ) (size : ℕ) (stsc : List SampleToChunk)
    (stts : List (ℕ × ℕ)) (ctts : List (ℕ × ℤ)) (samples : List SampleEntry)
    → t.stco ≡ some offsets
    → t.stsz ≡ some (size, sizes)
    → t.stsc ≡ some stsc
    → t.stts ≡ some stts
    → t.ctts ≡ some ctts
    → build_sample_table t ≡ ok samples
    → All (λ run. 0 < run.0) stts
    → All (λ run. 0 < run.0) ctts
    → length samples ≤ length (expand stts)
    → length samples ≤ length (expand ctts)
    → (times_of samples ≡ begins 0 (take (length samples) (expand stts)))
      × (offsets_of samples ≡ take (length samples) (expand ctts))
unfolding build_sample_table values
build_sample_table_times t offsets sizes size stsc stts ctts samples hco hsz hsc hst hct built pst
      pct cst cct =
    rw (← same) (
      sym (append-nil _) ∙ final.times 0 ∙ ap (begins 0) (here _ stts 0 pst cst),
      sym (append-nil _) ∙ final.offsets 0 ∙ here _ ctts (pos 0) pct cct,
    )
  where
    walked : Walk
    walked = walk_chunks (boxes size sizes stts t.stss) stsc 1 offsets (start_walk stts ctts)

    same : walked.samples ≡ samples
    same = ground arith

    final : Reads (start_walk stts ctts).stts (start_walk stts ctts).ctts walked
    final =
        walk_chunks_inv (Reads (start_walk stts ctts).stts (start_walk stts ctts).ctts)
          (boxes size sizes stts t.stss)
          (λ w offset n _ r. push_sample-Reads _ _ (boxes size sizes stts t.stss) w offset n r) stsc
          1 offsets (start_walk stts ctts)
          (record {
            counted = refl;
            times = λ m. ap (λ n. begins 0 (values n (start_walk stts ctts).stts)) (omega arith);
            offsets = λ m. ap (λ n. values n (start_walk stts ctts).ctts) (omega arith);
          })

    here :
        (A : Type 0) (runs : List (ℕ × A)) (v : A)
        → All (λ run. 0 < run.0) runs
        → length samples ≤ length (expand runs)
        → values (walked.sample_idx + 0) (record { iter = runs; remaining = 0; value = v })
          ≡ take (length walked.samples) (expand runs)
    here A runs v positive enough =
        ap (λ n. values n (record { iter = runs; remaining = 0; value = v }))
          (omega (arith, final.counted))
        ∙ values-expand (length walked.samples) 0 v runs positive (omega (arith, ap length same))

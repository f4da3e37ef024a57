-- ===== src/Video/Samples/Table.antt =====
-- crates/video-decoder/src/demux/mp4.rs, `build_sample_table`: the invariant rule of its loops and its errors.
use pixi_ai.Common.{
  All, ◌≤◌, ℕ, zero, suc, ◌+◌, ◌<◌, ◌≡◌, inl, inr, none, some, List, [], ◌∷◌, arith, Option-cases,
  ◌↔◌, ◌⊎◌, ◌≢◌,
}
use pixi_ai.Video.Samples.{
  SampleEntry, SampleToChunk, Track, TableError, missing_stco, missing_stsz, missing_stsc,
  missing_stts, err, Boxes, Walk, sample_size_at, push_sample, walk_chunk, walk_chunks,
  build_sample_table,
}

-- Decode timestamps do not fall along the list.
abbrev pub Monotone : List SampleEntry → Type 0
Monotone [] = Unit {0}
Monotone (s ∷ ss) = All (λ t. s.dts_ticks ≤ t.dts_ticks) ss × Monotone ss

size_in_range :
    (b : Boxes) (idx : ℕ) {size : ℕ} → sample_size_at b idx ≡ some size → idx < b.total_samples
unfolding sample_size_at
size_in_range b idx h = ground arith

-- The invariant rule of the two loops.
module _ {ℓ} (P : Walk → Type ℓ) (b : Boxes)
    (keep : (w : Walk) (offset size : ℕ)
      → w.sample_idx < b.total_samples
      → P w
      → P (push_sample b w offset size)) where
  walk_chunk_inv : (spc offset : ℕ) (w : Walk) → P w → P (walk_chunk b spc offset w)
  unfolding walk_chunk
  walk_chunk_inv zero offset w v = v
  walk_chunk_inv (suc spc) offset w v = elim (Option-cases (sample_size_at b w.sample_idx)) [
    | inl e ↦ rw (e, walk_chunk) v
    | inr (size, e) ↦
        rw (e, walk_chunk)
          (walk_chunk_inv spc (offset + size) (push_sample b w offset size)
            (keep w offset size (size_in_range b w.sample_idx e) v))
  ]

  pub walk_chunks_inv :
      (stsc : List SampleToChunk) (chunk : ℕ) (offsets : List ℕ) (w : Walk)
      → P w
      → P (walk_chunks b stsc chunk offsets w)
  unfolding walk_chunks
  walk_chunks_inv stsc chunk [] w v = v
  walk_chunks_inv stsc chunk (offset ∷ offsets) w v =
      walk_chunks_inv stsc (chunk + 1) offsets _ (walk_chunk_inv _ offset w v)

-- Without one of the four the first that is missing is reported.
pub build_sample_table_missing :
    (t : Track) (e : TableError)
    → (build_sample_table t ≡ err e) ↔ (
        ((t.stco ≡ none) × (e ≡ missing_stco))
        ⊎ ((t.stco ≢ none) × (t.stsz ≡ none) × (e ≡ missing_stsz))
        ⊎ ((t.stco ≢ none) × (t.stsz ≢ none) × (t.stsc ≡ none) × (e ≡ missing_stsc))
        ⊎ ((t.stco ≢ none)
            × (t.stsz ≢ none)
            × (t.stsc ≢ none)
            × (t.stts ≡ none)
            × (e ≡ missing_stts)))
unfolding build_sample_table
build_sample_table_missing t e = ground arith

-- ===== src/Video/Samples.antt =====
-- crates/video-decoder/src/demux/mp4.rs: the sample table of a track and the demuxer over it.
-- The boxes of `mp4parse::Track` that the code reads are records of their fields. A `u64` sum of
-- offsets and ticks is written without wrap: a file would have to be larger than 2^64 bytes.
pub mod Table
pub mod Timing
pub mod Seek
use pixi_ai.Common.{
  ℕ, zero, suc, ◌+◌, ◌-◌, ◌%◌, u32_mod, Bool, true, false, ◌&&◌, ◌||◌, Option, none, some, List, [],
  ◌∷◌, ◌++◌, ltb, leb, ◌==◌, if◌then◌else◌, length, get_elem?,
}
use pixi_ai.Common.Int.{ℤ, pos, pos_part, neg_part}

pub record SampleEntry : Type 0 where
  pub offset : ℕ
  pub size : ℕ
  pub dts_ticks : ℕ
  pub cts_offset : ℤ
  pub is_sync : Bool

-- `stsc` entry: 1-based first chunk and samples per chunk.
pub record SampleToChunk : Type 0 where
  pub first_chunk : ℕ
  pub samples_per_chunk : ℕ

-- The fields of a track that `build_sample_table` reads. A run is a count and its value.
pub record Track : Type 0 where
  pub stco : Option (List ℕ)
  pub stsz : Option (ℕ × List ℕ)
  pub stsc : Option (List SampleToChunk)
  pub stts : Option (List (ℕ × ℕ))
  pub stss : Option (List ℕ)
  pub ctts : Option (List (ℕ × ℤ))

pub data TableError : Type 0 where
  missing_stco missing_stsz missing_stsc missing_stts : TableError

pub data Result {ℓ} (A : Type ℓ) : Type ℓ where
  ok : A → Result A
  err : TableError → Result A

-- The samples per chunk of the last entry whose first chunk is not behind `chunk`.
unfoldable pub samples_in_chunk : ℕ → ℕ → List SampleToChunk → ℕ
samples_in_chunk chunk spc [] = spc
samples_in_chunk chunk spc (e ∷ es) =
    let later = samples_in_chunk chunk e.samples_per_chunk es in
    if leb e.first_chunk chunk then later else spc

abbrev pub sum_counts : List (ℕ × ℕ) → ℕ
sum_counts [] = 0
sum_counts ((count, _) ∷ runs) = count + sum_counts runs

unfoldable pub contains : List ℕ → ℕ → Bool
contains [] n = false
contains (x ∷ xs) n = x == n || contains xs n

-- A run-length decoder: the runs not yet begun, what is left of the current run, and its value.
pub record Runs {ℓ} (A : Type ℓ) : Type ℓ where
  pub iter : List (ℕ × A)
  pub remaining : ℕ
  pub value : A

module _ {ℓ} {A : Type ℓ} where
  -- Begins the next run if the current one is used up; without a next run the value stays.
  next_run : ℕ → A → List (ℕ × A) → Runs A
  next_run remaining value [] = record { iter = []; remaining = remaining; value = value }
  next_run remaining value ((count, v) ∷ runs) =
      if remaining == 0
      then record { iter = runs; remaining = count; value = v }
      else record { iter = (count, v) ∷ runs; remaining = remaining; value = value }

  unfoldable pub advance : Runs A → Runs A
  unfolding next_run
  advance r = next_run r.remaining r.value r.iter

  -- `remaining.saturating_sub(1)`.
  abbrev pub consume : Runs A → Runs A
  consume r = record r { remaining = r.remaining - 1 }

-- What the loops read only.
pub record Boxes : Type 0 where
  pub total_samples : ℕ
  pub sample_size : ℕ
  pub sample_sizes : List ℕ
  pub all_sync : Bool
  pub sync_set : List ℕ

-- The mutable variables of the loops, and the samples pushed so far.
pub record Walk : Type 0 where
  pub samples : List SampleEntry
  pub sample_idx : ℕ
  pub dts_ticks : ℕ
  pub stts : Runs ℕ
  pub ctts : Runs ℤ

-- `None` where the inner loop breaks: no sample is left.
unfoldable pub sample_size_at : Boxes → ℕ → Option ℕ
sample_size_at b idx =
    if leb b.total_samples idx
    then none
    else if ltb 0 b.sample_size
    then some b.sample_size
    else get_elem? b.sample_sizes idx

-- What one round of the inner loop does at a sample of this size.
unfoldable pub push_sample : Boxes → Walk → ℕ → ℕ → Walk
unfolding advance contains
push_sample b w offset size =
    let stts = advance w.stts in
    let ctts = advance w.ctts in
    record {
      samples =
          w.samples
          ++ (record {
            offset = offset;
            size = size;
            dts_ticks = w.dts_ticks;
            cts_offset = ctts.value;
            is_sync = b.all_sync || contains b.sync_set ((w.sample_idx + 1) % u32_mod);
          }
              ∷ []);
      sample_idx = w.sample_idx + 1;
      dts_ticks = w.dts_ticks + stts.value;
      stts = consume stts;
      ctts = consume ctts;
    }

-- `for _ in 0..spc` from file offset `offset` on.
pub walk_chunk : Boxes → ℕ → ℕ → Walk → Walk
unfolding sample_size_at push_sample
walk_chunk b zero offset w = w
walk_chunk b (suc spc) offset w = elim (sample_size_at b w.sample_idx) [
  | none ↦ w
  | some size ↦ walk_chunk b spc (offset + size) (push_sample b w offset size)
]

-- `for (chunk_idx, &chunk_offset) in stco.offsets.iter().enumerate()`, at 1-based chunk numbers.
pub walk_chunks : Boxes → List SampleToChunk → ℕ → List ℕ → Walk → Walk
unfolding walk_chunk samples_in_chunk
walk_chunks b stsc chunk [] w = w
walk_chunks b stsc chunk (offset ∷ offsets) w =
    walk_chunks b stsc (chunk + 1) offsets
      (walk_chunk b (samples_in_chunk (chunk % u32_mod) 0 stsc) offset w)

abbrev pub start_walk : List (ℕ × ℕ) → List (ℕ × ℤ) → Walk
start_walk stts ctts = record {
  samples = [];
  sample_idx = 0;
  dts_ticks = 0;
  stts = record { iter = stts; remaining = 0; value = 0 };
  ctts = record { iter = ctts; remaining = 0; value = pos 0 };
}

abbrev pub or_empty {ℓ} : {A : Type ℓ} → Option (List A) → List A
or_empty none = []
or_empty (some xs) = xs

abbrev pub is_none {ℓ} : {A : Type ℓ} → Option A → Bool
is_none none = true
is_none (some a) = false

-- Samples of one size are counted by the runs of `stts`, others by the list of their sizes.
unfoldable pub boxes : ℕ → List ℕ → List (ℕ × ℕ) → Option (List ℕ) → Boxes
boxes sample_size sample_sizes stts stss = record {
  total_samples = if ltb 0 sample_size then sum_counts stts else length sample_sizes;
  sample_size = sample_size;
  sample_sizes = sample_sizes;
  all_sync = is_none stss;
  sync_set = or_empty stss;
}

infixl 5 ◌>>=◌
abbrev pub ◌>>=◌ {ℓ κ} : {A : Type ℓ} {B : Type κ} → Result A → (A → Result B) → Result B
ok a >>= f = f a
err e >>= f = err e

abbrev pub ok_or {ℓ} : {A : Type ℓ} → Option A → TableError → Result A
ok_or none e = err e
ok_or (some a) e = ok a

unfoldable pub build_sample_table : Track → Result (List SampleEntry)
unfolding boxes walk_chunks
build_sample_table t = do
  stco ← ok_or t.stco missing_stco
  (sample_size, sample_sizes) ← ok_or t.stsz missing_stsz
  stsc ← ok_or t.stsc missing_stsc
  stts ← ok_or t.stts missing_stts
  ok
      (walk_chunks (boxes sample_size sample_sizes stts t.stss) stsc 1 stco
        (start_walk stts (or_empty t.ctts))).samples

-- `Mp4Demuxer::seek` looks for the last sync sample that is not behind the target, and stops at the
-- first sample that is. `i` is the index of the head.
pub seek_from : ℕ → ℕ → ℕ → List SampleEntry → ℕ
seek_from target best i [] = best
seek_from target best i (s ∷ ss) =
    let best' = if s.is_sync && leb s.dts_ticks target then i else best in
    let rest = seek_from target best' (suc i) ss in if ltb target s.dts_ticks then best' else rest

-- `dts_ticks as i64 + cts_offset`, not below 0; ticks are below 2^63.
unfoldable pub pts_ticks : ℕ → ℤ → ℕ
pts_ticks dts cts = dts + pos_part cts - neg_part cts

-- ===== src/Video/Samples/Seek.antt =====
-- `Mp4Demuxer::seek`: the sample that a seek goes to.
use pixi_ai.Common.{
  ℕ, suc, ◌+◌, ◌≤◌, ◌<◌, ◌≡◌, refl, ◌⊎◌, inl, inr, Bool, true, false, ◌&&◌, some, List, [], ◌∷◌,
  arith, All, All-map, get_elem?, drop, leb, ltb, Bool-cases,
}
use pixi_ai.Video.Samples.{SampleEntry, seek_from}
use pixi_ai.Video.Samples.Table.{Monotone}

-- A sample that decoding can start from, and that is not behind the target.
abbrev pub reachable : ℕ → SampleEntry → Bool
reachable target s = s.is_sync && leb s.dts_ticks target

-- `k` is the last reachable sample of the list at index `i`, or the default where there is none.
abbrev pub LastReachable : ℕ → ℕ → ℕ → List SampleEntry → ℕ → Type 0
LastReachable target best i ss k =
    ((k ≡ best) × All (λ s. reachable target s ≡ false) ss)
    ⊎ ((j : ℕ) × (s : SampleEntry) × (k ≡ i + j)
        × (get_elem? ss j ≡ some s)
        × (reachable target s ≡ true)
        × All (λ t. reachable target t ≡ false) (drop (suc j) ss))

behind-All :
    (target : ℕ) (s : SampleEntry) (ss : List SampleEntry)
    → target < s.dts_ticks
    → All (λ t. s.dts_ticks ≤ t.dts_ticks) ss
    → All (λ t. reachable target t ≡ false) ss
behind-All target s ss lt = All-map (λ t h. ground arith) ss

-- In a table whose times are in order the loop finds the last sample that is reachable.
pub seek_from-LastReachable :
    (target best i : ℕ) (ss : List SampleEntry)
    → Monotone ss
    → LastReachable target best i ss (seek_from target best i ss)
unfolding seek_from
seek_from-LastReachable target best i [] m = inl (refl, tt)
seek_from-LastReachable target best i (s ∷ ss) (later, m) =
    elim (Bool-cases (ltb target s.dts_ticks)) [
      | inl past ↦
          rw past (inl (ground arith, (ground arith, behind-All target s ss (ground arith) later)))
      | inr here ↦ rw here (elim (Bool-cases (reachable target s)) [
        | inl hit ↦ rw hit (elim (seek_from-LastReachable target i (suc i) ss m) [
          | inl (e, none_behind) ↦ inr (0, s, omega arith, refl, hit, none_behind)
          | inr (j, t, e, g, r, rest) ↦ inr (suc j, t, omega arith, g, r, rest)
        ])
        | inr miss ↦ rw miss (elim (seek_from-LastReachable target best (suc i) ss m) [
          | inl (e, none_behind) ↦ inl (e, (refl, none_behind))
          | inr (j, t, e, g, r, rest) ↦ inr (suc j, t, omega arith, g, r, rest)
        ])
      ])
    ]

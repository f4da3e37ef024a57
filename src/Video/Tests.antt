-- ===== src/Video/Tests.antt =====
-- The theorems about crates/video-decoder at concrete inputs.
use pixi_ai.Common.{ℕ, ◌≡◌, refl, true, false, none, some, [], ◌∷◌, ◌++◌, arith}
use pixi_ai.Common.Int.{pos}
use pixi_ai.Video.Dpb.{DpbSlot, DpbManager, allocate, slot, reference_index}
use pixi_ai.Video.Dpb.Allocate.{Picked, allocate-Picked}
use pixi_ai.Video.Playback.{PlaybackState}
use pixi_ai.Video.Annexb.{avcc_to_annex_b}
use pixi_ai.Video.Annexb.Frames.{framed, annex_b, avcc_to_annex_b-framed}

abbrev full : DpbManager ℕ
full = record {
  slots =
      record { resource = 0; poc = pos 4; in_use = true }
      ∷ record { resource = 1; poc = pos 2; in_use = true }
      ∷ [];
}

evicts : (allocate full (pos 6)).1 ≡ some 1
unfolding allocate
evicts = refl

absent : reference_index full (pos 6) ≡ none
unfolding reference_index
absent = refl

allocate-Picked_example : (s : DpbSlot ℕ) × (slot full 1 ≡ some s) × Picked full.slots 1 s
allocate-Picked_example = allocate-Picked full (pos 6) 1 evicts

abbrev playing : PlaybackState ℕ
playing = record {
  position = 0;
  duration = 100;
  fps = 25;
  looping = false;
  paused = false;
  frame_interval = 40;
  elapsed_since_frame = 10;
}

avcc_to_annex_b-framed_example :
    avcc_to_annex_b (framed 4 ((101 ∷ 136 ∷ []) ∷ (65 ∷ []) ∷ []) ++ (0 ∷ 0 ∷ [])) 4 []
    ≡ [] ++ annex_b ((101 ∷ 136 ∷ []) ∷ (65 ∷ []) ∷ [])
avcc_to_annex_b-framed_example =
    avcc_to_annex_b-framed ((101 ∷ 136 ∷ []) ∷ (65 ∷ []) ∷ []) 4 (0 ∷ 0 ∷ []) [] (ground arith)
      (ground arith) (ground arith)

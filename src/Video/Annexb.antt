-- ===== src/Video/Annexb.antt =====
-- crates/video-decoder/src/demux/mp4.rs: from AVCC framing to Annex B start codes.
-- A byte is a number below 256. `usize` is 64 bits wide; lengths of 1 to 4 bytes do not overflow it.
pub mod Frames
use pixi_ai.Common.{
  ℕ, zero, suc, ◌+◌, ◌-◌, ◌*◌, ◌/◌, ◌%◌, List, [], ◌∷◌, ◌++◌, ltb, leb, Option, none, some,
  if◌then◌else◌, length, take, drop,
}

abbrev pub Bytes : Type 0
Bytes = List ℕ

abbrev pub start_code : Bytes
start_code = 0 ∷ 0 ∷ 0 ∷ 1 ∷ []

-- `nal_len = (nal_len << 8) | byte` over the given bytes: the low 8 bits of the shift are 0.
unfoldable pub big_endian : ℕ → Bytes → ℕ
big_endian acc [] = acc
big_endian acc (b ∷ bs) = big_endian (acc * 256 + b) bs

-- The loop of `avcc_to_annex_b` over the bytes from `pos` on. Each round takes at least one byte
-- for a `len_size` that is not zero, so the number of bytes is fuel enough.
pub avcc_loop : ℕ → ℕ → Bytes → Bytes → Bytes
avcc_loop zero len_size rest out = out
avcc_loop (suc fuel) len_size rest out =
    let nal_len = big_endian 0 (take len_size rest) in
    let body = drop len_size rest in
    let next =
      avcc_loop fuel len_size (drop nal_len body) (out ++ (start_code ++ take nal_len body)) in
    if leb len_size (length rest) then if ltb (length body) nal_len then out else next else out

-- `nal_length_size` is 1 to 4 where the code calls it.
unfoldable pub avcc_to_annex_b : Bytes → ℕ → Bytes → Bytes
unfolding avcc_loop
avcc_to_annex_b avcc_data nal_length_size out =
    avcc_loop (suc (length avcc_data)) nal_length_size avcc_data out

-- One loop of `annex_b_from_avcc_extra` over `count` parameter sets with 2-byte lengths; `none` for
-- the early `return`, beside what was written.
pub parameter_sets : ℕ → Bytes → Bytes → Bytes × Option Bytes
parameter_sets zero rest out = (out, some rest)
parameter_sets (suc count) rest out =
    let len = big_endian 0 (take 2 rest) in
    let body = drop 2 rest in
    let next = parameter_sets count (drop len body) (out ++ (start_code ++ take len body)) in
    if ltb (length rest) 2 then (out, none) else if ltb (length body) len then (out, none) else next

-- The second loop, over the picture parameter sets: `rest` begins with their number.
pub picture_sets : Bytes → Bytes → Bytes
unfolding parameter_sets
picture_sets [] out = out
picture_sets (num_pps ∷ rest) out = (parameter_sets num_pps rest out).0

pub after_sequence_sets : Bytes × Option Bytes → Bytes
unfolding picture_sets
after_sequence_sets (out, none) = out
after_sequence_sets (out, some rest) = picture_sets rest out

-- `extra[5..]`: the number of sequence parameter sets is in the low five bits of the first byte.
pub sequence_sets : Bytes → Bytes → Bytes
unfolding after_sequence_sets
sequence_sets [] out = out
sequence_sets (b ∷ rest) out = after_sequence_sets (parameter_sets (b % 32) rest out)

unfoldable pub annex_b_from_avcc_extra : Bytes → Bytes → Bytes
unfolding sequence_sets
annex_b_from_avcc_extra extra out =
    if ltb (length extra) 7 then out else sequence_sets (drop 5 extra) out

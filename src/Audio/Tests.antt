-- ===== src/Audio/Tests.antt =====
-- The theorems about crates/audio-capture at concrete inputs.
use pixi_ai.Common.{
  ℕ, zero, suc, ◌+◌, ◌/◌, ◌≤◌, true, false, none, some, List, [], ◌∷◌, ◌++◌, codes, arith, All,
}
use pixi_ai.Audio.Resample.{Floats, iterate, downmix_to_mono}
use pixi_ai.Audio.Capture.{AudioConfig, Host, Platform, f32, default_config}
use pixi_ai.Audio.Capture.Frames.{Cut, run, Brought, Short, run-Cut}

-- Whole numbers in place of floats; a ratio is rounded up.
abbrev sum_of : List ℕ → ℕ
sum_of [] = 0
sum_of (x ∷ xs) = x + sum_of xs

pass : (n r p : ℕ) → n + p ≤ iterate n (λ q. q + suc r) p
pass zero r p = omega arith
pass (suc n) r p = omega (arith, pass n r (p + suc r))

abbrev whole : Floats ℕ ℕ ℕ
whole = record {
  sum = sum_of;
  over_count = ◌/◌;
  start_pos = 0;
  ratio = λ src dst. suc (src / dst);
  plus = ◌+◌;
  as_usize = λ p. p;
  to_i16 = λ x. x;
  from_i16 = λ x. x;
  steps = λ r n. n;
  passed = λ src dst n s d h. omega (arith, pass n (src / dst) 0);
}

abbrev pairs : AudioConfig
pairs = record default_config { frame_size = 2 }

abbrev clock : ℕ → ℕ
clock n = n

-- Three stereo samples, then one, at 24 kHz, of which every second is taken.
abbrev blocks : List ((ℕ → ℕ) × List ℕ)
blocks = (clock, 2 ∷ 4 ∷ 6 ∷ 8 ∷ 10 ∷ 12 ∷ []) ∷ (clock, 7 ∷ 9 ∷ []) ∷ []

few : All (λ (elapsed, block). Short whole 2 block) blocks
unfolding downmix_to_mono
few = (omega arith, (omega arith, tt))

run-Cut_example :
    (brought : List ℕ) × Brought whole 24000 2 blocks brought
    × Cut whole 2 ([] ++ brought) (run whole pairs 24000 2 [] blocks)
run-Cut_example =
    run-Cut whole pairs 24000 2 [] blocks (omega arith) (omega arith) (omega arith) few

abbrev host : Host ℕ ℕ
host = record {
  input_devices = some (1 ∷ 2 ∷ []);
  output_devices = some (3 ∷ []);
  default_input_device = some 1;
  default_output_device = some 3;
  name_of = λ d. some (codes "mic");
  default_input_config = λ d. some 0;
  default_output_config = λ d. none;
  sample_format = λ c. f32;
  builds = λ d c. true;
  plays = λ d c. true;
}

abbrev linux_box : Platform
linux_box = record { macos = false; is_available = false; has_catap = false; sc_starts = false }

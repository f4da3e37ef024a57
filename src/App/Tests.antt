-- ===== src/App/Tests.antt =====
-- The theorems about crates/app at concrete inputs.
use pixi_ai.Common.{
  ◌==◌, ◌%◌, if◌then◌else◌, List, [], ◌∷◌, Option, none, false, true, Bool, ℕ, ◌+◌, ◌-◌, ◌*◌, ◌/◌,
  ◌≡◌, refl, some, leb, arith,
}
use Prim.Native.Nat.{min}
use pixi_ai.App.Mascot
use pixi_ai.App.Mascot.{MascotState}
use pixi_ai.App.Mascot.Modes.{Restored, toggled_look, ordinary, toggle-toggle}
use pixi_ai.App.TrackerThread.{
  Event, send_frame, recv, detect_frame, try_recv_result, run, new_with_mode,
}
use pixi_ai.App.AutoBlink.{AutoBlink, Floats, idle, closing, new, update, update_in}
use pixi_ai.App.AutoBlink.Cycle.{Reachable, started, updated, Reachable-Seeded}
use pixi_ai.App.AutoBlink.Random.{Seeded}

-- Thousandths in place of floats.
abbrev pub thousandths : Floats ℕ
thousandths = record {
  zero_f = 0;
  one_f = 1000;
  two_f = 2000;
  close_duration = 120;
  closed_hold = 60;
  open_duration = 200;
  shortest = 2300;
  spread = 1700;
  add = ◌+◌;
  sub = ◌-◌;
  mul = λ a b. a * b / 1000;
  div = λ a b. a * 1000 / b;
  min_f = min;
  at_least = λ a b. leb b a;
  as_secs_f32 = λ n. n / 1_000_000;
  from_secs_f32 = λ s. s * 1_000_000;
  of_u32 = λ n. n;
}

abbrev pub waiting : AutoBlink ℕ
waiting = record { value = 300; state = 7; next_blink_time = 5; phase = idle; phase_start = 0 }

waiting_begins : (update thousandths 9 9 waiting).phase ≡ closing
unfolding update_in
waiting_begins = refl

-- A controller whose clock gave 0, after two updates.
abbrev updated_twice : AutoBlink ℕ
updated_twice = update thousandths 20 21 (update thousandths 9 9 (new thousandths (some 0) 5))

updated_twice-Reachable : Reachable thousandths updated_twice
updated_twice-Reachable = updated 20 21 (updated 9 9 (started (some 0) 5 (ground arith)))

Reachable-Seeded_example : Seeded updated_twice.state
Reachable-Seeded_example = Reachable-Seeded thousandths updated_twice updated_twice-Reachable

-- The tracker fails on odd frames.
abbrev detect : ℕ → Bool → Option ℕ
detect n face_only = if n % 2 == 0 then some (n * 10) else none

-- The second frame finds the channel full.
abbrev turns : List (Event ℕ)
turns =
    send_frame 2
    ∷ send_frame 3
    ∷ recv
    ∷ send_frame 4
    ∷ detect_frame
    ∷ recv
    ∷ try_recv_result
    ∷ detect_frame
    ∷ try_recv_result
    ∷ []

got_both : (run detect (new_with_mode false, []) turns).1 ≡ 40 ∷ 20 ∷ []
unfolding run
got_both = refl

abbrev mascot : MascotState ℕ ℕ
mascot = Mascot.new 0 0

toggle-toggle_example :
    Restored 2 true mascot
      (800, 600)
      (toggled_look 2 true (toggled_look 2 true (mascot, ordinary (800, 600))))
toggle-toggle_example = toggle-toggle 2 true mascot (800, 600) refl

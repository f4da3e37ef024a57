-- ===== src/App/AutoBlink.antt =====
-- crates/app/src/auto_blink.rs: the automatic blink.
-- An `Instant` is its number of nanoseconds. `f32` is the record `Floats`.
pub mod Cycle
pub mod Random
use Prim.Native.Nat.{bit_xor}
use pixi_ai.Common.{
  ℕ, ◌+◌, ◌-◌, ◌*◌, ◌/◌, ◌%◌, ◌^◌, Bool, true, false, Option, none, some, ◌==◌, leb, if◌then◌else◌,
  u32_mod,
}

pub data BlinkMode : Type 0 where
  tracking auto : BlinkMode

pub data BlinkPhase : Type 0 where
  idle closing closed opening : BlinkPhase

-- `f32`: its operations, the literals of the file, and the conversions of `Duration` and `u32`.
pub record Floats (F : Type 0) : Type 0 where
  pub zero_f : F
  pub one_f : F
  pub two_f : F
  pub close_duration : F
  pub closed_hold : F
  pub open_duration : F
  pub shortest : F
  pub spread : F
  pub add : F → F → F
  pub sub : F → F → F
  pub mul : F → F → F
  pub div : F → F → F
  pub min_f : F → F → F
  pub at_least : F → F → Bool
  pub as_secs_f32 : ℕ → F
  pub from_secs_f32 : F → ℕ
  pub of_u32 : ℕ → F

pub record AutoBlink (F : Type 0) : Type 0 where
  pub value : F
  pub state : ℕ
  pub next_blink_time : ℕ
  pub phase : BlinkPhase
  pub phase_start : ℕ

-- `u32::shl` and `u32::shr`.
abbrev pub shl : ℕ → ℕ → ℕ
shl x n = x * 2 ^ n % u32_mod

abbrev pub shr : ℕ → ℕ → ℕ
shr x n = x / 2 ^ n

unfoldable pub xorshift32 : ℕ → ℕ
xorshift32 state =
    let x = bit_xor state (shl state 13) in let y = bit_xor x (shr x 17) in bit_xor y (shl y 5)

-- `Instant::duration_since`.
abbrev pub duration_since : ℕ → ℕ → ℕ
duration_since now start = now - start

-- The seed: the nanoseconds of the clock, or a constant, and never zero.
abbrev pub seed_of : Option ℕ → ℕ
seed_of none = 12345
seed_of (some nanos) = if nanos == 0 then 1 else nanos

module _ {F : Type 0} (fl : Floats F) where
  -- Between 2.3 and 4.0 seconds.
  abbrev pub interval : ℕ → F
  interval rand =
      fl.add fl.shortest (fl.mul (fl.div (fl.of_u32 rand) (fl.of_u32 (u32_mod - 1))) fl.spread)

  -- The part of a phase that is over, at most 1.0.
  abbrev pub part : ℕ → AutoBlink F → F → F
  part now b duration =
      fl.min_f (fl.div (fl.as_secs_f32 (duration_since now b.phase_start)) duration) fl.one_f

  unfoldable pub schedule_next_blink : ℕ → AutoBlink F → AutoBlink F
  unfolding xorshift32
  schedule_next_blink now b =
      let x = xorshift32 b.state in
      record b { state = x; next_blink_time = now + fl.from_secs_f32 (interval x) }

  -- `clock` is what the system's clock gives, `now` the instant.
  unfoldable pub new : Option ℕ → ℕ → AutoBlink F
  unfolding schedule_next_blink
  new clock now = schedule_next_blink now (record {
    value = fl.zero_f;
    state = seed_of clock;
    next_blink_time = now;
    phase = idle;
    phase_start = now;
  })

  abbrev pub update_idle : ℕ → AutoBlink F → AutoBlink F
  update_idle now b =
      if leb b.next_blink_time now
      then record b { value = fl.zero_f; phase = closing; phase_start = now }
      else record b { value = fl.zero_f }

  abbrev pub update_closing : ℕ → AutoBlink F → AutoBlink F
  update_closing now b =
      let t = part now b fl.close_duration in
      if fl.at_least t fl.one_f
      then record b { value = fl.one_f; phase = closed; phase_start = now }
      else record b { value = fl.mul t t }

  abbrev pub update_closed : ℕ → AutoBlink F → AutoBlink F
  update_closed now b =
      if fl.at_least (fl.as_secs_f32 (duration_since now b.phase_start)) fl.closed_hold
      then record b { value = fl.one_f; phase = opening; phase_start = now }
      else record b { value = fl.one_f }

  unfoldable pub update_opening : ℕ → ℕ → AutoBlink F → AutoBlink F
  unfolding schedule_next_blink
  update_opening now later b =
      let t = part now b fl.open_duration in
      if fl.at_least t fl.one_f
      then schedule_next_blink later (record b { value = fl.zero_f; phase = idle })
      else record b { value = fl.sub fl.one_f (fl.mul t (fl.sub fl.two_f t)) }

  unfoldable pub update_in : BlinkPhase → ℕ → ℕ → AutoBlink F → AutoBlink F
  unfolding update_opening
  update_in idle now later b = update_idle now b
  update_in closing now later b = update_closing now b
  update_in closed now later b = update_closed now b
  update_in opening now later b = update_opening now later b

  -- `later` is the instant at which the next blink is scheduled.
  abbrev pub update : ℕ → ℕ → AutoBlink F → AutoBlink F
  update now later b = update_in b.phase now later b

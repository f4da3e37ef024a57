-- ===== src/App/AutoBlink/Cycle.antt =====
-- crates/app/src/auto_blink.rs: the order of the phases, and when the next blink is scheduled.
use pixi_ai.Common.{
  ℕ, ◌+◌, sym, ap, ◌∙◌, subst, ◌≡◌, ◌≢◌, ◌<◌, refl, ◌⊎◌, inl, inr, Option, none, some, arith, leb,
  if-both, u32_mod,
}
use pixi_ai.App.AutoBlink.{
  AutoBlink, Floats, BlinkPhase, idle, closing, closed, opening, new, update, update_in,
  update_opening, schedule_next_blink, seed_of, xorshift32, interval, duration_since, part,
}
use pixi_ai.App.AutoBlink.Random.{Seeded, xorshift32-Seeded}

seed_of-ne : (clock : Option ℕ) → seed_of clock ≢ 0
seed_of-ne none e = absurd (omega (arith, e))
seed_of-ne (some n) e = absurd (grind arith)

-- The phase that follows.
abbrev pub after : BlinkPhase → BlinkPhase
after idle = closing
after closing = closed
after closed = opening
after opening = idle

module _ {F : Type 0} (fl : Floats F) where
  -- What an update may change: nothing but the value; or the phase to the next, which begins now; or,
  -- from the last phase, back to the first with a new random state and a blink that lies ahead.
  abbrev pub Moves : ℕ → ℕ → AutoBlink F → AutoBlink F → Type 0
  Moves now later b c =
      ((c ≡ record b { value = c.value }))
      ⊎ ((b.phase ≢ opening)
          × (c ≡ record b { value = c.value; phase = after b.phase; phase_start = now }))
      ⊎ ((b.phase ≡ opening)
          × (c.value ≡ fl.zero_f)
          × (c.phase ≡ idle)
          × (c.state ≡ xorshift32 b.state)
          × (c.next_blink_time ≡ later + fl.from_secs_f32 (interval fl c.state)))

  on :
      (now later : ℕ) (b : AutoBlink F) (p : BlinkPhase) (v : F)
      → b.phase ≡ p
      → p ≢ opening
      → Moves now later b (record b { value = v; phase = after p; phase_start = now })
  on now later b p v e n = inr (
      inl (
        (λ o. n (sym e ∙ o)),
        ap (λ q. record b { value = v; phase = after q; phase_start = now }) (sym e),
      ))

  update_in-Moves :
      (now later : ℕ) (b : AutoBlink F) (p : BlinkPhase)
      → b.phase ≡ p
      → Moves now later b (update_in fl p now later b)
  unfolding update_in
  update_in-Moves now later b idle e =
      if-both (Moves now later b) (leb b.next_blink_time now)
        (on now later b idle fl.zero_f e (λ q. cc)) (inl refl)
  update_in-Moves now later b closing e =
      let t = part fl now b fl.close_duration in
      if-both (Moves now later b) (fl.at_least t fl.one_f)
        (on now later b closing fl.one_f e (λ q. cc)) (inl refl)
  update_in-Moves now later b closed e =
      if-both (Moves now later b)
        (fl.at_least (fl.as_secs_f32 (duration_since now b.phase_start)) fl.closed_hold)
        (on now later b closed fl.one_f e (λ q. cc)) (inl refl)
  update_in-Moves now later b opening e =
      unfold update_opening schedule_next_blink in
      let t = part fl now b fl.open_duration in
      if-both (Moves now later b) (fl.at_least t fl.one_f) (inr (inr (e, refl, refl, refl, refl)))
        (inl refl)

  -- The states of a controller that started with a clock below 2 ^ 32 nanoseconds.
  pub data Reachable : AutoBlink F → Type 0 where
    started : (clock : Option ℕ) (now : ℕ) → seed_of clock < u32_mod → Reachable (new fl clock now)
    updated : {b : AutoBlink F} (now later : ℕ) → Reachable b → Reachable (update fl now later b)

  abbrev pub Random : AutoBlink F → Type 0
  Random b = Seeded b.state

  -- An update leaves all but the value, or begins the next phase now, or ends the last phase: then
  -- the eyes are open, and the next blink is scheduled from a new random number.
  update-Moves : (now later : ℕ) (b : AutoBlink F) → Moves now later b (update fl now later b)
  update-Moves now later b = update_in-Moves now later b b.phase refl

  Moves-Seeded :
      (now later : ℕ) (b c : AutoBlink F) → Moves now later b c → Seeded b.state → Seeded c.state
  Moves-Seeded now later b c (inl e) s = subst Random (sym e) s
  Moves-Seeded now later b c (inr (inl (n, e))) s = subst Random (sym e) s
  Moves-Seeded now later b c (inr (inr (o, v, p, e, t))) s =
      subst Seeded (sym e) (xorshift32-Seeded b.state s)

  -- In every state of a blink controller that started with a clock below 2 ^ 32 nanoseconds the
  -- generator's state is a u32 that is not zero.
  pub Reachable-Seeded : (b : AutoBlink F) → Reachable b → Seeded b.state
  unfolding new schedule_next_blink
  Reachable-Seeded b (started clock now h) = xorshift32-Seeded (seed_of clock) (h, seed_of-ne clock)
  Reachable-Seeded b (updated {b = a} now later h) =
      Moves-Seeded now later a (update fl now later a) (update-Moves now later a)
        (Reachable-Seeded a h)

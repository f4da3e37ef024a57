-- ===== src/Video/Playback/Frames.antt =====
-- How many frames a run of ticks delivers, and where the clock stands after it.
use pixi_ai.Common.{
  ℕ, suc, ◌+◌, ◌*◌, ◌/◌, ◌≤◌, ◌<◌, ◌≡◌, refl, Bool, true, false, List, [], ◌∷◌, arith,
  if◌then◌else◌, All, ◌↔◌, ◌⊎◌,
}
use pixi_ai.Video.Playback.{PlaybackState, duration_max, tick, check_end_of_stream, pause}

abbrev pub sum : List ℕ → ℕ
sum [] = 0
sum (x ∷ xs) = x + sum xs

div_unique : (q f r t : ℕ) → q * f + r ≡ t → r < f → q ≡ t / f
div_unique q f r t e h = grind arith

credit :
    (b : Bool) (n f left rest s e dt : ℕ)
    → n * f + rest ≡ left + s
    → (if b then f else 0) + left ≡ e + dt
    → (if b then suc n else n) * f + rest ≡ e + (dt + s)
credit true n f left rest s e dt h k = omega arith
credit false n f left rest s e dt h k = omega arith

module _ {ℓ} {F : Type ℓ} where
  -- The state after one `tick` for each `dt`, and how many of them were due frames.
  pub run_ticks : PlaybackState F → List ℕ → PlaybackState F × ℕ
  run_ticks p [] = (p, 0)
  run_ticks p (dt ∷ dts) =
      let (q, due) = tick p dt in
      let (r, frames) = run_ticks q dts in (r, if due then suc frames else frames)

  tick_lem :
      (p : PlaybackState F) (dt : ℕ)
      → p.paused ≡ false
      → p.position + dt ≤ duration_max
      → p.elapsed_since_frame + dt ≤ duration_max
      → ((tick p dt).0.paused ≡ false)
        × ((tick p dt).0.frame_interval ≡ p.frame_interval)
        × ((tick p dt).0.position ≡ p.position + dt)
        × ((if (tick p dt).1 then p.frame_interval else 0) + (tick p dt).0.elapsed_since_frame
            ≡ p.elapsed_since_frame + dt)
  unfolding tick
  tick_lem p dt unpaused room room' = ground arith

  after :
      (p : PlaybackState F) (dt : ℕ) (dts : List ℕ)
      → (if (tick p dt).1 then p.frame_interval else 0) + (tick p dt).0.elapsed_since_frame
        ≡ p.elapsed_since_frame + dt
      → p.elapsed_since_frame + sum (dt ∷ dts) ≤ duration_max
      → (tick p dt).0.elapsed_since_frame + sum dts ≤ duration_max
  after p dt dts left room = omega arith

  tick_small :
      (p : PlaybackState F) (dt : ℕ)
      → p.elapsed_since_frame < p.frame_interval
      → dt ≤ p.frame_interval
      → ((tick p dt).0.elapsed_since_frame < p.frame_interval)
        × ((tick p dt).0.frame_interval ≡ p.frame_interval)
  unfolding tick
  tick_small p dt small short = ground arith

  -- While playing and short of `Duration::MAX`, the clock advances by exactly the time that passed,
  -- and the frames delivered, each worth one frame interval, and the time left over make up the
  -- time that passed.
  pub run_ticks_lem :
      (p : PlaybackState F) (dts : List ℕ)
      → p.paused ≡ false
      → p.position + sum dts ≤ duration_max
      → p.elapsed_since_frame + sum dts ≤ duration_max
      → ((run_ticks p dts).0.position ≡ p.position + sum dts)
        × ((run_ticks p dts).1 * p.frame_interval + (run_ticks p dts).0.elapsed_since_frame
            ≡ p.elapsed_since_frame + sum dts)
  unfolding run_ticks
  run_ticks_lem p [] unpaused room room' = (omega arith, omega arith)
  run_ticks_lem p (dt ∷ dts) unpaused room room' =
      let (plays, same, at, left) = tick_lem p dt unpaused (omega arith) (omega arith) in
      let ih = run_ticks_lem (tick p dt).0 dts plays (omega arith) (after p dt dts left room') in
      let ih' : (run_ticks (tick p dt).0 dts).1 * p.frame_interval
            + (run_ticks (tick p dt).0 dts).0.elapsed_since_frame
          ≡ (tick p dt).0.elapsed_since_frame + sum dts =
        rw same at ih.1 in
      (omega (arith, ih.0), credit (tick p dt).1 _ _ _ _ _ _ _ ih' left)

  run_ticks_small :
      (p : PlaybackState F) (dts : List ℕ)
      → p.elapsed_since_frame < p.frame_interval
      → All (λ dt. dt ≤ p.frame_interval) dts
      → (run_ticks p dts).0.elapsed_since_frame < p.frame_interval
  unfolding run_ticks
  run_ticks_small p [] small short = small
  run_ticks_small p (dt ∷ dts) small (short, rest) =
      let (below, same) = tick_small p dt small short in
      omega (arith, same, run_ticks_small (tick p dt).0 dts (rw same below) (rw same rest))

  -- When no tick is longer than a frame interval, the backlog stays below one interval, so the
  -- frames delivered are the whole intervals in the time that passed.
  pub run_ticks_frames :
      (p : PlaybackState F) (dts : List ℕ)
      → p.paused ≡ false
      → p.position + sum dts ≤ duration_max
      → p.elapsed_since_frame + sum dts ≤ duration_max
      → p.elapsed_since_frame < p.frame_interval
      → All (λ dt. dt ≤ p.frame_interval) dts
      → (run_ticks p dts).1 ≡ (p.elapsed_since_frame + sum dts) / p.frame_interval
  run_ticks_frames p dts unpaused room room' small short =
      let (_, total) = run_ticks_lem p dts unpaused room room' in
      div_unique _ _ _ _ total (run_ticks_small p dts small short)

  -- A paused clock stands still, and no frame is due.
  pub tick_paused : (p : PlaybackState F) (dt : ℕ) → tick (pause p) dt ≡ (pause p, false)
  unfolding tick pause
  tick_paused p dt = refl

  -- Playback ends exactly when the clock has reached the duration and looping is off; what goes on
  -- is below the duration, or was set back to the start.
  pub check_end_of_stream_lem :
      (p : PlaybackState F)
      → let (q, goes_on) = check_end_of_stream p in
        ((goes_on ≡ false) ↔ ((p.duration ≤ p.position) × (p.looping ≡ false)))
        × ((goes_on ≡ false)
            ⊎ (q.position < p.duration)
            ⊎ ((q.position ≡ 0) × (q.elapsed_since_frame ≡ 0)))
  unfolding check_end_of_stream
  check_end_of_stream_lem p = ground arith

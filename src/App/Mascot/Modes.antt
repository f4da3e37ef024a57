-- ===== src/App/Mascot/Modes.antt =====
-- crates/app/src/mascot.rs: a window that becomes a mascot and back, and when it can be dragged.
use pixi_ai.Common.{
  ℕ, ◌*◌, ◌≡◌, refl, sym, subst, ap, ◌⊎◌, inl, inr, Bool, true, false, Option, List, [], ◌∷◌,
  if◌then◌else◌, if-both, if-split,
}
use pixi_ai.App.Mascot.{
  WindowLevel, normal, Call, set_decorations, set_cursor_hittest, set_has_shadow, set_window_level,
  request_inner_size, set_outer_position, MascotState, new, toggle, enter, leave,
  toggle_always_on_top, start_drag, update_drag, end_drag,
}

module _ {C I : Type 0} where
  -- The states that the calls lead to.
  pub data Reachable : MascotState C I → Type 0 where
    created : (c : C) (i : I) → Reachable (new c i)
    toggled :
        {m : MascotState C I} (is_macos : Bool) (inner_size : ℕ × ℕ)
        → Reachable m
        → Reachable (toggle is_macos m inner_size).0
    raised : {m : MascotState C I} → Reachable m → Reachable (toggle_always_on_top m).0
    dragged :
        {m : MascotState C I} (i : I) (outer_position : Option (I × I)) (cursor : C × C)
        → Reachable m
        → Reachable (start_drag i m outer_position cursor)
    dropped : {m : MascotState C I} → Reachable m → Reachable (end_drag m)

  -- Only a mascot is dragged.
  abbrev pub Guarded : MascotState C I → Type 0
  Guarded m = (m.enabled ≡ true) ⊎ (m.dragging ≡ false)

  abbrev GuardedFirst : MascotState C I × List (Call I) → Type 0
  GuardedFirst (m, calls) = Guarded m

  toggle-Guarded :
      (is_macos : Bool) (m : MascotState C I) (inner_size : ℕ × ℕ)
      → GuardedFirst (toggle is_macos m inner_size)
  unfolding toggle
  toggle-Guarded is_macos m inner_size = if-both GuardedFirst m.enabled (inr refl) (inl refl)

  start_drag-Guarded :
      (i : I) (m : MascotState C I) (outer_position : Option (I × I)) (cursor : C × C)
      → Guarded m
      → Guarded (start_drag i m outer_position cursor)
  unfolding start_drag
  start_drag-Guarded i m outer_position cursor g = if-split Guarded m.enabled (λ e. inl e) (λ e. g)

  Reachable-Guarded : (m : MascotState C I) → Reachable m → Guarded m
  unfolding toggle_always_on_top
  Reachable-Guarded m (created c i) = inr refl
  Reachable-Guarded m (toggled {m = n} is_macos inner_size r) = toggle-Guarded is_macos n inner_size
  Reachable-Guarded m (raised {m = n} r) = Reachable-Guarded n r
  Reachable-Guarded m (dragged {m = n} i outer_position cursor r) =
      start_drag-Guarded i n outer_position cursor (Reachable-Guarded n r)
  Reachable-Guarded m (dropped {m = n} r) = inr refl

  still :
      (m : MascotState C I) (plus : I → I → I) (minus : C → C → I) (cursor : C × C)
      → m.dragging ≡ false
      → update_drag plus minus m cursor ≡ []
  unfolding update_drag
  still m plus minus (x, y) e = rw (e) refl

  -- In every state a cursor that moves leaves the window in its place, unless it is a mascot.
  pub update_drag-Reachable :
      (m : MascotState C I) (plus : I → I → I) (minus : C → C → I) (cursor : C × C)
      → Reachable m
      → (m.enabled ≡ true) ⊎ (update_drag plus minus m cursor ≡ [])
  update_drag-Reachable m plus minus cursor r = elim (Reachable-Guarded m r) [
    | inl e ↦ inl e
    | inr e ↦ inr (still m plus minus cursor e)
  ]

-- What a window shows after the documented effect of the calls, at a scale factor.
pub record Look : Type 0 where
  pub decorations : Bool
  pub level : WindowLevel
  pub size : ℕ × ℕ
  pub hittest : Bool
  pub shadow : Bool

module _ {I : Type 0} (scale : ℕ) where
  abbrev pub shows : Look → Call I → Look
  shows w (set_decorations b) = record w { decorations = b }
  shows w (set_cursor_hittest b) = record w { hittest = b }
  shows w (set_has_shadow b) = record w { shadow = b }
  shows w (set_window_level level) = record w { level = level }
  shows w (request_inner_size (x, y)) = record w { size = (x * scale, y * scale) }
  shows w (set_outer_position p) = w

  abbrev pub after : Look → List (Call I) → Look
  after w [] = w
  after w (c ∷ cs) = after (shows w c) cs

-- A window with decorations, on the normal level, that takes clicks and has a shadow.
abbrev pub ordinary : ℕ × ℕ → Look
ordinary size = record {
  decorations = true;
  level = normal;
  size = size;
  hittest = true;
  shadow = true;
}

module _ {C I : Type 0} (scale : ℕ) (is_macos : Bool) where
  -- The look of a window that is toggled; its size is read first.
  abbrev pub toggled_look : MascotState C I × Look → MascotState C I × Look
  toggled_look (m, w) = let (n, calls) = toggle is_macos m w.size in (n, after scale w calls)

  -- A mascot that was made of an ordinary window, with the calls that follow.
  abbrev pub Restored : MascotState C I → ℕ × ℕ → MascotState C I × Look → Type 0
  Restored m size (k, w) =
      (w ≡ ordinary (size.0 * scale, size.1 * scale)) × (k.enabled ≡ false) × (k.on_top ≡ m.on_top)

  toggle-off :
      (m : MascotState C I) (size : ℕ × ℕ)
      → m.enabled ≡ false
      → toggle is_macos m size ≡ enter is_macos m size m.on_top
  unfolding toggle
  toggle-off m size e = ap (λ b. if b then leave is_macos m else enter is_macos m size m.on_top) e

-- Off and on again, on macOS and elsewhere.
leave-enter :
    {C I : Type 0} (scale : ℕ) (is_macos : Bool) (m : MascotState C I) (size : ℕ × ℕ)
    → Restored scale is_macos m size (
        let (n, calls) = enter is_macos m size m.on_top in
        toggled_look scale is_macos (n, after scale (ordinary size) calls))
unfolding toggle enter leave
leave-enter scale true m size = (refl, refl, refl)
leave-enter scale false m size = (refl, refl, refl)

-- An ordinary window that becomes a mascot and back looks as before, but that its size is multiplied by
-- the scale factor.
pub toggle-toggle :
    {C I : Type 0} (scale : ℕ) (is_macos : Bool) (m : MascotState C I) (size : ℕ × ℕ)
    → m.enabled ≡ false
    → Restored scale is_macos m size
        (toggled_look scale is_macos (toggled_look scale is_macos (m, ordinary size)))
toggle-toggle scale is_macos m size e =
    subst
      (λ x.
        Restored scale is_macos m size (
          let (n, calls) = x in toggled_look scale is_macos (n, after scale (ordinary size) calls)))
      (sym (toggle-off scale is_macos m size e)) (leave-enter scale is_macos m size)

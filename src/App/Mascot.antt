-- ===== src/App/Mascot.antt =====
-- crates/app/src/mascot.rs: the window as a mascot on the desktop.
-- What is called on winit's window is a list, in order; what is read from it, its inner size in physical
-- pixels and its outer position, is an argument, and so is whether the platform is macOS. A coordinate of
-- the cursor is of the type `C`, an f64; one of the window, an i32, of the type `I`.
pub mod Modes
use pixi_ai.Common.{
  ℕ, Bool, true, false, not, Option, none, some, List, [], ◌∷◌, ◌++◌, if◌then◌else◌,
}

pub data WindowLevel : Type 0 where
  normal always_on_top : WindowLevel

-- A requested size is in logical pixels.
pub data Call (I : Type 0) : Type 0 where
  set_decorations set_cursor_hittest set_has_shadow : Bool → Call I
  set_window_level : WindowLevel → Call I
  request_inner_size : ℕ × ℕ → Call I
  set_outer_position : I × I → Call I

pub record MascotState (C I : Type 0) : Type 0 where
  pub enabled : Bool
  pub on_top : Bool
  pub dragging : Bool
  pub drag_start_cursor : C × C
  pub drag_start_window : I × I
  pub normal_size : ℕ × ℕ
  pub mascot_size : ℕ × ℕ

abbrev pub level_for : Bool → WindowLevel
level_for on_top = if on_top then always_on_top else normal

abbrev pub shadow_call : {I : Type 0} → Bool → Bool → List (Call I)
shadow_call is_macos b = if is_macos then set_has_shadow b ∷ [] else []

abbrev pub or_default : {I : Type 0} → I → Option (I × I) → I × I
or_default i none = (i, i)
or_default i (some p) = p

module _ {C I : Type 0} where
  -- From the zeros of both kinds of coordinates.
  abbrev pub new : C → I → MascotState C I
  new c i = record {
    enabled = false;
    on_top = false;
    dragging = false;
    drag_start_cursor = (c, c);
    drag_start_window = (i, i);
    normal_size = (1280, 720);
    mascot_size = (512, 512);
  }

  unfoldable pub enter : Bool → MascotState C I → ℕ × ℕ → Bool → MascotState C I × List (Call I)
  enter is_macos m inner_size on_top = (
    record m { normal_size = inner_size; on_top = on_top; enabled = true },
    set_decorations false
        ∷ set_window_level (level_for on_top)
        ∷ request_inner_size m.mascot_size
        ∷ set_cursor_hittest false
        ∷ shadow_call is_macos false,
  )

  unfoldable pub leave : Bool → MascotState C I → MascotState C I × List (Call I)
  leave is_macos m = (
    record m { enabled = false; dragging = false },
    set_decorations true
        ∷ set_window_level normal
        ∷ request_inner_size m.normal_size
        ∷ set_cursor_hittest true
        ∷ shadow_call is_macos true,
  )

  unfoldable pub toggle : Bool → MascotState C I → ℕ × ℕ → MascotState C I × List (Call I)
  unfolding enter leave
  toggle is_macos m inner_size =
      if m.enabled then leave is_macos m else enter is_macos m inner_size m.on_top

  unfoldable pub toggle_always_on_top : MascotState C I → MascotState C I × List (Call I)
  toggle_always_on_top m = (
    record m { on_top = not m.on_top },
    if m.enabled then set_window_level (level_for (not m.on_top)) ∷ [] else [],
  )

  -- `i` is the zero that stands for an unknown position.
  unfoldable pub start_drag : I → MascotState C I → Option (I × I) → C × C → MascotState C I
  start_drag i m outer_position cursor =
      if m.enabled
      then record m {
        dragging = true;
        drag_start_cursor = cursor;
        drag_start_window = or_default i outer_position;
      }
      else m

  -- `plus` adds two i32, `minus` takes two f64 and rounds the difference to an i32.
  unfoldable pub update_drag : (I → I → I) → (C → C → I) → MascotState C I → C × C → List (Call I)
  update_drag plus minus m (x, y) =
      if m.dragging
      then set_outer_position (
        plus (m.drag_start_window).0 (minus x (m.drag_start_cursor).0),
        plus (m.drag_start_window).1 (minus y (m.drag_start_cursor).1),
      )
        ∷ []
      else []

  abbrev pub end_drag : MascotState C I → MascotState C I
  end_drag m = record m { dragging = false }

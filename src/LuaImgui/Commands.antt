-- ===== src/LuaImgui/Commands.antt =====
-- crates/lua-imgui/src/commands.rs. The calls of imgui are a list; what a call returns is dropped by the
-- code, but that a window's content is run only where `shown` says so. Floats are the type `F`.
pub mod Nesting
use pixi_ai.Common.{
  ℕ, zero, suc, ◌+◌, ◌-◌, Bool, true, false, Option, none, some, List, [], ◌∷◌, ◌++◌, ◌==◌,
  if◌then◌else◌, length, take, drop, Text,
}
use pixi_ai.Common.Options.{◌>>=◌}

pub data ImguiCommand (F : Type 0) : Type 0 where
  begin_window : Text → ImguiCommand F
  end_window : ImguiCommand F
  text : Text → ImguiCommand F
  button : Text → ImguiCommand F
  same_line separator : ImguiCommand F
  slider_float : Text → F → F → F → ImguiCommand F
  checkbox : Text → Bool → ImguiCommand F
  input_text : Text → Text → ImguiCommand F
  tree_node_begin : Text → ImguiCommand F
  tree_node_end : ImguiCommand F
  color_edit3 : Text → F → F → F → ImguiCommand F

-- What is called on `ui`; a window is its content between two marks.
pub data Call (F : Type 0) : Type 0 where
  window_opened window_closed : Text → Call F
  ui_text ui_button ui_tree_node : Text → Call F
  ui_same_line ui_separator : Call F
  ui_slider : Text → F → F → F → Call F
  ui_checkbox : Text → Bool → Call F
  ui_color_edit3 : Text → F → F → F → Call F

pub data Bracket : Type 0 where
  opens : Text → Bracket
  closes neither : Bracket

-- What a command adds to the count, from the counts behind it at each depth.
abbrev pub count_by : Bracket → ℕ → ℕ → ℕ → ℕ → ℕ
count_by (opens name) depth deeper shallower same = suc deeper
count_by closes depth deeper shallower same = if depth == 1 then 0 else suc shallower
count_by neither depth deeper shallower same = suc same

module _ {F : Type 0} where
  -- `ui.window(name).build(content)`.
  abbrev pub build : (Text → Bool) → Text → List (Call F) → List (Call F)
  build shown name content =
      window_opened name ∷ (if shown name then content else []) ++ window_closed name ∷ []

  -- One command of `replay_inner`.
  abbrev pub draw : ImguiCommand F → List (Call F)
  draw (text t) = ui_text t ∷ []
  draw (button label) = ui_button label ∷ []
  draw same_line = ui_same_line ∷ []
  draw separator = ui_separator ∷ []
  draw (slider_float label lo hi value) = ui_slider label lo hi value ∷ []
  draw (checkbox label checked) = ui_checkbox label checked ∷ []
  draw (color_edit3 label r g b) = ui_color_edit3 label r g b ∷ []
  draw c = []

  unfoldable pub replay_inner : List (ImguiCommand F) → List (Call F)
  replay_inner [] = []
  replay_inner (c ∷ cs) = draw c ++ replay_inner cs

  -- One command of `replay`, whose windows are empty.
  abbrev pub replay_one : (Text → Bool) → ImguiCommand F → List (Call F)
  replay_one shown (begin_window name) = build shown name []
  replay_one shown (tree_node_begin label) = ui_tree_node label ∷ []
  replay_one shown c = draw c

  unfoldable pub replay : (Text → Bool) → List (ImguiCommand F) → List (Call F)
  replay shown [] = []
  replay shown (c ∷ cs) = replay_one shown c ++ replay shown cs

  abbrev pub bracket : ImguiCommand F → Bracket
  bracket (begin_window name) = opens name
  bracket end_window = closes
  bracket c = neither

  -- How many commands stand in front of the matching `EndWindow`, or all of them.
  unfoldable pub find_end : ℕ → List (ImguiCommand F) → ℕ
  find_end depth [] = 0
  find_end depth (c ∷ cs) =
      count_by (bracket c) depth (find_end (suc depth) cs) (find_end (depth - 1) cs)
        (find_end depth cs)

  -- One round of the loop: a window and what comes behind its end, or what comes behind a command outside.
  abbrev pub replay_by :
      (Text → Bool)
      → Bracket
      → List (Call F)
      → Option (List (Call F))
      → Option (List (Call F))
      → Option (List (Call F))
  replay_by shown (opens name) inner after rest = do
    calls ← after
    some (build shown name inner ++ calls)
  replay_by shown closes inner after rest = rest
  replay_by shown neither inner after rest = rest

  -- The loop over what is left of the commands; none where the rounds run out.
  unfoldable pub replay_from : ℕ → (Text → Bool) → List (ImguiCommand F) → Option (List (Call F))
  unfolding find_end replay_inner
  replay_from rounds shown [] = some []
  replay_from zero shown (c ∷ cs) = none
  replay_from (suc rounds) shown (c ∷ cs) =
      let end = find_end 1 cs in
      replay_by shown (bracket c) (replay_inner (take end cs))
        (replay_from rounds shown (drop (suc end) cs)) (replay_from rounds shown cs)

  unfoldable pub replay_nested : (Text → Bool) → List (ImguiCommand F) → Option (List (Call F))
  unfolding replay_from
  replay_nested shown commands = replay_from (length commands) shown commands

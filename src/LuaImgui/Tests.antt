-- ===== src/LuaImgui/Tests.antt =====
-- The theorems about crates/lua-imgui at concrete inputs.
use pixi_ai.Common.{ℕ, Bool, true, List, [], ◌∷◌, codes, Text}
use pixi_ai.LuaImgui.Commands.{ImguiCommand, begin_window, text, same_line, button, end_window}
use pixi_ai.LuaImgui.Commands.Nesting.{Script, done, widget, window}

abbrev always : Text → Bool
always name = true

abbrev panel : Script ℕ
panel = widget same_line (
    window (codes "a")
      (widget (text (codes "x")) (window (codes "b") (widget (button (codes "y")) done) done)) done)

-- The second window is never closed.
abbrev open_ended : List (ImguiCommand ℕ)
open_ended =
    begin_window (codes "a") ∷ begin_window (codes "b") ∷ end_window ∷ text (codes "x") ∷ []

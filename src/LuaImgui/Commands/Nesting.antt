-- ===== src/LuaImgui/Commands/Nesting.antt =====
-- crates/lua-imgui/src/commands.rs: `replay_nested` ends, and what it draws of windows that are closed.
use pixi_ai.Common.{
  ℕ, zero, suc, ◌≤◌, ◌≡◌, refl, Bool, Option, some, List, [], ◌∷◌, ◌++◌, length, take, drop,
  length-drop, Text, arith,
}
use pixi_ai.LuaImgui.Commands.{
  ImguiCommand, begin_window, end_window, Call, build, draw, replay_inner, Bracket, opens, closes,
  neither, bracket, replay_by, find_end, replay_from, replay_nested,
}

-- A script of Lua with its windows closed: widgets, and windows with what stands inside them.
pub data Script (F : Type 0) : Type 0 where
  done : Script F
  widget : ImguiCommand F → Script F → Script F
  window : Text → Script F → Script F → Script F

module _ {F : Type 0} where
  -- The widgets are no marks of windows.
  abbrev pub Plain : Script F → Type 0
  Plain done = Unit
  Plain (widget c rest) = (bracket c ≡ neither) × Plain rest
  Plain (window name inner rest) = Plain inner × Plain rest

  -- The commands that the script records.
  abbrev pub commands : Script F → List (ImguiCommand F)
  commands done = []
  commands (widget c rest) = c ∷ commands rest
  commands (window name inner rest) =
      begin_window name ∷ commands inner ++ end_window ∷ commands rest

  -- The widgets at any depth, in order.
  abbrev pub contents : Script F → List (Call F)
  contents done = []
  contents (widget c rest) = draw c ++ contents rest
  contents (window name inner rest) = contents inner ++ contents rest

  -- Each outermost window with all its widgets; nothing of what stands outside.
  abbrev pub drawn : (Text → Bool) → Script F → List (Call F)
  drawn shown done = []
  drawn shown (widget c rest) = drawn shown rest
  drawn shown (window name inner rest) = build shown name (contents inner) ++ drawn shown rest

  abbrev pub Returns : Option (List (Call F)) → Type 0
  Returns o = (out : List (Call F)) × (o ≡ some out)

  replay_by-Returns :
      (shown : Text → Bool) (k : Bracket) (inner : List (Call F))
      (after rest : Option (List (Call F)))
      → Returns after
      → Returns rest
      → Returns (replay_by shown k inner after rest)
  replay_by-Returns shown (opens name) inner after rest (out, e) r = rw (e) (_, refl)
  replay_by-Returns shown closes inner after rest a r = r
  replay_by-Returns shown neither inner after rest a r = r

  replay_from-Returns :
      (rounds : ℕ) (shown : Text → Bool) (cs : List (ImguiCommand F))
      → length cs ≤ rounds
      → Returns (replay_from rounds shown cs)
  unfolding replay_from
  replay_from-Returns zero shown [] h = ([], refl)
  replay_from-Returns (suc rounds) shown [] h = ([], refl)
  replay_from-Returns zero shown (c ∷ cs) h = absurd (omega arith)
  replay_from-Returns (suc rounds) shown (c ∷ cs) h =
      let end = find_end 1 cs in
      replay_by-Returns shown (bracket c) (replay_inner (take end cs))
        (replay_from rounds shown (drop (suc end) cs)) (replay_from rounds shown cs)
        (replay_from-Returns rounds shown (drop (suc end) cs)
          (omega (arith, length-drop (suc end) cs)))
        (replay_from-Returns rounds shown cs (omega arith))

  -- Whatever is recorded, also with windows that are never closed, replaying it ends.
  pub replay_nested-Returns :
      (shown : Text → Bool) (cs : List (ImguiCommand F)) → Returns (replay_nested shown cs)
  unfolding replay_nested
  replay_nested-Returns shown cs = replay_from-Returns (length cs) shown cs (omega arith)

-- ===== src/Llm/Agent/Tools.antt =====
-- crates/llm-agent/src/agent.rs: the results of the tools that a reply asks for.
use pixi_ai.Common.{◌≡◌, refl, ap₂, Option, none, some, List, [], ◌∷◌, map, inl, inr, ◌⊎◌, Text}
use pixi_ai.Llm.Types.{ContentBlock, text, tool_use, tool_result, audio}
use pixi_ai.Llm.Agent.{Tool, get, call_tool, result_block, run_tool_calls}

-- The calls that a reply asks for, in order.
abbrev pub requested : {V : Type 0} → List (ContentBlock V) → List Text
requested [] = []
requested (tool_use id name input ∷ blocks) = id ∷ requested blocks
requested (text t ∷ blocks) = requested blocks
requested (tool_result id content bad ∷ blocks) = requested blocks
requested (audio bytes format ∷ blocks) = requested blocks

-- The call that a block answers, if it answers one.
abbrev pub answers : {V : Type 0} → ContentBlock V → Option Text
answers (tool_result id content bad) = some id
answers (text t) = none
answers (tool_use id name input) = none
answers (audio bytes format) = none

result_block-answers :
    (V : Type 0) (id : Text) (r : Text ⊎ Text) → answers {V = V} (result_block id r) ≡ some id
result_block-answers V id (inl e) = refl
result_block-answers V id (inr o) = refl

module _ {V W : Type 0} where
  call_tool-answers :
      (t : Option (Tool V W)) (id name : Text) (input : V) (w : W)
      → answers (call_tool t id name input w).0 ≡ some id
  unfolding call_tool
  call_tool-answers none id name input w = refl
  call_tool-answers (some t) id name input w = result_block-answers V id (t.call input w).0

  -- Each block that is gathered is a result, and they answer the calls that the reply asks for, each
  -- once and in order, whether a tool is known or not and whether it fails or not.
  pub run_tool_calls_lem :
      (tools : List (Tool V W)) (blocks : List (ContentBlock V)) (w : W)
      → map answers (run_tool_calls tools blocks w).0 ≡ map some (requested blocks)
  unfolding run_tool_calls
  run_tool_calls_lem tools [] w = refl
  run_tool_calls_lem tools (tool_use id name input ∷ blocks) w =
      ap₂ ◌∷◌ (call_tool-answers (get name tools) id name input w)
        (run_tool_calls_lem tools blocks (call_tool (get name tools) id name input w).1)
  run_tool_calls_lem tools (text t ∷ blocks) w = run_tool_calls_lem tools blocks w
  run_tool_calls_lem tools (tool_result id content bad ∷ blocks) w =
      run_tool_calls_lem tools blocks w
  run_tool_calls_lem tools (audio bytes format ∷ blocks) w = run_tool_calls_lem tools blocks w

-- ===== src/Llm/Agent.antt =====
-- crates/llm-agent/src/agent.rs, memory.rs and tools.rs: the loop that asks the model and runs tools.
-- The model and the tools are not this repository's: they act on a world of any type `W`.
pub mod History
pub mod Answer
pub mod Tools
pub mod Calls
use mathlib.Core.Option
use pixi_ai.Common.{
  ℕ, zero, suc, ◌+◌, Bool, true, false, Option, none, some, List, [], ◌∷◌, ◌++◌, map, inl, inr, ◌⊎◌,
  if◌then◌else◌, length, find, Text, codes, text_eq,
}
use pixi_ai.Llm.Types.{
  ContentBlock, text, tool_use, tool_result, audio, Message, user, assistant, StopReason, end_turn,
  use_tool, max_tokens, ToolDefinition, TurnRequest, TurnResponse, AgentOutcome, AgentError,
  provider, not_converged, answer, user_text,
}

-- `LlmProvider::turn`.
pub record LlmProvider (V F W : Type 0) : Type 0 where
  pub turn : TurnRequest V → W → (F ⊎ TurnResponse V) × W

-- `Tool::call` gives an error's text or an output.
pub record Tool (V W : Type 0) : Type 0 where
  pub definition : ToolDefinition V
  pub call : V → W → (Text ⊎ Text) × W

pub record AgentConfig : Type 0 where
  pub system : Option Text
  pub max_iterations : ℕ
  pub reply_tokens : ℕ

-- `tools` is the registry, `memory` the conversation.
pub record LlmAgent (V F W : Type 0) : Type 0 where
  pub config : AgentConfig
  pub model : LlmProvider V F W
  pub tools : List (Tool V W)
  pub memory : List (Message V)

abbrev pub is_empty : Text → Bool
is_empty [] = true
is_empty (c ∷ s) = false

-- A newline stands between the texts that are not empty.
abbrev pub add_text : Text → Text → Text
add_text out t = if is_empty t then out else if is_empty out then t else out ++ (b'\n' ∷ t)

unfoldable pub extract_from : {V : Type 0} → List (ContentBlock V) → Text → Text
extract_from [] out = out
extract_from (text t ∷ blocks) out = extract_from blocks (add_text out t)
extract_from (tool_use id name input ∷ blocks) out = extract_from blocks out
extract_from (tool_result id content bad ∷ blocks) out = extract_from blocks out
extract_from (audio bytes format ∷ blocks) out = extract_from blocks out

unfoldable pub extract_text : {V : Type 0} → List (ContentBlock V) → Text
unfolding extract_from
extract_text blocks = extract_from blocks []

module _ {V : Type 0} where
  abbrev pub result_block : Text → Text ⊎ Text → ContentBlock V
  result_block id (inl e) = tool_result id e true
  result_block id (inr output) = tool_result id output false

  abbrev pub says : List (ContentBlock V) → Message V
  says blocks = record { role = assistant; content = blocks }

  abbrev pub gives : List (ContentBlock V) → Message V
  gives blocks = record { role = user; content = blocks }

module _ {V W : Type 0} where
  abbrev pub definitions : List (Tool V W) → List (ToolDefinition V)
  definitions tools = map (λ t. t.definition) tools

  -- `ToolRegistry::get`: the first tool of that name.
  unfoldable pub get : Text → List (Tool V W) → Option (Tool V W)
  get name [] = none
  get name (t ∷ tools) = if text_eq t.definition.name name then some t else get name tools

  unfoldable pub call_tool : Option (Tool V W) → (id name : Text) → V → W → ContentBlock V × W
  call_tool none id name input w = (tool_result id (codes "unknown tool: " ++ name) true, w)
  call_tool (some t) id name input w = let (r, w) = t.call input w in (result_block id r, w)

  unfoldable pub run_tool_calls :
      List (Tool V W) → List (ContentBlock V) → W → List (ContentBlock V) × W
  unfolding call_tool get
  run_tool_calls tools [] w = ([], w)
  run_tool_calls tools (tool_use id name input ∷ blocks) w =
      let (r, w) = call_tool (get name tools) id name input w in
      let (rs, w) = run_tool_calls tools blocks w in (r ∷ rs, w)
  run_tool_calls tools (text t ∷ blocks) w = run_tool_calls tools blocks w
  run_tool_calls tools (tool_result id content bad ∷ blocks) w = run_tool_calls tools blocks w
  run_tool_calls tools (audio bytes format ∷ blocks) w = run_tool_calls tools blocks w

module _ {V F W : Type 0} where
  abbrev pub new : AgentConfig → LlmProvider V F W → List (Tool V W) → LlmAgent V F W
  new config model tools = record { config = config; model = model; tools = tools; memory = [] }

  abbrev pub push : Message V → LlmAgent V F W → LlmAgent V F W
  push m a = record a { memory = a.memory ++ (m ∷ []) }

  abbrev pub request : LlmAgent V F W → TurnRequest V
  request a = record {
    messages = a.memory;
    system = a.config.system;
    tools = definitions a.tools;
    max_tokens = a.config.reply_tokens;
  }

  -- The rounds left, and the rounds gone.
  unfoldable pub rounds :
      ℕ → ℕ → LlmAgent V F W → W → (AgentError F ⊎ AgentOutcome) × LlmAgent V F W × W
  unfolding extract_text run_tool_calls
  rounds zero n a w = (inl (not_converged a.config.max_iterations), a, w)
  rounds (suc left) n a w =
      let (reply, w) = a.model.turn (request a) w in
      elim reply [
        | inl e ↦ (inl (provider e), a, w)
        | inr r ↦
            let a = push (says r.blocks) a in
            elim r.stop_reason [
              | end_turn ↦ (inr (answer (extract_text r.blocks) (suc n)), a, w)
              | max_tokens ↦ (inr (answer (extract_text r.blocks) (suc n)), a, w)
              | use_tool ↦
                  let (results, w) = run_tool_calls a.tools r.blocks w in
                  rounds left (suc n) (push (gives results) a) w
            ]
      ]

  unfoldable pub respond :
      Text → LlmAgent V F W → W → (AgentError F ⊎ AgentOutcome) × LlmAgent V F W × W
  unfolding rounds
  respond t a w = rounds a.config.max_iterations 0 (push (user_text t) a) w

  unfoldable pub reset : LlmAgent V F W → LlmAgent V F W
  reset a = record a { memory = [] }

  unfoldable pub history_len : LlmAgent V F W → ℕ
  history_len a = length a.memory

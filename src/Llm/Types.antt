-- ===== src/Llm/Types.antt =====
-- crates/llm/src/types.rs, crates/llm-agent/src/{types,error,config}.rs. `V` is `serde_json::Value`, and
-- `F` what a provider reports where a call fails.
use pixi_ai.Common.{ℕ, Bool, Option, none, some, List, [], ◌∷◌, Text}

pub data Role : Type 0 where
  user assistant : Role

pub data ContentBlock (V : Type 0) : Type 0 where
  text : Text → ContentBlock V
  tool_use : (id name : Text) → V → ContentBlock V
  tool_result : (tool_use_id content : Text) (is_error : Bool) → ContentBlock V
  audio : List ℕ → Text → ContentBlock V

pub record Message (V : Type 0) : Type 0 where
  pub role : Role
  pub content : List (ContentBlock V)

pub data StopReason : Type 0 where
  end_turn use_tool max_tokens : StopReason

pub record ToolDefinition (V : Type 0) : Type 0 where
  pub name : Text
  pub description : Text
  pub input_schema : V

pub record TurnRequest (V : Type 0) : Type 0 where
  pub messages : List (Message V)
  pub system : Option Text
  pub tools : List (ToolDefinition V)
  pub max_tokens : ℕ

pub record TurnResponse (V : Type 0) : Type 0 where
  pub blocks : List (ContentBlock V)
  pub stop_reason : StopReason

pub record AgentOutcome : Type 0 where
  pub answer_text : Text
  pub iterations : ℕ
  pub error : Option Text

pub data AgentError (F : Type 0) : Type 0 where
  provider : F → AgentError F
  tool : Text → AgentError F
  not_converged : ℕ → AgentError F

abbrev pub answer : Text → ℕ → AgentOutcome
answer t n = record { answer_text = t; iterations = n; error = none }

abbrev pub failure : Text → AgentOutcome
failure e = record { answer_text = []; iterations = 0; error = some e }

abbrev pub user_text : {V : Type 0} → Text → Message V
user_text t = record { role = user; content = text t ∷ [] }

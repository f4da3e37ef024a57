-- ===== src/Llm/Tests.antt =====
-- The theorems about crates/llm and crates/llm-agent at concrete inputs.
use pixi_ai.Common.{
  ◌++◌, ℕ, zero, suc, ◌+◌, ◌≡◌, All, ◌⊎◌, inl, inr, refl, false, none, some, List, [], ◌∷◌, Text,
  arith, codes,
}
use pixi_ai.Llm.Types.{
  user, assistant, tool_result, ContentBlock, text, tool_use, end_turn, use_tool, TurnRequest,
  TurnResponse, provider, user_text,
}
use pixi_ai.Llm.Agent.{Tool, LlmAgent, respond}
use pixi_ai.Llm.Agent.History.{Ended, respond-Ended}
use pixi_ai.Llm.Bridge.Queue.{bridge}
use pixi_ai.Llm.Bridge.Queue.Fifo
use pixi_ai.Llm.Bridge.Queue.Fifo.{Act, polled, Fifo, run-Fifo}
use pixi_ai.Llm.Config.{LlmError, unsupported}
use pixi_ai.Llm.Anthropic.{
  AnthropicProvider, Http, WireResponse, OwnedContentBlock, other, into_turn_response, body_of,
  has_audio,
}
use pixi_ai.Llm.Anthropic.Replay.{
  resent, reply_message, into_turn_response-replayed, IsAccepted, IsNotBlank, body_of-IsAccepted,
}
use pixi_ai.Llm.Anthropic.Sending.{anthropic_model, respond-Heard}
use pixi_ai.Speech.Segmenter.{SpeechEvent, voice_end}
use mathlib.Core.List.{filter_map}

-- Asks for the clock in its first turn and answers in the second; the world counts the turns.
abbrev turn : TurnRequest ℕ → ℕ → (ℕ ⊎ TurnResponse ℕ) × ℕ
turn request zero = (
  inr (record { blocks = tool_use (codes "a") (codes "clock") 0 ∷ []; stop_reason = use_tool }),
  1,
)
turn request (suc n) =
    (inr (record { blocks = text (codes "noon") ∷ []; stop_reason = end_turn }), suc (suc n))

abbrev clock : Tool ℕ ℕ
clock = record {
  definition = record { name = codes "clock"; description = []; input_schema = 0 };
  call = λ input w. (inr (codes "12:00"), w);
}

abbrev agent : LlmAgent ℕ ℕ ℕ
agent = record {
  config = record { system = none; max_iterations = 8; reply_tokens = 4096 };
  model = record { turn = turn };
  tools = clock ∷ [];
  memory = [];
}

abbrev reply : List (ContentBlock ℕ)
reply = text (codes "one moment") ∷ tool_use (codes "a") (codes "clock") 0 ∷ text (codes "and") ∷ []

respond-Ended_example :
    Ended 8 0 agent
      (record { role = user; content = text (codes "what time is it?") ∷ [] } ∷ [])
      0
      (respond (codes "what time is it?") agent 0)
respond-Ended_example = respond-Ended (codes "what time is it?") agent 0

abbrev spoken_event : Text → SpeechEvent ℕ ℕ
spoken_event t = voice_end 0 [] 500 (some t) none none

abbrev acts : List (Act ℕ ℕ)
acts = Act.heard (spoken_event (codes "hello")) ∷ polled ∷ Act.heard (spoken_event (codes " ")) ∷ []

run-Fifo_example : Fifo [] (Fifo.run acts (bridge agent) 0)
run-Fifo_example = run-Fifo acts (bridge agent) 0 (omega arith)

abbrev wire_reply : WireResponse ℕ
wire_reply = record {
  content =
      OwnedContentBlock.text []
      ∷ other
      ∷ OwnedContentBlock.tool_use (codes "a") (codes "clock") 0
      ∷ [];
  stop_reason = some (codes "tool_use");
}

abbrev provider_config : AnthropicProvider
provider_config = record {
  api_key = codes "k";
  base_url = codes "http://localhost/";
  model = codes "m";
  default_max_tokens = 4096;
}

-- The reply stands between what the user said and the tool's result.
abbrev second_request : TurnRequest ℕ
second_request = record {
  messages =
      user_text (codes "what time is it?")
      ∷ record { role = assistant; content = (into_turn_response wire_reply).blocks }
      ∷ record { role = user; content = tool_result (codes "a") (codes "12:00") false ∷ [] }
      ∷ [];
  system = none;
  tools = [];
  max_tokens = 100;
}

into_turn_response-replayed_example :
    (body_of provider_config second_request).messages
    ≡ (body_of provider_config
        (record second_request { messages = user_text (codes "what time is it?") ∷ [] })).messages
      ++ (reply_message (filter_map resent wire_reply.content)
          ++ (body_of provider_config (record second_request {
            messages =
                record { role = user; content = tool_result (codes "a") (codes "12:00") false ∷ [] }
                ∷ [];
          })).messages)
into_turn_response-replayed_example =
    into_turn_response-replayed provider_config second_request
      (user_text (codes "what time is it?") ∷ [])
      (record { role = user; content = tool_result (codes "a") (codes "12:00") false ∷ [] } ∷ [])
      wire_reply refl

abbrev blank_request : TurnRequest ℕ
blank_request = record {
  messages = user_text [] ∷ user_text (codes "hi") ∷ [];
  system = some [];
  tools = [];
  max_tokens = 0;
}

body_of-IsAccepted_example :
    All IsAccepted (body_of provider_config blank_request).messages
    × IsNotBlank (body_of provider_config blank_request).system
body_of-IsAccepted_example = body_of-IsAccepted provider_config blank_request

-- A server that always answers with the same reply.
abbrev http : Http ℕ ℕ
http = record {
  post = λ url key body w.
      (inr (record { status = 200; status_text = codes "200 OK"; body = inr [] }), w + 1);
  from_str = λ t. inr wire_reply;
}

abbrev talker : LlmAgent ℕ LlmError ℕ
talker = record {
  config = record { system = none; max_iterations = 2; reply_tokens = 0 };
  model = anthropic_model http provider_config;
  tools = [];
  memory = [];
}

respond-Heard_example :
    ((u : Text) → ¬ ((respond (codes "hi") talker 0).0 ≡ inl (provider (unsupported u))))
    × (has_audio (respond (codes "hi") talker 0).1.memory ≡ false)
unfolding has_audio
respond-Heard_example = respond-Heard http provider_config (codes "hi") talker 0 refl refl

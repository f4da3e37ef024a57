-- ===== src/Llm/Anthropic.antt =====
-- crates/llm/src/providers/anthropic.rs: a turn of the conversation as a request to the Messages API.
-- reqwest and serde_json are arguments: `post` sends a request to a URL with a key, `from_str` reads
-- the text of a reply. `V` is `serde_json::Value`.
pub mod Replay
pub mod Sending
use pixi_ai.Common.{
  ℕ, Bool, true, false, not, ◌&&◌, ◌||◌, Option, none, some, List, [], ◌∷◌, ◌++◌, ◌⊎◌, inl, inr,
  map, filter_map, if◌then◌else◌, ltb, leb, keep_if, Text, codes, text_eq, ◌==◌,
}
use pixi_ai.Llm.Types.{
  Role, user, assistant, ContentBlock, audio, Message, StopReason, end_turn, use_tool, max_tokens,
  ToolDefinition, TurnRequest, TurnResponse,
}
use pixi_ai.Llm.Config
use pixi_ai.Llm.Config.{
  LlmError, transport, api, serde, config, unsupported, ProviderConfig, resolved_api_key, is_empty,
}

abbrev pub default_base_url : Text
default_base_url = codes "https://api.anthropic.com"

pub record AnthropicProvider : Type 0 where
  pub api_key : Text
  pub base_url : Text
  pub model : Text
  pub default_max_tokens : ℕ

abbrev pub url_or_default : Option Text → Text
url_or_default none = default_base_url
url_or_default (some url) = url

abbrev pub with_key : ProviderConfig → Option Text → LlmError ⊎ AnthropicProvider
with_key c none = inl (
    config
      (codes "Anthropic requires an API key (set ANTHROPIC_API_KEY or ProviderConfig::api_key)"))
with_key c (some key) = inr (record {
  api_key = key;
  base_url = url_or_default c.base_url;
  model = c.model;
  default_max_tokens = c.max_tokens;
})

unfoldable pub new : (Text → Option Text) → ProviderConfig → LlmError ⊎ AnthropicProvider
unfolding resolved_api_key
new var c = with_key c (resolved_api_key var c)

pub data WireContentBlock (V : Type 0) : Type 0 where
  text : Text → WireContentBlock V
  tool_use : (id name : Text) → V → WireContentBlock V
  tool_result : (tool_use_id content : Text) (is_error : Bool) → WireContentBlock V

pub record WireMessage (V : Type 0) : Type 0 where
  pub role : Text
  pub content : List (WireContentBlock V)

pub record WireTool (V : Type 0) : Type 0 where
  pub name : Text
  pub description : Text
  pub input_schema : V

pub record WireRequest (V : Type 0) : Type 0 where
  pub model : Text
  pub max_tokens : ℕ
  pub system : Option Text
  pub messages : List (WireMessage V)
  pub tools : List (WireTool V)

-- The blocks of a reply; `other` is one of a kind that is not known.
pub data OwnedContentBlock (V : Type 0) : Type 0 where
  text : Text → OwnedContentBlock V
  tool_use : (id name : Text) → V → OwnedContentBlock V
  other : OwnedContentBlock V

pub record WireResponse (V : Type 0) : Type 0 where
  pub content : List (OwnedContentBlock V)
  pub stop_reason : Option Text

abbrev pub role_name : Role → Text
role_name user = codes "user"
role_name assistant = codes "assistant"

abbrev pub filled_in : Option Text → Option Text
filled_in none = none
filled_in (some t) = if is_empty t then none else some t

abbrev pub stop_of : Option Text → StopReason
stop_of none = end_turn
stop_of (some s) =
    if text_eq s (codes "tool_use")
    then use_tool
    else if text_eq s (codes "max_tokens")
    then StopReason.max_tokens
    else end_turn

module _ {V : Type 0} where
  abbrev pub try_from_block : ContentBlock V → Option (WireContentBlock V)
  try_from_block (ContentBlock.text t) = if is_empty t then none else some (WireContentBlock.text t)
  try_from_block (ContentBlock.tool_use id name input) =
      some (WireContentBlock.tool_use id name input)
  try_from_block (ContentBlock.tool_result id content bad) =
      some (WireContentBlock.tool_result id content bad)
  try_from_block (audio bytes format) = none

  abbrev pub wire_message : Message V → WireMessage V
  wire_message m = record { role = role_name m.role; content = filter_map try_from_block m.content }

  abbrev pub wire_tool : ToolDefinition V → WireTool V
  wire_tool t = record { name = t.name; description = t.description; input_schema = t.input_schema }

  abbrev pub has_content : List (WireContentBlock V) → Bool
  has_content [] = false
  has_content (b ∷ bs) = true

  abbrev pub is_audio : ContentBlock V → Bool
  is_audio (ContentBlock.text t) = false
  is_audio (ContentBlock.tool_use id name input) = false
  is_audio (ContentBlock.tool_result id content bad) = false
  is_audio (audio bytes format) = true

  -- `Iterator::any`, over the blocks and over the messages.
  unfoldable pub any_audio : List (ContentBlock V) → Bool
  any_audio [] = false
  any_audio (b ∷ bs) = is_audio b || any_audio bs

  unfoldable pub has_audio : List (Message V) → Bool
  has_audio [] = false
  has_audio (m ∷ ms) = any_audio m.content || has_audio ms

  unfoldable pub body_of : AnthropicProvider → TurnRequest V → WireRequest V
  body_of p r = record {
    model = p.model;
    max_tokens = if ltb 0 r.max_tokens then r.max_tokens else p.default_max_tokens;
    system = filled_in r.system;
    messages = keep_if (λ m. has_content m.content) (map wire_message r.messages);
    tools = map wire_tool r.tools;
  }

  abbrev pub into_content_block : OwnedContentBlock V → Option (ContentBlock V)
  into_content_block (OwnedContentBlock.text t) =
      if is_empty t then none else some (ContentBlock.text t)
  into_content_block (OwnedContentBlock.tool_use id name input) =
      some (ContentBlock.tool_use id name input)
  into_content_block other = none

  unfoldable pub into_turn_response : WireResponse V → TurnResponse V
  into_turn_response w = record {
    blocks = filter_map into_content_block w.content;
    stop_reason = stop_of w.stop_reason;
  }

-- `trim_end_matches('/')`.
abbrev pub onto_url : ℕ → Text → Text
onto_url c [] = if c == b'/' then [] else c ∷ []
onto_url c (d ∷ t) = c ∷ d ∷ t

unfoldable pub trim_slashes : Text → Text
trim_slashes [] = []
trim_slashes (c ∷ t) = onto_url c (trim_slashes t)

-- What a request gives: a status, in figures and as it is printed, and the text behind it.
pub record HttpResponse : Type 0 where
  pub status : ℕ
  pub status_text : Text
  pub body : Text ⊎ Text

pub record Http (V W : Type 0) : Type 0 where
  pub post : (url key : Text) → WireRequest V → W → (Text ⊎ HttpResponse) × W
  pub from_str : Text → Text ⊎ WireResponse V

abbrev pub is_success : ℕ → Bool
is_success status = leb 200 status && ltb status 300

module _ {V W : Type 0} (http : Http V W) where
  abbrev pub parsed : Text ⊎ WireResponse V → LlmError ⊎ TurnResponse V
  parsed (inl e) = inl (serde e)
  parsed (inr w) = inr (into_turn_response w)

  abbrev pub judged : HttpResponse → Text ⊎ Text → LlmError ⊎ TurnResponse V
  judged r (inl e) = inl (transport e)
  judged r (inr t) =
      if is_success r.status
      then parsed (http.from_str t)
      else inl (api (codes "HTTP " ++ (r.status_text ++ (codes ": " ++ t))))

  abbrev pub answered : Text ⊎ HttpResponse → LlmError ⊎ TurnResponse V
  answered (inl e) = inl (transport e)
  answered (inr r) = judged r r.body

  abbrev pub endpoint : AnthropicProvider → Text
  endpoint p = trim_slashes p.base_url ++ codes "/v1/messages"

  unfoldable pub turn : AnthropicProvider → TurnRequest V → W → (LlmError ⊎ TurnResponse V) × W
  unfolding has_audio any_audio body_of into_turn_response trim_slashes
  turn p r w =
      if has_audio r.messages
      then (
        inl (
            unsupported
              (codes "Anthropic provider does not accept audio input (use whisper/STT first)")),
        w,
      )
      else (let (reply, w) = http.post (endpoint p) p.api_key (body_of p r) w in
          (answered reply, w))

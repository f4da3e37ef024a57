-- ===== src/Llm/Config.antt =====
-- crates/llm/src/config.rs and error.rs: what a provider is built from. `var` is the environment.
use pixi_ai.Common.{ℕ, Bool, true, false, Option, none, some, [], ◌∷◌, if◌then◌else◌, Text, codes}
use pixi_ai.Common.Options.{◌>>=◌}

pub data LlmError : Type 0 where
  transport api serde config unsupported : Text → LlmError

pub data ProviderKind : Type 0 where
  anthropic gemini ollama : ProviderKind

pub record ProviderConfig : Type 0 where
  pub kind : ProviderKind
  pub model : Text
  pub api_key : Option Text
  pub base_url : Option Text
  pub max_tokens : ℕ

abbrev pub default_max_tokens : ℕ
default_max_tokens = 4096

abbrev pub api_key_env_var : ProviderKind → Option Text
api_key_env_var anthropic = some (codes "ANTHROPIC_API_KEY")
api_key_env_var gemini = some (codes "GEMINI_API_KEY")
api_key_env_var ollama = none

abbrev pub is_empty : Text → Bool
is_empty [] = true
is_empty (c ∷ t) = false

abbrev pub not_empty : Text → Option Text
not_empty t = if is_empty t then none else some t

abbrev pub or_environment : (Text → Option Text) → ProviderKind → Option Text → Option Text
or_environment var kind (some key) = some key
or_environment var kind none = do name ← api_key_env_var kind; value ← var name; not_empty value

unfoldable pub resolved_api_key : (Text → Option Text) → ProviderConfig → Option Text
resolved_api_key var c = or_environment var c.kind c.api_key

abbrev pub is_some : Option Text → Bool
is_some none = false
is_some (some x) = true

unfoldable pub requires_api_key : ProviderConfig → Bool
requires_api_key c = is_some (api_key_env_var c.kind)

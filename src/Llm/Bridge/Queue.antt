-- ===== src/Llm/Bridge/Queue.antt =====
-- crates/llm-agent/src/speech.rs: the bounded channel of transcripts, with the callback that fills it
-- and the driver that polls it. tokio's channel is a queue that holds `capacity` transcripts, `open`
-- while its receiver is there.
pub mod Fifo
use pixi_ai.Common.{
  ℕ, Bool, true, false, not, Option, none, some, List, [], ◌∷◌, ◌++◌, ◌⊎◌, inl, inr, if◌then◌else◌,
  ltb, length, Text,
}
use pixi_ai.Speech.Segmenter.{SpeechEvent, voice_start, transcript_interim, voice_end, vad_status}
use pixi_ai.Llm.Types.{AgentOutcome, AgentError}
use pixi_ai.Llm.Agent.{LlmAgent, respond}
use pixi_ai.Llm.Bridge.{is_blank}

abbrev pub default_channel_capacity : ℕ
default_channel_capacity = 32

pub record Channel : Type 0 where
  pub queue : List Text
  pub is_open : Bool

-- What becomes of an event: no transcript to send, or sent, or dropped for one of two reasons.
pub data Sent : Type 0 where
  ignored : Sent
  queued full closed : Text → Sent

unfoldable pub try_send : Text → Channel → Channel × Sent
try_send t c =
    if not c.is_open
    then (c, closed t)
    else if ltb (length c.queue) default_channel_capacity
    then (record c { queue = c.queue ++ (t ∷ []) }, queued t)
    else (c, full t)

abbrev pub forward : Option Text → Channel → Channel × Sent
forward none c = (c, ignored)
forward (some t) c = if is_blank t then (c, ignored) else try_send t c

unfoldable pub speech_callback : {S P : Type 0} → SpeechEvent S P → Channel → Channel × Sent
unfolding try_send
speech_callback (voice_start at) c = (c, ignored)
speech_callback (transcript_interim at t) c = (c, ignored)
speech_callback (voice_end at audio duration transcript turn p) c = forward transcript c
speech_callback (vad_status at p speaking) c = (c, ignored)

-- The runner, which owns the agent and the channel's receiver.
pub record SpeechRunner (V F W : Type 0) : Type 0 where
  pub agent : LlmAgent V F W
  pub channel : Channel

module _ {V F W : Type 0} where
  abbrev pub bridge : LlmAgent V F W → SpeechRunner V F W
  bridge a = record { agent = a; channel = record { queue = []; is_open = true } }

  abbrev pub outcome :
      (AgentError F ⊎ AgentOutcome) × LlmAgent V F W × W
      → Channel
      → (AgentError F ⊎ Option AgentOutcome) × SpeechRunner V F W × W
  outcome (inl e, a, w) c = (inl e, record { agent = a; channel = c }, w)
  outcome (inr o, a, w) c = (inr (some o), record { agent = a; channel = c }, w)

  abbrev pub step_on :
      List Text
      → SpeechRunner V F W
      → W
      → (AgentError F ⊎ Option AgentOutcome) × SpeechRunner V F W × W
  step_on [] r w = (inr none, r, w)
  step_on (t ∷ ts) r w =
      let c = record r.channel { queue = ts } in
      if is_blank t
      then (inr none, record r { channel = c }, w)
      else outcome (respond t r.agent w) c

  -- An empty queue gives nothing, whether senders are left or not.
  unfoldable pub step :
      SpeechRunner V F W → W → (AgentError F ⊎ Option AgentOutcome) × SpeechRunner V F W × W
  step r w = step_on r.channel.queue r w

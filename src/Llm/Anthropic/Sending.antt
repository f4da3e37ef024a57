-- ===== src/Llm/Anthropic/Sending.antt =====
-- crates/llm-agent/src/agent.rs over crates/llm/src/providers/anthropic.rs: the agent's conversation
-- can always be sent.
use pixi_ai.Common.{
  ℕ, zero, suc, ◌≡◌, refl, sym, subst, false, some, List, [], ◌∷◌, ◌++◌, map, ◌⊎◌, inl, inr,
  if-both, if-split, Text, arith,
}
use pixi_ai.Llm.Types.{
  ContentBlock, text, tool_use, tool_result, audio, Message, TurnRequest, TurnResponse,
  AgentOutcome, AgentError, provider, user_text,
}
use pixi_ai.Llm.Config.{LlmError, unsupported}
use pixi_ai.Llm.Anthropic
use pixi_ai.Llm.Anthropic.{
  Http, HttpResponse, WireResponse, AnthropicProvider, any_audio, has_audio, parsed, judged,
  answered, into_turn_response, is_success, endpoint, body_of,
}
use pixi_ai.Llm.Anthropic.Replay.{any_audio-reply}
use pixi_ai.Llm.Agent.{
  LlmProvider, LlmAgent, says, gives, push, request, run_tool_calls, rounds, respond,
}
use pixi_ai.Llm.Agent.Tools.{requested, answers, run_tool_calls_lem}
use pixi_ai.Llm.Agent.Calls.{Sum-cases}
use pixi_ai.Llm.Agent.History.{StopReason-cases, rounds-failed, rounds-done, rounds-more}

module _ {V : Type 0} where
  has_audio-append :
      (ms : List (Message V)) (m : Message V)
      → has_audio ms ≡ false
      → any_audio m.content ≡ false
      → has_audio (ms ++ (m ∷ [])) ≡ false
  unfolding has_audio
  has_audio-append [] m h k = rw k refl
  has_audio-append (n ∷ ms) m h k = ground (arith, has_audio-append ms m)

  -- Results of tools are no audio.
  any_audio-answers :
      (bs : List (ContentBlock V)) (ids : List Text)
      → map answers bs ≡ map some ids
      → any_audio bs ≡ false
  unfolding any_audio
  any_audio-answers [] ids e = refl
  any_audio-answers (b ∷ bs) [] e = absurd (ground arith)
  any_audio-answers (text t ∷ bs) (i ∷ ids) e = absurd (ground arith)
  any_audio-answers (tool_use id name input ∷ bs) (i ∷ ids) e = absurd (ground arith)
  any_audio-answers (tool_result id content bad ∷ bs) (i ∷ ids) e =
      any_audio-answers bs ids (ground arith)
  any_audio-answers (audio bytes format ∷ bs) (i ∷ ids) e = absurd (ground arith)

module _ {V W : Type 0} (http : Http V W) where
  -- A result of a turn that took the request and, if it is a reply, has no audio.
  abbrev Taken : LlmError ⊎ TurnResponse V → Type 0
  Taken (inl e) = (t : Text) → ¬ (e ≡ unsupported t)
  Taken (inr r) = any_audio r.blocks ≡ false

  parsed-Taken : (r : Text ⊎ WireResponse V) → Taken (parsed http r)
  unfolding into_turn_response
  parsed-Taken (inl e) = λ t h. cc
  parsed-Taken (inr w) = any_audio-reply w.content

  judged-Taken : (r : HttpResponse) (b : Text ⊎ Text) → Taken (judged http r b)
  judged-Taken r (inl e) = λ t h. cc
  judged-Taken r (inr s) =
      if-both Taken (is_success r.status) (parsed-Taken (http.from_str s)) (λ t h. cc)

  answered-Taken : (r : Text ⊎ HttpResponse) → Taken (answered http r)
  answered-Taken (inl e) = λ t h. cc
  answered-Taken (inr r) = judged-Taken r r.body

  turn-Taken :
      (p : AnthropicProvider) (r : TurnRequest V) (w : W)
      → has_audio r.messages ≡ false
      → Taken (Anthropic.turn http p r w).0
  unfolding Anthropic.turn
  turn-Taken p r w h =
      if-split (λ (x : (LlmError ⊎ TurnResponse V) × W). Taken x.0) (has_audio r.messages) (λ e. cc)
        (λ _. answered-Taken (http.post (endpoint http p) p.api_key (body_of p r) w).0)

  -- The provider, as the agent's model.
  abbrev pub anthropic_model : AnthropicProvider → LlmProvider V LlmError W
  anthropic_model p = record { turn = Anthropic.turn http p }

  -- An utterance that leaves no audio behind and was not refused as unsupported.
  abbrev pub Heard : (AgentError LlmError ⊎ AgentOutcome) × LlmAgent V LlmError W × W → Type 0
  Heard x = ((t : Text) → ¬ (x.0 ≡ inl (provider (unsupported t)))) × (has_audio x.1.memory ≡ false)

  rounds-Heard :
      (p : AnthropicProvider) (left gone : ℕ) (a : LlmAgent V LlmError W) (w : W)
      → a.model ≡ anthropic_model p
      → has_audio a.memory ≡ false
      → Heard (rounds left gone a w)
  unfolding rounds
  rounds-Heard p zero gone a w e h = (λ t h. cc, h)
  rounds-Heard p (suc left) gone a w e h =
      let w' = (a.model.turn (request a) w).1 in
      let taken : Taken (a.model.turn (request a) w).0 =
        subst (λ (m : LlmProvider V LlmError W). Taken (m.turn (request a) w).0) (sym e)
          (turn-Taken p (request a) w h) in
      elim (Sum-cases (a.model.turn (request a) w).0) [
        | inl (f, k) ↦
            subst Heard (sym (rounds-failed left gone a w k))
              (λ t q. subst Taken k taken t (ground arith), h)
        | inr (r, k) ↦
            let mute = has_audio-append a.memory (says r.blocks) h (subst Taken k taken) in
            elim (StopReason-cases r.stop_reason) [
              | inl s ↦ subst Heard (sym (rounds-done left gone a w k s)) (λ t q. cc, mute)
              | inr s ↦
                  let results = (run_tool_calls a.tools r.blocks w').0 in
                  subst Heard (sym (rounds-more left gone a w k s)) (
                    rounds-Heard p left (suc gone) (push (gives results) (push (says r.blocks) a))
                      (run_tool_calls a.tools r.blocks w').1 e
                      (has_audio-append (a.memory ++ (says r.blocks ∷ [])) (gives results) mute (
                        any_audio-answers results (requested r.blocks)
                          (run_tool_calls_lem a.tools r.blocks w'))))
            ]
      ]

  -- An agent whose model is this provider and whose conversation has no audio answers an utterance
  -- without being refused for audio, and its conversation then has none, whatever its tools and the
  -- server do.
  pub respond-Heard :
      (p : AnthropicProvider) (t : Text) (a : LlmAgent V LlmError W) (w : W)
      → a.model ≡ anthropic_model p
      → has_audio a.memory ≡ false
      → ((u : Text) → ¬ ((respond t a w).0 ≡ inl (provider (unsupported u))))
        × (has_audio (respond t a w).1.memory ≡ false)
  unfolding respond any_audio
  respond-Heard p t a w e h =
      rounds-Heard p a.config.max_iterations 0 (push (user_text t) a) w e
        (has_audio-append a.memory (user_text t) h refl)

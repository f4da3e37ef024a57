-- ===== src/Llm/Agent/History.antt =====
-- crates/llm-agent/src/agent.rs: what one utterance adds to the conversation, and when it ends.
use pixi_ai.Common.{
  ℕ, zero, suc, ◌+◌, ◌<◌, ◌≡◌, refl, sym, ap, subst, ◌∙◌, List, [], ◌∷◌, ◌++◌, map, none, ap₂, inl,
  inr, ◌⊎◌, arith, Text,
}
use pixi_ai.Llm.Types.{
  ContentBlock, text, Message, user, assistant, TurnRequest, end_turn, use_tool, max_tokens,
  TurnResponse, AgentOutcome, AgentError, provider, not_converged, answer, user_text, StopReason,
}
use pixi_ai.Llm.Agent.{
  LlmAgent, says, gives, push, request, extract_text, run_tool_calls, rounds, respond,
}
use pixi_ai.Common.Split.{join}
use pixi_ai.Llm.Agent.Answer.{spoken, extract_text_lem}
use pixi_ai.Llm.Agent.Calls.{Sum-cases, Called, run_tool_calls-Called}

pub StopReason-cases : (s : StopReason) → ((s ≡ end_turn) ⊎ (s ≡ max_tokens)) ⊎ (s ≡ use_tool)
StopReason-cases end_turn = inl (inl refl)
StopReason-cases max_tokens = inl (inr refl)
StopReason-cases use_tool = inr refl

module _ {V F W : Type 0} where
  -- What is asked with a conversation.
  abbrev pub asked : LlmAgent V F W → List (Message V) → TurnRequest V
  asked a ms = record {
    messages = ms;
    system = a.config.system;
    tools = map (λ t. t.definition) a.tools;
    max_tokens = a.config.reply_tokens;
  }

  -- `n` rounds in which the model asks for tools, from a conversation and a world to another: each adds
  -- the reply and the results of its calls.
  pub data Exchanged (a : LlmAgent V F W)
      : ℕ → List (Message V) → W → List (Message V) → W → Type 0 where
    nothing : {ms : List (Message V)} {w : W} → Exchanged a zero ms w ms w
    exchange :
        {n : ℕ} {ms last : List (Message V)} {w w' v : W} {results : List (ContentBlock V)}
        (r : TurnResponse V)
        → (a.model.turn (asked a ms) w).0 ≡ inr r
        → r.stop_reason ≡ use_tool
        → Called a.tools r.blocks (a.model.turn (asked a ms) w).1 results w'
        → Exchanged a n
            ((ms ++ (record { role = assistant; content = r.blocks } ∷ []))
              ++ (record { role = user; content = results } ∷ []))
            w'
            last
            v
        → Exchanged a (suc n) ms w last v

  -- How `left` rounds of agent `a` end from a conversation and a world, after `gone` rounds.
  abbrev pub Ended :
      ℕ
      → ℕ
      → LlmAgent V F W
      → List (Message V)
      → W
      → (AgentError F ⊎ AgentOutcome) × LlmAgent V F W × W
      → Type 0
  Ended left gone a ms w (result, b, w') =
      (n : ℕ) × (last : List (Message V)) × (v : W) × Exchanged a n ms w last v
      × (((r : TurnResponse V) × (n < left)
            × ((a.model.turn (asked a last) v).0 ≡ inr r)
            × ((r.stop_reason ≡ end_turn) ⊎ (r.stop_reason ≡ max_tokens))
            × (result
                ≡ inr (record {
                  answer_text = join (b'\n' ∷ []) (spoken r.blocks);
                  iterations = suc (gone + n);
                  error = none;
                }))
            × (b ≡ record a {
              memory = last ++ (record { role = assistant; content = r.blocks } ∷ []);
            })
            × (w' ≡ (a.model.turn (asked a last) v).1))
          ⊎ (((e : F) × (n < left)
                × ((a.model.turn (asked a last) v).0 ≡ inl e)
                × (result ≡ inl (provider e))
                × (b ≡ record a { memory = last })
                × (w' ≡ (a.model.turn (asked a last) v).1))
              ⊎ ((n ≡ left)
                  × (result ≡ inl (not_converged a.config.max_iterations))
                  × (b ≡ record a { memory = last })
                  × (w' ≡ v))))

  Ended-more :
      (left gone : ℕ) (a : LlmAgent V F W) (ms : List (Message V)) (w w' : W) (r : TurnResponse V)
      (results : List (ContentBlock V)) (out : (AgentError F ⊎ AgentOutcome) × LlmAgent V F W × W)
      → (a.model.turn (asked a ms) w).0 ≡ inr r
      → r.stop_reason ≡ use_tool
      → Called a.tools r.blocks (a.model.turn (asked a ms) w).1 results w'
      → Ended left (suc gone) a ((ms ++ (says r.blocks ∷ [])) ++ (gives results ∷ [])) w' out
      → Ended (suc left) gone a ms w out
  Ended-more left gone a ms w w' r results (result, b, u) k s c (n, last, v, x, e) = (
    suc n,
    last,
    v,
    exchange r k s c x,
    elim e [
      | inl (q, lt, t, stops, o, m, same) ↦ inl (
        q,
        omega arith,
        t,
        stops,
        o ∙ ap (λ i. inr (answer (join (b'\n' ∷ []) (spoken q.blocks)) i)) (omega arith),
        m,
        same,
      )
      | inr (inl (f, lt, t, o, m, same)) ↦ inr (inl (f, omega arith, t, o, m, same))
      | inr (inr (all, o, m, same)) ↦ inr (inr (omega arith, o, m, same))
    ],
  )

  module _ (left gone : ℕ) (a : LlmAgent V F W) (w : W) where
    pub rounds-failed :
        {e : F}
        → (a.model.turn (request a) w).0 ≡ inl e
        → rounds (suc left) gone a w ≡ (inl (provider e), a, (a.model.turn (request a) w).1)
    unfolding rounds
    rounds-failed k = rw (k, rounds) refl

    pub rounds-done :
        {r : TurnResponse V}
        → (a.model.turn (request a) w).0 ≡ inr r
        → (r.stop_reason ≡ end_turn) ⊎ (r.stop_reason ≡ max_tokens)
        → rounds (suc left) gone a w ≡ (
          inr (answer (extract_text r.blocks) (suc gone)),
          push (says r.blocks) a,
          (a.model.turn (request a) w).1,
        )
    unfolding rounds
    rounds-done k (inl u) = rw (k, u, rounds) refl
    rounds-done k (inr u) = rw (k, u, rounds) refl

    pub rounds-more :
        {r : TurnResponse V}
        → (a.model.turn (request a) w).0 ≡ inr r
        → r.stop_reason ≡ use_tool
        → rounds (suc left) gone a w ≡ (
            let (results, w) = run_tool_calls a.tools r.blocks (a.model.turn (request a) w).1 in
            rounds left (suc gone) (push (gives results) (push (says r.blocks) a)) w)
    unfolding rounds
    rounds-more k u = rw (k, u, rounds) refl

  rounds-Ended :
      (left gone : ℕ) (a : LlmAgent V F W) (ms : List (Message V)) (w : W)
      → Ended left gone a ms w (rounds left gone (record a { memory = ms }) w)
  unfolding rounds
  rounds-Ended zero gone a ms w = (zero, ms, w, nothing, inr (inr (refl, refl, refl, refl)))
  rounds-Ended (suc left) gone a ms w =
      let b : LlmAgent V F W = record a { memory = ms } in
      let w' = (a.model.turn (asked a ms) w).1 in
      elim (Sum-cases (a.model.turn (asked a ms) w).0) [
        | inl (e, k) ↦
            subst (Ended (suc left) gone a ms w) (sym (rounds-failed left gone b w k))
              (zero, ms, w, nothing, inr (inl (e, omega arith, k, refl, refl, refl)))
        | inr (r, k) ↦ elim (StopReason-cases r.stop_reason) [
          | inl u ↦ subst (Ended (suc left) gone a ms w) (sym (rounds-done left gone b w k u)) (
            zero,
            ms,
            w,
            nothing,
            inl (
              r,
              omega arith,
              k,
              u,
              ap₂ (λ t i. inr (answer t i)) (extract_text_lem r.blocks) (omega arith),
              refl,
              refl,
            ),
          )
          | inr u ↦
              let (results, w'') = run_tool_calls a.tools r.blocks w' in
              let more = (ms ++ (says r.blocks ∷ [])) ++ (gives results ∷ []) in
              subst (Ended (suc left) gone a ms w) (sym (rounds-more left gone b w k u)) (
                Ended-more left gone a ms w w'' r results
                  (rounds left (suc gone) (record a { memory = more }) w'') k u
                  (run_tool_calls-Called a.tools r.blocks w')
                  (rounds-Ended left (suc gone) a more w''))
        ]
      ]

  -- An utterance always ends within `max_iterations` rounds. The user's text is added to the conversation,
  -- and then `n` rounds follow in which the model, asked with the whole conversation, asks for tools: each
  -- adds the reply and the results of its calls in order, those of the first tool of each name, or an
  -- error for a name that no tool has. Then the model ends its turn or runs out of tokens, and the
  -- answer is the texts of that last reply, which is added; or its call fails, and that is the error;
  -- or `n` is `max_iterations`, and the loop is reported as not converged. Nothing else of the agent
  -- changes.
  pub respond-Ended :
      (t : Text) (a : LlmAgent V F W) (w : W)
      → Ended a.config.max_iterations 0 a
          (a.memory ++ (record { role = user; content = text t ∷ [] } ∷ []))
          w
          (respond t a w)
  unfolding respond
  respond-Ended t a w = rounds-Ended a.config.max_iterations 0 a (a.memory ++ (user_text t ∷ [])) w

-- ===== src/Llm/Bridge.antt =====
-- crates/llm-agent/src/speech.rs: the runner that feeds transcripts to the agent, one at a time.
-- `send` hands an outcome to the consumer and says whether the consumer is still there; `describe` is
-- the text of an error, `e.to_string()`.
pub mod Queue
use pixi_ai.Common.{
  ◌≡◌, refl, sym, ap, ◌∙◌, Bool, true, false, Bool-cases, inl, inr, ◌⊎◌, List, [], ◌∷◌,
  if◌then◌else◌, length, suc, Text,
}
use pixi_ai.Common.Split.{trim}
use pixi_ai.Llm.Types.{AgentOutcome, AgentError, failure}
use pixi_ai.Llm.Agent.{LlmAgent, respond, is_empty}

abbrev pub is_blank : Text → Bool
is_blank t = is_empty (trim t)

abbrev pub outcome_of :
    {F : Type 0} → (AgentError F → Text) → AgentError F ⊎ AgentOutcome → AgentOutcome
outcome_of describe (inr o) = o
outcome_of describe (inl e) = failure (describe e)

-- The transcripts that are not blank.
abbrev pub spoken : List Text → List Text
spoken [] = []
spoken (t ∷ ts) = if is_blank t then spoken ts else t ∷ spoken ts

spoken-cons : (t : Text) (ts : List Text) → is_blank t ≡ false → t ∷ spoken ts ≡ spoken (t ∷ ts)
spoken-cons t ts e = rw e refl

-- An outcome in front of those of the run that goes on, or the end where no one takes it.
abbrev pub handed :
    {X : Type 0} → Bool → AgentOutcome → List AgentOutcome × X → X → List AgentOutcome × X
handed true o (os, x) y = (o ∷ os, x)
handed false o rest y = ([], y)

module _ {V F W : Type 0} (describe : AgentError F → Text)
    (send : AgentOutcome → W → Bool × W) where
  -- The transcripts until the channel closes; the outcomes that were taken.
  unfoldable pub run : List Text → LlmAgent V F W → W → List AgentOutcome × (LlmAgent V F W × W)
  run [] a w = ([], (a, w))
  run (t ∷ ts) a w =
      if is_blank t
      then run ts a w
      else (let (r, a, w) = respond t a w in
          let (there, w) = send (outcome_of describe r) w in
          handed there (outcome_of describe r) (run ts a w) (a, w))

  run-cons :
      (t : Text) (ts : List Text) (a : LlmAgent V F W) (w : W)
      → is_blank t ≡ false
      → run (t ∷ ts) a w ≡ (
          let (r, b, v) = respond t a w in
          let (there, u) = send (outcome_of describe r) v in
          handed there (outcome_of describe r) (run ts b u) (b, u))
  unfolding run
  run-cons t ts a w e = rw e refl

  -- A blank transcript changes nothing: the run is that of the transcripts that are not blank.
  pub run-spoken : (ts : List Text) (a : LlmAgent V F W) (w : W) → run ts a w ≡ run (spoken ts) a w
  unfolding run
  run-spoken [] a w = refl
  run-spoken (t ∷ ts) a w = elim (Bool-cases (is_blank t)) [
    | inl e ↦ rw e (run-spoken ts a w)
    | inr e ↦
        let (r, b, v) = respond t a w in
        let (there, u) = send (outcome_of describe r) v in
        run-cons t ts a w e
        ∙ ap (λ x. handed there (outcome_of describe r) x (b, u)) (run-spoken ts b u)
        ∙ sym (run-cons t (spoken ts) a w e)
        ∙ ap (λ l. run l a w) (spoken-cons t ts e)
  ]

  -- While the consumer is there, each transcript that is not blank gives one outcome, an error's too.
  length-run :
      ((o : AgentOutcome) (w : W) → (send o w).0 ≡ true)
      → (ts : List Text) (a : LlmAgent V F W) (w : W) → length (run ts a w).0 ≡ length (spoken ts)
  unfolding run
  length-run h [] a w = refl
  length-run h (t ∷ ts) a w = elim (Bool-cases (is_blank t)) [
    | inl e ↦ rw e (length-run h ts a w)
    | inr e ↦
        let (r, b, v) = respond t a w in
        let o = outcome_of describe r in
        ap (λ x. length x.0) (run-cons t ts a w e)
        ∙ ap (λ there. length (handed there o (run ts b (send o v).1) (b, (send o v).1)).0) (h o v)
        ∙ ap suc (length-run h ts b (send o v).1)
        ∙ ap length (spoken-cons t ts e)
  ]

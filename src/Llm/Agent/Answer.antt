-- ===== src/Llm/Agent/Answer.antt =====
-- crates/llm-agent/src/agent.rs: the text of an answer.
use pixi_ai.Common.{◌≡◌, refl, ◌∙◌, List, [], ◌∷◌, ◌++◌, append_assoc, Text, ℕ}
use pixi_ai.Common.Split.{join}
use pixi_ai.Llm.Types.{ContentBlock, text, tool_use, tool_result, audio}
use pixi_ai.Llm.Agent.{extract_from, extract_text}

-- The texts of a reply that are not empty.
abbrev pub spoken : {V : Type 0} → List (ContentBlock V) → List Text
spoken [] = []
spoken (text [] ∷ blocks) = spoken blocks
spoken (text (c ∷ s) ∷ blocks) = (c ∷ s) ∷ spoken blocks
spoken (tool_use id name input ∷ blocks) = spoken blocks
spoken (tool_result id content bad ∷ blocks) = spoken blocks
spoken (audio bytes format ∷ blocks) = spoken blocks

abbrev newline : Text
newline = b'\n' ∷ []

join-cons :
    (c : ℕ) (out t : Text) (ps : List Text)
    → join newline (((c ∷ out) ++ (b'\n' ∷ t)) ∷ ps) ≡ join newline ((c ∷ out) ∷ t ∷ ps)
unfolding join
join-cons c out t [] = refl
join-cons c out t (p ∷ ps) = append_assoc (c ∷ out) (b'\n' ∷ t) (newline ++ join newline (p ∷ ps))

module _ {V : Type 0} where
  extract_from-cons :
      (blocks : List (ContentBlock V)) (c : ℕ) (out : Text)
      → extract_from blocks (c ∷ out) ≡ join newline ((c ∷ out) ∷ spoken blocks)
  unfolding extract_from join
  extract_from-cons [] c out = refl
  extract_from-cons (text [] ∷ blocks) c out = extract_from-cons blocks c out
  extract_from-cons (text (d ∷ s) ∷ blocks) c out =
      extract_from-cons blocks c (out ++ (b'\n' ∷ d ∷ s)) ∙ join-cons c out (d ∷ s) (spoken blocks)
  extract_from-cons (tool_use id name input ∷ blocks) c out = extract_from-cons blocks c out
  extract_from-cons (tool_result id content bad ∷ blocks) c out = extract_from-cons blocks c out
  extract_from-cons (audio bytes format ∷ blocks) c out = extract_from-cons blocks c out

  -- The answer is the texts of the reply that are not empty, with a newline between any two.
  pub extract_text_lem :
      (blocks : List (ContentBlock V)) → extract_text blocks ≡ join (b'\n' ∷ []) (spoken blocks)
  unfolding extract_text join
  extract_text_lem [] = refl
  extract_text_lem (text [] ∷ blocks) = extract_text_lem blocks
  extract_text_lem (text (d ∷ s) ∷ blocks) = extract_from-cons blocks d s
  extract_text_lem (tool_use id name input ∷ blocks) = extract_text_lem blocks
  extract_text_lem (tool_result id content bad ∷ blocks) = extract_text_lem blocks
  extract_text_lem (audio bytes format ∷ blocks) = extract_text_lem blocks

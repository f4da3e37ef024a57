-- ===== src/Llm/Agent/Calls.antt =====
-- crates/llm-agent/src/agent.rs and tools.rs: what each call of a reply gives, and in which world.
use pixi_ai.Common.{
  ◌≡◌, ◌≢◌, refl, sym, subst, ◌⊎◌, inl, inr, Bool-cases, Option, none, some, List, [], ◌∷◌, ◌++◌,
  All, Text, codes, text_eq, text_eq_iff, text_eq-false, true, false,
}
use pixi_ai.Llm.Types.{ContentBlock, text, tool_use, tool_result, audio}
use pixi_ai.Llm.Agent.{Tool, get, call_tool, result_block, run_tool_calls}

pub Sum-cases : {A B : Type 0} (s : A ⊎ B) → ((a : A) × (s ≡ inl a)) ⊎ ((b : B) × (s ≡ inr b))
Sum-cases (inl a) = inl (a, refl)
Sum-cases (inr b) = inr (b, refl)

module _ {V W : Type 0} where
  -- The first tool of a name.
  pub data FirstNamed (name : Text) (t : Tool V W) : List (Tool V W) → Type 0 where
    here : {tools : List (Tool V W)} → t.definition.name ≡ name → FirstNamed name t (t ∷ tools)
    there :
        {u : Tool V W} {tools : List (Tool V W)}
        → u.definition.name ≢ name
        → FirstNamed name t tools
        → FirstNamed name t (u ∷ tools)

  get-FirstNamed :
      (name : Text) (tools : List (Tool V W))
      → ((t : Tool V W) × (get name tools ≡ some t) × FirstNamed name t tools)
        ⊎ ((get name tools ≡ none) × All (λ t. t.definition.name ≢ name) tools)
  unfolding get
  get-FirstNamed name [] = inr (refl, tt)
  get-FirstNamed name (t ∷ tools) = elim (Bool-cases (text_eq t.definition.name name)) [
    | inl same ↦ rw (same, get) (inl (t, refl, here ((text_eq_iff t.definition.name name).0 same)))
    | inr other ↦
        let differs = text_eq-false t.definition.name name other in
        rw (other, get)
          (elim (get-FirstNamed name tools) [
            | inl (u, e, f) ↦ inl (u, e, there differs f)
            | inr (e, all) ↦ inr (e, (differs, all))
          ])
  ]

  -- The calls of a reply's blocks, in their order, from a world to a world, with their results: the first
  -- tool of the name is called, and its output or its error is the result; for a name that no tool
  -- has the result is an error; other blocks are passed over.
  pub data Called (tools : List (Tool V W))
      : List (ContentBlock V) → W → List (ContentBlock V) → W → Type 0 where
    no_more : {w : W} → Called tools [] w [] w
    passed :
        {block : ContentBlock V} {blocks results : List (ContentBlock V)} {w v : W}
        → ((id name : Text) (input : V) → block ≢ tool_use id name input)
        → Called tools blocks w results v
        → Called tools (block ∷ blocks) w results v
    gave :
        {id name : Text} {input : V} {blocks results : List (ContentBlock V)} {w v : W}
        (t : Tool V W) (output : Text)
        → FirstNamed name t tools
        → (t.call input w).0 ≡ inr output
        → Called tools blocks (t.call input w).1 results v
        → Called tools (tool_use id name input ∷ blocks) w (tool_result id output false ∷ results) v
    failed :
        {id name : Text} {input : V} {blocks results : List (ContentBlock V)} {w v : W}
        (t : Tool V W) (error : Text)
        → FirstNamed name t tools
        → (t.call input w).0 ≡ inl error
        → Called tools blocks (t.call input w).1 results v
        → Called tools (tool_use id name input ∷ blocks) w (tool_result id error true ∷ results) v
    unknown :
        {id name : Text} {input : V} {blocks results : List (ContentBlock V)} {w v : W}
        → All (λ t. t.definition.name ≢ name) tools
        → Called tools blocks w results v
        → Called tools
            (tool_use id name input ∷ blocks)
            w
            (tool_result id (codes "unknown tool: " ++ name) true ∷ results)
            v

  pub run_tool_calls-Called :
      (tools : List (Tool V W)) (blocks : List (ContentBlock V)) (w : W)
      → Called tools blocks w (run_tool_calls tools blocks w).0 (run_tool_calls tools blocks w).1
  unfolding run_tool_calls call_tool
  run_tool_calls-Called tools [] w = no_more
  run_tool_calls-Called tools (text t ∷ blocks) w =
      passed (λ id name input e. cc) (run_tool_calls-Called tools blocks w)
  run_tool_calls-Called tools (tool_result id content bad ∷ blocks) w =
      passed (λ id name input e. cc) (run_tool_calls-Called tools blocks w)
  run_tool_calls-Called tools (audio bytes format ∷ blocks) w =
      passed (λ id name input e. cc) (run_tool_calls-Called tools blocks w)
  run_tool_calls-Called tools (tool_use id name input ∷ blocks) w =
      let Goal : Option (Tool V W) → Type 0 = λ o.
        Called tools (tool_use id name input ∷ blocks) w
          ((call_tool o id name input w).0
            ∷ (run_tool_calls tools blocks (call_tool o id name input w).1).0)
          (run_tool_calls tools blocks (call_tool o id name input w).1).1 in
      elim (get-FirstNamed name tools) [
        | inr (e, all) ↦ subst Goal (sym e) (unknown all (run_tool_calls-Called tools blocks w))
        | inl (t, e, f) ↦
            let rest = run_tool_calls-Called tools blocks (t.call input w).1 in
            let Answers : Text ⊎ Text → Type 0 = λ r.
              Called tools (tool_use id name input ∷ blocks) w
                (result_block id r ∷ (run_tool_calls tools blocks (t.call input w).1).0)
                (run_tool_calls tools blocks (t.call input w).1).1 in
            subst Goal (sym e) (elim (Sum-cases (t.call input w).0) [
              | inl (error, k) ↦ subst Answers (sym k) (failed t error f k rest)
              | inr (output, k) ↦ subst Answers (sym k) (gave t output f k rest)
            ])
      ]

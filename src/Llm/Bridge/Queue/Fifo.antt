-- ===== src/Llm/Bridge/Queue/Fifo.antt =====
-- crates/llm-agent/src/speech.rs: transcripts that are heard while the driver polls, in any order.
use pixi_ai.Common.{
  ◌≤◌, ◌≡◌, refl, sym, ap, subst, ◌∙◌, true, false, not, Option, none, some, List, [], ◌∷◌, ◌++◌,
  ◌⊎◌, inl, inr, ltb, ltb→lt, length, length-append, All, All-append, append_assoc, append-nil,
  if-both, if-split, Text, arith,
}
use pixi_ai.Speech.Segmenter.{SpeechEvent, voice_start, transcript_interim, voice_end, vad_status}
use pixi_ai.Llm.Types.{AgentOutcome, AgentError}
use pixi_ai.Llm.Agent.{LlmAgent, respond}
use pixi_ai.Llm.Bridge.{is_blank}
use pixi_ai.Llm.Bridge.Queue.{
  Channel, Sent, ignored, queued, full, closed, try_send, forward, speech_callback, SpeechRunner,
  outcome, step_on, step, default_channel_capacity,
}

abbrev pub IsSpoken : Text → Type 0
IsSpoken t = is_blank t ≡ false

abbrev pub accepted_of : Sent → List Text
accepted_of ignored = []
accepted_of (queued t) = t ∷ []
accepted_of (full t) = []
accepted_of (closed t) = []

abbrev pub front : List Text → List Text
front [] = []
front (t ∷ ts) = t ∷ []

abbrev rear : List Text → List Text
rear [] = []
rear (t ∷ ts) = ts

-- What an event does to the channel: it holds what it held and what was accepted behind it.
abbrev Appends : Channel → Channel × Sent → Type 0
Appends c (d, s) =
    (d.queue ≡ c.queue ++ accepted_of s)
    × All IsSpoken (accepted_of s)
    × (length c.queue ≤ default_channel_capacity → length d.queue ≤ default_channel_capacity)

same : (c : Channel) (s : Sent) → accepted_of s ≡ [] → Appends c (c, s)
same c s e = (
  sym (append-nil c.queue) ∙ ap (λ l. c.queue ++ l) (sym e),
  subst (All IsSpoken) (sym e) tt,
  λ h. h,
)

put :
    (t : Text) (c : Channel)
    → IsSpoken t
    → ltb (length c.queue) default_channel_capacity ≡ true
    → Appends c (record c { queue = c.queue ++ (t ∷ []) }, queued t)
put t c h e = (
  refl,
  (h, tt),
  λ _.
      omega
        (arith, length-append c.queue (t ∷ []), ltb→lt (length c.queue) default_channel_capacity e),
)

try_send-Appends : (t : Text) (c : Channel) → IsSpoken t → Appends c (try_send t c)
unfolding try_send
try_send-Appends t c h = if-both (Appends c) (not c.is_open) (same c (closed t) refl) (
    if-split (Appends c) (ltb (length c.queue) default_channel_capacity) (put t c h)
      (λ _. same c (full t) refl))

forward-Appends : (o : Option Text) (c : Channel) → Appends c (forward o c)
forward-Appends none c = same c ignored refl
forward-Appends (some t) c =
    if-split (Appends c) (is_blank t) (λ _. same c ignored refl) (λ e. try_send-Appends t c e)

speech_callback-Appends :
    {S P : Type 0} (e : SpeechEvent S P) (c : Channel) → Appends c (speech_callback e c)
unfolding speech_callback
speech_callback-Appends (voice_start at) c = same c ignored refl
speech_callback-Appends (transcript_interim at t) c = same c ignored refl
speech_callback-Appends (voice_end at audio duration transcript turn p) c =
    forward-Appends transcript c
speech_callback-Appends (vad_status at p speaking) c = same c ignored refl

split : (q rest : List Text) → front q ++ (rear q ++ rest) ≡ q ++ rest
split [] rest = refl
split (t ∷ ts) rest = refl

length-rear : (q : List Text) → length (rear q) ≤ length q
length-rear [] = omega arith
length-rear (t ∷ ts) = omega arith

pub data Act (S P : Type 0) : Type 0 where
  heard : SpeechEvent S P → Act S P
  polled : Act S P

module _ {V F W : Type 0} where
  queue-outcome :
      (x : (AgentError F ⊎ AgentOutcome) × LlmAgent V F W × W) (c : Channel)
      → (outcome x c).1.channel.queue ≡ c.queue
  queue-outcome (inl e, a, w) c = refl
  queue-outcome (inr o, a, w) c = refl

  queue-step_on :
      (q : List Text) (r : SpeechRunner V F W) (w : W)
      → r.channel.queue ≡ q
      → (step_on q r w).1.channel.queue ≡ rear q
  queue-step_on [] r w e = e
  queue-step_on (t ∷ ts) r w e =
      if-both
        (λ (x : (AgentError F ⊎ Option AgentOutcome) × SpeechRunner V F W × W).
          x.1.channel.queue ≡ ts)
        (is_blank t) refl (queue-outcome (respond t r.agent w) _)

  abbrev pub Fifo : List Text → (SpeechRunner V F W × W) × (List Text × List Text) → Type 0
  Fifo q ((r, w), (accepted, taken)) =
      (q ++ accepted ≡ taken ++ r.channel.queue)
      × All IsSpoken accepted
      × (length r.channel.queue ≤ default_channel_capacity)

  module _ {S P : Type 0} where
    -- The runner in the end, with the transcripts that were accepted and those that polls took.
    unfoldable pub run :
        List (Act S P) → SpeechRunner V F W → W → (SpeechRunner V F W × W) × (List Text × List Text)
    run [] r w = ((r, w), ([], []))
    run (heard e ∷ acts) r w =
        let (c, s) = speech_callback e r.channel in
        let (end, (accepted, taken)) = run acts (record r { channel = c }) w in
        (end, (accepted_of s ++ accepted, taken))
    run (polled ∷ acts) r w =
        let (reply, r', w') = step r w in
        let (end, (accepted, taken)) = run acts r' w' in
        (end, (accepted, front r.channel.queue ++ taken))

    -- However hearing and polling alternate, polls take the accepted transcripts, none of them blank,
    -- each once and in the order in which they were heard, and no more than 32 wait.
    pub run-Fifo :
        (acts : List (Act S P)) (r : SpeechRunner V F W) (w : W)
        → length r.channel.queue ≤ default_channel_capacity
        → Fifo r.channel.queue (run acts r w)
    unfolding run step
    run-Fifo [] r w h = (append-nil r.channel.queue, tt, h)
    run-Fifo (heard e ∷ acts) r w h =
        let (c, s) = speech_callback e r.channel in
        let (q, spoken, fits) = speech_callback-Appends e r.channel in
        let (eq, all, short) = run-Fifo acts (record r { channel = c }) w (fits h) in
        let later = (run acts (record r { channel = c }) w).1.0 in
        (
          sym (append_assoc r.channel.queue (accepted_of s) later)
              ∙ ap (λ l. l ++ later) (sym q)
              ∙ eq,
          All-append IsSpoken (accepted_of s) _ spoken all,
          short,
        )
    run-Fifo (polled ∷ acts) r w h =
        let (reply, r', w') = step r w in
        let q = r.channel.queue in
        let e : r'.channel.queue ≡ rear q = queue-step_on q r w refl in
        let (eq, all, short) = run-Fifo acts r' w' (rw e (omega (arith, length-rear q))) in
        let (end, (accepted, taken)) = run acts r' w' in
        (
          sym (split q accepted)
              ∙ ap (λ l. front q ++ l) (ap (λ l. l ++ accepted) (sym e) ∙ eq)
              ∙ sym (append_assoc (front q) taken _),
          all,
          short,
        )

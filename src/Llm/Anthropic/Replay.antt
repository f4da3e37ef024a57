-- ===== src/Llm/Anthropic/Replay.antt =====
-- crates/llm/src/providers/anthropic.rs: a reply that is sent back with the next request.
use mathlib.Core.List.{filter_map}
use pixi_ai.Common.{
  ◌≡◌, refl, ap, ◌∙◌, ◌++◌, codes, true, false, Option, none, some, List, [], ◌∷◌, map, keep_if,
  All, if-split, Text,
}
use pixi_ai.Llm.Types.{ContentBlock, Message, assistant, TurnRequest, audio}
use pixi_ai.Llm.Config.{is_empty}
use pixi_ai.Llm.Anthropic.{
  WireContentBlock, WireMessage, OwnedContentBlock, WireResponse, other, try_from_block, any_audio,
  has_content, into_content_block, into_turn_response, wire_message, role_name, body_of,
  AnthropicProvider, filled_in,
}

abbrev pub IsNotBlank : Option Text → Type 0
IsNotBlank none = Unit
IsNotBlank (some t) = is_empty t ≡ false

blank : (t : Option Text) → IsNotBlank (filled_in t)
blank none = tt
blank (some t) = if-split IsNotBlank (is_empty t) (λ _. tt) (λ e. e)

module _ {V : Type 0} where
  pub any_audio-reply :
      (bs : List (OwnedContentBlock V)) → any_audio (filter_map into_content_block bs) ≡ false
  unfolding any_audio filter_map
  any_audio-reply [] = refl
  any_audio-reply (OwnedContentBlock.text [] ∷ bs) = any_audio-reply bs
  any_audio-reply (OwnedContentBlock.text (c ∷ t) ∷ bs) = any_audio-reply bs
  any_audio-reply (OwnedContentBlock.tool_use id name input ∷ bs) = any_audio-reply bs
  any_audio-reply (other ∷ bs) = any_audio-reply bs

  -- What goes out again of a block that came in: a text that is not empty and a call, unchanged.
  abbrev pub resent : OwnedContentBlock V → Option (WireContentBlock V)
  resent (OwnedContentBlock.text []) = none
  resent (OwnedContentBlock.text (c ∷ t)) = some (WireContentBlock.text (c ∷ t))
  resent (OwnedContentBlock.tool_use id name input) = some (WireContentBlock.tool_use id name input)
  resent other = none

  -- The message that a reply becomes; none where nothing is left of it.
  abbrev pub reply_message : List (WireContentBlock V) → List (WireMessage V)
  reply_message [] = []
  reply_message (b ∷ bs) = record { role = codes "assistant"; content = b ∷ bs } ∷ []

  filter_map-resent :
      (bs : List (OwnedContentBlock V))
      → filter_map try_from_block (filter_map into_content_block bs) ≡ filter_map resent bs
  unfolding filter_map
  filter_map-resent [] = refl
  filter_map-resent (OwnedContentBlock.text [] ∷ bs) = filter_map-resent bs
  filter_map-resent (OwnedContentBlock.text (c ∷ t) ∷ bs) =
      ap (◌∷◌ (WireContentBlock.text (c ∷ t))) (filter_map-resent bs)
  filter_map-resent (OwnedContentBlock.tool_use id name input ∷ bs) =
      ap (◌∷◌ (WireContentBlock.tool_use id name input)) (filter_map-resent bs)
  filter_map-resent (other ∷ bs) = filter_map-resent bs

  -- The messages with content.
  abbrev sendable : List (WireMessage V) → List (WireMessage V)
  sendable ms = keep_if (λ m. has_content m.content) ms

  sendable-reply :
      (content : List (WireContentBlock V)) (ms : List (WireMessage V))
      → sendable (record { role = codes "assistant"; content = content } ∷ ms)
        ≡ reply_message content ++ sendable ms
  sendable-reply [] ms = refl
  sendable-reply (b ∷ bs) ms = refl

  sendable-append :
      (before : List (Message V)) (content : List (WireContentBlock V)) (m : Message V)
      (later : List (Message V))
      → wire_message m ≡ record { role = codes "assistant"; content = content }
      → sendable (map wire_message (before ++ (m ∷ later)))
        ≡ sendable (map wire_message before)
          ++ (reply_message content ++ sendable (map wire_message later))
  sendable-append [] content m later e =
      ap (λ x. sendable (x ∷ map wire_message later)) e
      ∙ sendable-reply content (map wire_message later)
  sendable-append (x ∷ before) content m later e =
      onto (filter_map try_from_block x.content) (role_name x.role)
        (map wire_message (before ++ (m ∷ later))) (map wire_message before)
        (reply_message content ++ sendable (map wire_message later))
        (sendable-append before content m later e)
    where
      onto :
          (bs : List (WireContentBlock V)) (role : Text) (xs ys zs : List (WireMessage V))
          → sendable xs ≡ sendable ys ++ zs
          → sendable (record { role = role; content = bs } ∷ xs)
            ≡ sendable (record { role = role; content = bs } ∷ ys) ++ zs
      onto [] role xs ys zs h = h
      onto (b ∷ bs) role xs ys zs h = ap (◌∷◌ (record { role = role; content = b ∷ bs })) h

  -- In every request whose conversation holds a reply, between what went before and what came later,
  -- the reply goes out between the messages of the two: as one message of the assistant with each of its
  -- texts that is not empty and each of its calls, unchanged and in order; or not at all where it has
  -- neither.
  pub into_turn_response-replayed :
      (p : AnthropicProvider) (r : TurnRequest V) (before later : List (Message V))
      (w : WireResponse V)
      → r.messages
        ≡ before ++ (record { role = assistant; content = (into_turn_response w).blocks } ∷ later)
      → (body_of p r).messages
        ≡ (body_of p (record r { messages = before })).messages
          ++ (reply_message (filter_map resent w.content)
              ++ (body_of p (record r { messages = later })).messages)
  unfolding body_of into_turn_response
  into_turn_response-replayed p r before later w e =
      ap (λ ms. sendable (map wire_message ms)) e
      ∙ sendable-append before (filter_map resent w.content)
          (record { role = assistant; content = filter_map into_content_block w.content }) later
          (ap (λ bs. record { role = codes "assistant"; content = bs })
            (filter_map-resent w.content))

  -- No text on the wire is empty.
  abbrev pub IsSpoken : WireContentBlock V → Type 0
  IsSpoken (WireContentBlock.text t) = is_empty t ≡ false
  IsSpoken (WireContentBlock.tool_use id name input) = Unit
  IsSpoken (WireContentBlock.tool_result id content bad) = Unit

  abbrev pub IsAccepted : WireMessage V → Type 0
  IsAccepted m = (has_content m.content ≡ true) × All IsSpoken m.content

  spoken : (bs : List (ContentBlock V)) → All IsSpoken (filter_map try_from_block bs)
  unfolding filter_map
  spoken [] = tt
  spoken (ContentBlock.text [] ∷ bs) = spoken bs
  spoken (ContentBlock.text (c ∷ t) ∷ bs) = (refl, spoken bs)
  spoken (ContentBlock.tool_use id name input ∷ bs) = (tt, spoken bs)
  spoken (ContentBlock.tool_result id content bad ∷ bs) = (tt, spoken bs)
  spoken (audio bytes format ∷ bs) = spoken bs

  kept_message :
      (role : Text) (content : List (WireContentBlock V)) (ms : List (WireMessage V))
      → All IsSpoken content
      → All IsAccepted (keep_if (λ m. has_content m.content) ms)
      → All IsAccepted
          (keep_if (λ m. has_content m.content) (record { role = role; content = content } ∷ ms))
  kept_message role [] ms h hs = hs
  kept_message role (b ∷ bs) ms h hs = ((refl, h), hs)

  sent :
      (ms : List (Message V))
      → All IsAccepted (keep_if (λ m. has_content m.content) (map wire_message ms))
  sent [] = tt
  sent (m ∷ ms) =
      kept_message (wire_message m).role _ (map wire_message ms) (spoken m.content) (sent ms)

  -- No request has an empty message, an empty text or an empty system prompt.
  pub body_of-IsAccepted :
      (p : AnthropicProvider) (r : TurnRequest V)
      → All IsAccepted (body_of p r).messages × IsNotBlank (body_of p r).system
  unfolding body_of
  body_of-IsAccepted p r = (sent r.messages, blank r.system)

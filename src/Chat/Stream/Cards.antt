-- ===== src/Chat/Stream/Cards.antt =====
-- No card number goes through the chat: neither to the models nor back to the customer.
use langgraph_temporal_agent.Prelude.{◌≡◌, refl, false, ◌∷◌, [], List, All, ◌++◌}
use langgraph_temporal_agent.Text.{Text}
use langgraph_temporal_agent.Guardrails.{contains_sensitive_data}
use langgraph_temporal_agent.Guardrails.Cards.{
  HoldsCard, contains_sensitive_data-HoldsCard, validate-HoldsCard,
}
use langgraph_temporal_agent.Chat.Stream.{
  Event, message, error, done, message_events, Services, stream_llm_response, input_blocked_message,
  output_blocked_message,
}
use langgraph_temporal_agent.Chat.Stream.Laws.{
  IsShown, stopped, disapproved, approved, unasked, Streams, refused, unsafe, broken, replied,
  stream_llm_response-Streams,
}

-- An event that tells the customer no card number.
abbrev pub IsClean : Event → Type 0
IsClean (message text) = ¬ HoldsCard text
IsClean error = Unit
IsClean done = Unit

insensitive : (text : Text) → contains_sensitive_data text ≡ false → ¬ HoldsCard text
insensitive text clean h = cc (clean, contains_sensitive_data-HoldsCard text h)

input_blocked_message-clean : ¬ HoldsCard input_blocked_message
unfolding contains_sensitive_data
input_blocked_message-clean = insensitive input_blocked_message refl

output_blocked_message-clean : ¬ HoldsCard output_blocked_message
unfolding contains_sensitive_data
output_blocked_message-clean = insensitive output_blocked_message refl

message_events-IsClean :
    (text : Text) → ¬ HoldsCard text → All IsClean (message_events text ++ (done ∷ []))
message_events-IsClean [] clean = (tt, tt)
message_events-IsClean (c ∷ text) clean = (clean, (tt, tt))

module _ {W : Type 0} (s : Services W) (user_message user_id thread : Text) (w : W) where
  shown_clean :
      (answer text : Text) (w2 w' : W)
      → IsShown s user_message user_id thread w answer w2 text w'
      → ¬ HoldsCard text
  shown_clean answer text w2 w' (stopped v e) = output_blocked_message-clean
  shown_clean answer text w2 w' (disapproved w3 valid on e) = output_blocked_message-clean
  shown_clean answer text w2 w' (approved w3 valid free on e) =
      λ h. (validate-HoldsCard answer h).1 valid
  shown_clean answer text w2 w' (unasked valid free why) =
      λ h. (validate-HoldsCard answer h).1 valid

  pub data KeepsCards : List Event × W → Type 0 where
    kept_from_models : KeepsCards (message input_blocked_message ∷ done ∷ [], w)
    without_cards :
        (events : List Event) (w' : W)
        → ¬ HoldsCard user_message
        → All IsClean events
        → KeepsCards (events, w')

  Streams-KeepsCards :
      {out : List Event × W} → Streams s user_message user_id thread w out → KeepsCards out
  Streams-KeepsCards (refused v e) = kept_from_models
  Streams-KeepsCards (unsafe w' valid on e) =
      without_cards _ w' (λ h. (validate-HoldsCard user_message h).0 valid)
        (input_blocked_message-clean, (tt, tt))
  Streams-KeepsCards (broken w' valid why) =
      without_cards _ w' (λ h. (validate-HoldsCard user_message h).0 valid) (tt, (tt, tt))
  Streams-KeepsCards (replied events w1 w2 w' text valid passed ran shown) =
      without_cards _ w' (λ h. (validate-HoldsCard user_message h).0 valid)
        (message_events-IsClean text (shown_clean _ text w2 w' shown))

  -- A chat request is answered with the refusal alone, with the world as it was, so that no model and
  -- no tool has seen the message; or the message holds no valid card number, and no event that is sent
  -- back holds one. A text holds a card number where 13 to 19 digits that the checksum accepts stand in
  -- it with no digit before them and none among the next two characters.
  pub stream_llm_response-KeepsCards :
      KeepsCards (stream_llm_response s user_message user_id thread w)
  stream_llm_response-KeepsCards =
      Streams-KeepsCards (stream_llm_response-Streams s user_message user_id thread w)

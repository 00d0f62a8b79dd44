-- ===== src/Chat/Stream/Laws.antt =====
-- What a chat request can be answered with.
use langgraph_temporal_agent.Prelude.{
  ◌≡◌, [], ◌∷◌, ◌++◌, true, none, some, refl, false, inr, inl, List, Option, ◌⊎◌, Bool, Bool-cases,
  arith, not, ◌&&◌, and_true,
}
use langgraph_temporal_agent.Chat.Stream.{
  Services, Event, message, error, done, output_blocked_message, respond, after_astream,
  after_input, after_validation, stream_llm_response, after_output, input_blocked_message,
  GraphEvent, ended, message_events, reviewed, response_of, input_answer,
}
use langgraph_temporal_agent.Text.{Text, text_eq}
use langgraph_temporal_agent.Guardrails.{Violation, validate_output, validate_input}
use langgraph_temporal_agent.Chat.Reasoning.{contains_open, strip_reasoning}
use langgraph_temporal_agent.Chat.Reasoning.Laws.{contains_open-strip_reasoning}
use langgraph_temporal_agent.Text.Equality.{text_eq_iff}

module _ {W : Type 0} (s : Services W) (user_message user_id thread : Text) (w : W) where
  -- The state in which the graph may run: the policy model is disabled, or has approved the message.
  pub data IsPassed : W → Type 0 where
    unasked_input : s.nemo_guardrails_enabled ≡ false → IsPassed w
    approved_input :
        (w1 : W)
        → s.nemo_guardrails_enabled ≡ true
        → s.check_nemo_input user_message w ≡ (some true, w1)
        → IsPassed w1

  -- What is sent of the graph's answer, and the state afterwards: the refusal, where the guardrails or
  -- the policy model stop it, or the answer, which both let pass and in which no reasoning begins. The
  -- policy model is asked only where it is enabled, and not about the refusal.
  pub data IsShown (answer : Text) (w2 : W) : Text → W → Type 0 where
    stopped :
        (v : Violation)
        → validate_output answer ≡ some v
        → IsShown answer w2 output_blocked_message w2
    disapproved :
        (w3 : W)
        → validate_output answer ≡ none
        → s.nemo_guardrails_enabled ≡ true
        → s.check_nemo_output answer w2 ≡ (some false, w3)
        → IsShown answer w2 output_blocked_message w3
    approved :
        (w3 : W)
        → validate_output answer ≡ none
        → contains_open answer ≡ false
        → s.nemo_guardrails_enabled ≡ true
        → s.check_nemo_output answer w2 ≡ (some true, w3)
        → IsShown answer w2 answer w3
    unasked :
        validate_output answer ≡ none
        → contains_open answer ≡ false
        → (s.nemo_guardrails_enabled ≡ false) ⊎ (answer ≡ output_blocked_message)
        → IsShown answer w2 answer w2

  -- A service has raised, after the ones before it have let the request pass.
  pub data Raised : W → Type 0 where
    on_input :
        (w1 : W)
        → s.nemo_guardrails_enabled ≡ true
        → s.check_nemo_input user_message w ≡ (none, w1)
        → Raised w1
    on_graph :
        (w1 w2 : W)
        → IsPassed w1
        → s.astream user_message user_id thread w1 ≡ (none, w2)
        → Raised w2
    on_output :
        (events : List GraphEvent) (w1 w2 w3 : W)
        → IsPassed w1
        → s.astream user_message user_id thread w1 ≡ (some events, w2)
        → validate_output (strip_reasoning (response_of events)) ≡ none
        → s.nemo_guardrails_enabled ≡ true
        → s.check_nemo_output (strip_reasoning (response_of events)) w2 ≡ (none, w3)
        → Raised w3

  pub data Streams : List Event × W → Type 0 where
    refused :
        (v : Violation)
        → validate_input user_message ≡ some v
        → Streams (message input_blocked_message ∷ done ∷ [], w)
    unsafe :
        (w' : W)
        → validate_input user_message ≡ none
        → s.nemo_guardrails_enabled ≡ true
        → s.check_nemo_input user_message w ≡ (some false, w')
        → Streams (message input_blocked_message ∷ done ∷ [], w')
    broken :
        (w' : W) → validate_input user_message ≡ none → Raised w' → Streams (error ∷ done ∷ [], w')
    replied :
        (events : List GraphEvent) (w1 w2 w' : W) (text : Text)
        → validate_input user_message ≡ none
        → IsPassed w1
        → s.astream user_message user_id thread w1 ≡ (some events, w2)
        → IsShown (strip_reasoning (response_of events)) w2 text w'
        → Streams (message_events text ++ done ∷ [], w')

  module _ (events : List GraphEvent) (w1 w2 : W) (fine : validate_input user_message ≡ none)
      (passed : IsPassed w1)
      (ran : s.astream user_message user_id thread w1 ≡ (some events, w2)) where
    abbrev answer : Text
    answer = strip_reasoning (response_of events)

    after_output-Streams :
        (said : Option Bool × W)
        → validate_output answer ≡ none
        → s.nemo_guardrails_enabled ≡ true
        → s.check_nemo_output answer w2 ≡ said
        → Streams (ended (after_output s answer said))
    unfolding after_output
    after_output-Streams (none, w') passes enabled said =
        broken w' fine (on_output events w1 w2 w' passed ran passes enabled said)
    after_output-Streams (some true, w') passes enabled said =
        replied events w1 w2 w' _ fine passed ran
          (approved w' passes (contains_open-strip_reasoning (response_of events)) enabled said)
    after_output-Streams (some false, w') passes enabled said =
        replied events w1 w2 w' output_blocked_message fine passed ran
          (disapproved w' passes enabled said)

    respond-Streams :
        (v : Option Violation)
        → validate_output answer ≡ v
        → Streams (ended (respond s (reviewed s answer v) w2))
    unfolding respond
    respond-Streams (some v) found =
        rw ((text_eq_iff output_blocked_message output_blocked_message).1 refl)
          (replied events w1 w2 w2 output_blocked_message fine passed ran (stopped v found))
    respond-Streams none passes =
        elim (Bool-cases
          (not (text_eq answer output_blocked_message) && s.nemo_guardrails_enabled)) [
            | inl asked ↦ rw asked (after_output-Streams _ passes (and_true _ _ asked).1 refl)
            | inr silent ↦ rw silent (sent (why silent))
          ]
      where
        why :
            (not (text_eq answer output_blocked_message) && s.nemo_guardrails_enabled) ≡ false
            → (s.nemo_guardrails_enabled ≡ false) ⊎ (answer ≡ output_blocked_message)
        why silent = elim (Bool-cases s.nemo_guardrails_enabled) [
          | inr disabled ↦ inl disabled
          | inl enabled ↦
              inr ((text_eq_iff answer output_blocked_message).0 (ground (arith, enabled, silent)))
        ]

        sent :
            (s.nemo_guardrails_enabled ≡ false) ⊎ (answer ≡ output_blocked_message)
            → Streams (message_events answer ++ done ∷ [], w2)
        sent why =
            replied events w1 w2 w2 _ fine passed ran
              (unasked passes (contains_open-strip_reasoning (response_of events)) why)

  after_astream-Streams :
      (w1 : W) (ran : Option (List GraphEvent) × W)
      → validate_input user_message ≡ none
      → IsPassed w1
      → s.astream user_message user_id thread w1 ≡ ran
      → Streams (ended (after_astream s ran))
  unfolding after_astream
  after_astream-Streams w1 (none, w') fine passed ran = broken w' fine (on_graph w1 w' passed ran)
  after_astream-Streams w1 (some events, w') fine passed ran =
      respond-Streams events w1 w' fine passed ran
        (validate_output (strip_reasoning (response_of events))) refl

  enabled-Streams :
      (answer : Option Bool × W)
      → validate_input user_message ≡ none
      → s.nemo_guardrails_enabled ≡ true
      → s.check_nemo_input user_message w ≡ answer
      → Streams (ended (after_input s user_message user_id thread answer))
  unfolding after_input
  enabled-Streams (none, w') fine enabled said = broken w' fine (on_input w' enabled said)
  enabled-Streams (some true, w') fine enabled said =
      after_astream-Streams w' (s.astream user_message user_id thread w') fine
        (approved_input w' enabled said) refl
  enabled-Streams (some false, w') fine enabled said = unsafe w' fine enabled said

  input-Streams :
      (b : Bool)
      → s.nemo_guardrails_enabled ≡ b
      → validate_input user_message ≡ none
      → Streams
          (ended (after_input s user_message user_id thread (input_answer s b user_message w)))
  unfolding after_input
  input-Streams true enabled fine =
      enabled-Streams (s.check_nemo_input user_message w) fine enabled refl
  input-Streams false disabled fine =
      after_astream-Streams w (s.astream user_message user_id thread w) fine
        (unasked_input disabled) refl

  after_validation-Streams :
      (v : Option Violation)
      → validate_input user_message ≡ v
      → Streams (ended (after_validation s user_message user_id thread v w))
  unfolding after_validation
  after_validation-Streams (some v) e = refused v e
  after_validation-Streams none e = input-Streams s.nemo_guardrails_enabled refl e

  -- A chat request is answered in one of four ways, and DONE_EVENT always comes last: the input is
  -- refused by the guardrails, with the world as it was, or by the policy model, where that is enabled,
  -- and in both cases the graph has not run; a service has raised, and the error event is sent; or the
  -- graph has answered. The graph runs only after the policy model, where it is enabled, has approved
  -- the message. Then at most one message is sent: the refusal, if `validate_output` or the policy
  -- model stops the answer without its reasoning, or else that answer, in which no `<think>` begins,
  -- and which the policy model, where it is enabled, has approved (it is not asked about the refusal's
  -- own text). Each service sees the state that the one before it has left, and the last one's is the
  -- state in the end.
  pub stream_llm_response-Streams : Streams (stream_llm_response s user_message user_id thread w)
  unfolding stream_llm_response
  stream_llm_response-Streams = after_validation-Streams (validate_input user_message) refl

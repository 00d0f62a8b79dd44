-- ===== src/Chat/Stream.antt =====
-- `stream_llm_response`: the events that a chat request is answered with. The policy model
-- and the stream of the graph are fields of `Services`; `W` is the state of the world that they may
-- change.
pub mod Laws
pub mod Cards
use langgraph_temporal_agent.Prelude.{
  Bool, true, false, Option, none, some, List, [], ◌∷◌, ◌++◌, ◌&&◌, ◌||◌, any, if◌then◌else◌, not,
}
use langgraph_temporal_agent.Text.{Text, codes, text_eq, is_empty}
use langgraph_temporal_agent.Guardrails.{Violation, validate_input, validate_output}
use langgraph_temporal_agent.Chat.Reasoning.{strip_reasoning}

-- An event of `astream(…, stream_mode="messages")`: its type, whether the chunk is an AIMessage, the
-- node of its metadata, and its content if that is a `str`.
pub record GraphEvent : Type 0 where
  pub is_messages : Bool
  pub is_ai_message : Bool
  pub graph_node : Option Text
  pub content : Option Text

-- A server-sent event: "message" with its content, "error", or DONE_EVENT.
pub data Event : Type 0 where
  message : (content : Text) → Event
  error done : Event

abbrev pub input_blocked_message : Text
input_blocked_message =
    codes
      "I can't process that message because it may contain unsafe instructions or sensitive information."

abbrev pub output_blocked_message : Text
output_blocked_message = codes "I couldn't return that response safely."

-- What the stream calls. `none` is an exception.
pub record Services (W : Type 0) : Type 0 where
  pub nemo_guardrails_enabled : Bool
  pub check_nemo_input : Text → W → Option Bool × W
  pub check_nemo_output : Text → W → Option Bool × W
  -- `agent_graph.astream` on a message, for a user, in a thread: all events, in order.
  pub astream : Text → Text → Text → W → Option (List GraphEvent) × W

abbrev pub user_response_graph_nodes : List Text
user_response_graph_nodes =
    codes "order_tracking_agent"
    ∷ codes "order_actions_agent"
    ∷ codes "infrastructure_agent"
    ∷ codes "limit"
    ∷ codes "invalid"
    ∷ []

-- `graph_node and graph_node not in USER_RESPONSE_GRAPH_NODES` fails.
abbrev pub is_user_node : Option Text → Bool
is_user_node none = true
is_user_node (some node) =
    is_empty node || any (λ (n : Text). text_eq node n) user_response_graph_nodes

abbrev pub part_of : GraphEvent → Text
part_of e = elim e.content [ none ↦ [] | some content ↦ content ]

-- `"".join(response_parts)`
unfoldable pub response_of : List GraphEvent → Text
response_of [] = []
response_of (e ∷ events) =
    let rest = response_of events in
    if e.is_messages && e.is_ai_message && is_user_node e.graph_node
    then part_of e ++ rest
    else rest

abbrev pub message_events : Text → List Event
message_events [] = []
message_events (c ∷ text) = message (c ∷ text) ∷ []

-- The end of the `try`: an exception becomes the error event, and DONE_EVENT always follows.
abbrev pub ended : {W : Type 0} → Option (List Event) × W → List Event × W
ended (none, w) = (error ∷ done ∷ [], w)
ended (some events, w) = (events ++ done ∷ [], w)

module _ {W : Type 0} (s : Services W) where
  -- The text after `validate_output`, which has returned or raised.
  abbrev pub reviewed : Text → Option Violation → Text
  reviewed text none = text
  reviewed text (some _) = output_blocked_message

  -- What `check_nemo_output` has answered.
  unfoldable pub after_output : Text → Option Bool × W → Option (List Event) × W
  after_output text (none, w) = (none, w)
  after_output text (some true, w) = (some (message_events text), w)
  after_output text (some false, w) = (some (message_events output_blocked_message), w)

  unfoldable pub respond : Text → W → Option (List Event) × W
  unfolding after_output
  respond text w =
      if not (text_eq text output_blocked_message) && s.nemo_guardrails_enabled
      then after_output text (s.check_nemo_output text w)
      else (some (message_events text), w)

  unfoldable pub after_astream : Option (List GraphEvent) × W → Option (List Event) × W
  unfolding respond response_of strip_reasoning validate_output
  after_astream (none, w) = (none, w)
  after_astream (some events, w) =
      let text = strip_reasoning (response_of events) in
      respond (reviewed text (validate_output text)) w

  -- What `check_nemo_input` has answered.
  unfoldable pub after_input : Text → Text → Text → Option Bool × W → Option (List Event) × W
  unfolding after_astream
  after_input user_message user_id thread (none, w) = (none, w)
  after_input user_message user_id thread (some false, w) =
      (some (message input_blocked_message ∷ []), w)
  after_input user_message user_id thread (some true, w) =
      after_astream (s.astream user_message user_id thread w)

  -- `nemo_guardrails_enabled() and not await check_nemo_input(user_message)`, asked only if enabled.
  abbrev pub input_answer : Bool → Text → W → Option Bool × W
  input_answer true user_message w = s.check_nemo_input user_message w
  input_answer false user_message w = (some true, w)

  unfoldable pub after_validation :
      Text → Text → Text → Option Violation → W → Option (List Event) × W
  unfolding after_input
  after_validation user_message user_id thread (some _) w =
      (some (message input_blocked_message ∷ []), w)
  after_validation user_message user_id thread none w =
      after_input user_message user_id thread
        (input_answer s.nemo_guardrails_enabled user_message w)

  -- `thread` is the thread key of the user and the thread.
  unfoldable pub stream_llm_response : Text → Text → Text → W → List Event × W
  unfolding after_validation validate_input
  stream_llm_response user_message user_id thread w =
      ended (after_validation user_message user_id thread (validate_input user_message) w)

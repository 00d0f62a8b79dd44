-- ===== src/Agent.antt =====
-- The graph of app/agent_graph.py: its state, its nodes and its routes. The language models and
-- LangGraph's ToolNode are parameters; `W` is the state of the world outside the graph, which they
-- may change.
pub mod Run
pub mod Path
pub mod Answer
pub mod Calls
pub mod Related
use langgraph_temporal_agent.Prelude.{
  ℕ, suc, ◌+◌, Bool, true, false, Option, none, some, List, [], ◌∷◌, ◌++◌, if◌then◌else◌, leb, ◌*◌,
}
use langgraph_temporal_agent.Text.{Text, codes, text_eq}

pub data AgentName : Type 0 where
  order_tracking order_actions infrastructure : AgentName

-- The value of `active_agent`.
pub data ActiveAgent : Type 0 where
  active : AgentName → ActiveAgent
  invalid_agent : ActiveAgent

pub record ToolCall : Type 0 where
  pub name : Text
  pub args : List (Text × Text)

-- What the graph reads of an AIMessage.
pub record AiMessage : Type 0 where
  pub content : Text
  pub tool_calls : List ToolCall
  pub invalid_tool_calls : List ToolCall

pub data Message : Type 0 where
  human tool_result : (content : Text) → Message
  ai : AiMessage → Message

pub record AgentState : Type 0 where
  pub messages : List Message
  pub iteration_count : ℕ
  pub user_id : Text
  pub active_agent : ActiveAgent

abbrev pub max_agent_iterations : ℕ
max_agent_iterations = 3

-- GRAPH_RECURSION_LIMIT
abbrev pub graph_recursion_limit : ℕ
graph_recursion_limit = max_agent_iterations * 2 + 4

abbrev pub iteration_limit_message : Text
iteration_limit_message =
    codes "I couldn't complete this request within the allowed number of steps."

abbrev pub invalid_tool_call_message : Text
invalid_tool_call_message = codes "I couldn't understand the requested action. Please try again."

-- `HANDOFF_AGENT_BY_TOOL.get(name, "invalid")`
unfoldable pub handoff_agent_by_tool : Text → ActiveAgent
handoff_agent_by_tool name =
    if text_eq name (codes "delegate_to_order_tracking")
    then active order_tracking
    else if text_eq name (codes "delegate_to_order_actions")
    then active order_actions
    else if text_eq name (codes "delegate_to_infrastructure")
    then active infrastructure
    else invalid_agent

-- SPECIALIST_TOOLS, by the tools' names.
unfoldable pub specialist_tools : AgentName → List Text
specialist_tools order_tracking =
    codes "get_order_status" ∷ codes "save_user_preference" ∷ codes "get_user_preferences" ∷ []
specialist_tools order_actions = codes "cancel_order" ∷ codes "request_refund" ∷ []
specialist_tools infrastructure = codes "get_platform_health" ∷ []

-- `not response.invalid_tool_calls and len(response.tool_calls) == 1`
unfoldable pub selected_agent : AiMessage → ActiveAgent
unfolding handoff_agent_by_tool
selected_agent r = of_calls r.invalid_tool_calls r.tool_calls
  where
    of_calls : List ToolCall → List ToolCall → ActiveAgent
    of_calls [] (call ∷ []) = handoff_agent_by_tool call.name
    of_calls _ _ = invalid_agent

-- `call_supervisor` with the model's response
unfoldable pub call_supervisor : AiMessage → AgentState → AgentState
unfolding selected_agent
call_supervisor response s = record s { active_agent = selected_agent response }

-- `call_specialist` with the model's response; the `add_messages` reducer of MessagesState puts new
-- messages at the end.
unfoldable pub call_specialist : AgentName → AiMessage → AgentState → AgentState
call_specialist agent_name response s = record s {
  messages = s.messages ++ ai response ∷ [];
  iteration_count = s.iteration_count + 1;
  active_agent = active agent_name;
}

abbrev pub plain_answer : Text → Message
plain_answer content = ai (record { content = content; tool_calls = []; invalid_tool_calls = [] })

unfoldable pub iteration_limit_response : AgentState → AgentState
iteration_limit_response s = record s {
  messages = s.messages ++ plain_answer iteration_limit_message ∷ [];
}

unfoldable pub invalid_tool_call_response : AgentState → AgentState
invalid_tool_call_response s = record s {
  messages = s.messages ++ plain_answer invalid_tool_call_message ∷ [];
}

-- The nodes of `build_agent_graph`, and its END.
pub data Node : Type 0 where
  supervisor limit invalid end : Node
  agent tools : AgentName → Node

unfoldable pub route_supervisor : AgentState → Node
route_supervisor s = elim s.active_agent [ active a ↦ agent a | invalid_agent ↦ invalid ]

-- The route of a response, by its two lists of calls and the iterations done.
unfoldable pub route_response : AgentName → List ToolCall → List ToolCall → ℕ → Node
route_response a (_ ∷ _) calls iterations = invalid
route_response a [] [] iterations = end
route_response a [] (_ ∷ _) iterations =
    if leb max_agent_iterations iterations then limit else tools a

-- `route_specialist_output`, whose latest message is the specialist's response.
unfoldable pub route_specialist_output : AgentName → AiMessage → AgentState → Node
unfolding route_response
route_specialist_output a response s =
    route_response a response.invalid_tool_calls response.tool_calls s.iteration_count

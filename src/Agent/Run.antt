-- ===== src/Agent/Run.antt =====
-- One superstep of the compiled graph after another, up to LangGraph's recursion limit.
use langgraph_temporal_agent.Agent.{
  AgentName, AgentState, AiMessage, Message, Node, call_supervisor, call_specialist,
  iteration_limit_response, invalid_tool_call_response, route_supervisor, route_specialist_output,
  specialist_tools, supervisor, agent, tools, limit, invalid, end, graph_recursion_limit, human,
  ActiveAgent,
}
use langgraph_temporal_agent.Prelude.{[], suc, ◌∷◌, some, none, zero, Option, List, ◌++◌, ℕ}
use langgraph_temporal_agent.Text.{Text}

-- The state of a request: the conversation so far with the new message at its end, no iteration, and
-- the request's user. The agent of the last request is still in the checkpoint.
abbrev pub request_state : List Message → ActiveAgent → Text → Text → AgentState
request_state history last_agent user_message user_id = record {
  messages = history ++ human user_message ∷ [];
  iteration_count = 0;
  user_id = user_id;
  active_agent = last_agent;
}

-- How `astream` ends: at END, with the exception of a model or a tool, or with GraphRecursionError.
pub data Ended (W : Type 0) : Type 0 where
  finished : AgentState → W → Ended W
  failed recursion_error : W → Ended W

-- The supervisor's node and its route; `none` is an exception.
unfoldable pub after_supervisor : AgentState → Option AiMessage → Option (Node × AgentState)
unfolding call_supervisor route_supervisor
after_supervisor s none = none
after_supervisor s (some r) = let s' = call_supervisor r s in some (route_supervisor s', s')

unfoldable pub after_specialist :
    AgentName → AgentState → Option AiMessage → Option (Node × AgentState)
unfolding call_specialist route_specialist_output
after_specialist a s none = none
after_specialist a s (some r) =
    let s' = call_specialist a r s in some (route_specialist_output a r s', s')

unfoldable pub after_tools :
    AgentName → AgentState → Option (List Message) → Option (Node × AgentState)
after_tools a s none = none
after_tools a s (some ms) = some (agent a, record s { messages = s.messages ++ ms })

module _ {W : Type 0} (model : Option AgentName → List Message → W → Option AiMessage × W)
    (tool_node : List Text → AgentState → W → Option (List Message) × W) where
  -- One superstep: the node runs, and its edge is followed.
  unfoldable pub superstep : Node → AgentState → W → Option (Node × AgentState) × W
  unfolding after_supervisor after_specialist after_tools iteration_limit_response
      invalid_tool_call_response specialist_tools
  superstep supervisor s w = let (r, w') = model none s.messages w in (after_supervisor s r, w')
  superstep (agent a) s w =
      let (r, w') = model (some a) s.messages w in (after_specialist a s r, w')
  superstep (tools a) s w =
      let (r, w') = tool_node (specialist_tools a) s w in (after_tools a s r, w')
  superstep limit s w = (some (end, iteration_limit_response s), w)
  superstep invalid s w = (some (end, invalid_tool_call_response s), w)
  superstep end s w = (some (end, s), w)

  -- At most `fuel` supersteps from a node.
  unfoldable pub run : ℕ → Node → AgentState → W → Ended W
  unfolding superstep
  run fuel end s w = finished s w
  run zero node s w = recursion_error w
  run (suc fuel) node s w =
      let (r, w') = superstep node s w in elim r [ none ↦ failed w' | some p ↦ run fuel p.0 p.1 w' ]

  -- `stream_llm_response` calls `astream` with this limit.
  unfoldable pub ask : List Message → ActiveAgent → Text → Text → W → Ended W
  unfolding run
  ask history last_agent user_message user_id w =
      run graph_recursion_limit supervisor (request_state history last_agent user_message user_id) w

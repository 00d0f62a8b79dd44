-- ===== src/Agent/Answer.antt =====
-- Every request ends, whatever the models and the tools do.
use langgraph_temporal_agent.Agent.{
  supervisor, agent, tools, limit, invalid, end, Message, AgentName, AiMessage, AgentState,
  ActiveAgent, Node, human, graph_recursion_limit,
}
use langgraph_temporal_agent.Agent.Path.{
  IsOnPath, IsNext, steps_left, superstep-IsOnPath, append_nil,
}
use langgraph_temporal_agent.Agent.Run.{Ended, finished, failed, ask, run, superstep, request_state}
use langgraph_temporal_agent.Prelude.{
  some, none, arith, suc, ◌∷◌, refl, zero, [], List, Option, ℕ, ◌++◌, ◌≤◌, sym,
}
use langgraph_temporal_agent.Text.{Text}

-- An end other than GraphRecursionError: an exception of a model or a tool, or an answer.
pub data IsAnswered {W : Type 0} (start : List Message) (user_id : Text) : Ended W → Type 0 where
  answered :
      (s : AgentState) (w : W)
      → IsOnPath start user_id end s
      → IsAnswered start user_id (finished s w)
  broken : (w : W) → IsAnswered start user_id (failed w)

module _ {W : Type 0} (model : Option AgentName → List Message → W → Option AiMessage × W)
    (tool_node : List Text → AgentState → W → Option (List Message) × W) (start : List Message)
    (user_id : Text) where
  -- That `fuel` supersteps are enough from every node with no more steps left.
  abbrev IsEnough : ℕ → Type 0
  IsEnough fuel =
      (node : Node) (s : AgentState) (w : W)
      → IsOnPath start user_id node s
      → steps_left node s ≤ fuel
      → IsAnswered start user_id (run model tool_node fuel node s w)

  enough_after :
      (fuel left : ℕ) (r : Option (Node × AgentState)) (w : W)
      → IsEnough fuel
      → IsNext start user_id left r
      → left ≤ suc fuel
      → IsAnswered start user_id
          (elim r [ none ↦ failed w | some p ↦ run model tool_node fuel p.0 p.1 w ])
  enough_after fuel left none w enough next small = broken w
  enough_after fuel left (some (node, s)) w enough next small =
      enough node s w next.0 (omega (arith, next.1))

  enough_step :
      (fuel : ℕ) (node : Node) (s : AgentState) (w : W)
      → IsEnough fuel
      → IsOnPath start user_id node s
      → 1 ≤ steps_left node s
      → steps_left node s ≤ suc fuel
      → IsAnswered start user_id (elim (superstep model tool_node node s w).0 [
        | none ↦ failed (superstep model tool_node node s w).1
        | some p ↦ run model tool_node fuel p.0 p.1 (superstep model tool_node node s w).1
      ])
  enough_step fuel node s w enough h more small =
      enough_after fuel (steps_left node s) _ _ enough
        (superstep-IsOnPath start user_id model tool_node node s w h more) small

  run-IsEnough : (fuel : ℕ) → IsEnough fuel
  unfolding run
  run-IsEnough fuel end s w h small = answered s w h
  run-IsEnough zero supervisor s w h small = absurd (omega arith)
  run-IsEnough zero (agent a) s w h small = absurd (omega (arith, h.place.1))
  run-IsEnough zero (tools a) s w h small = absurd (omega arith)
  run-IsEnough zero limit s w h small = absurd (omega arith)
  run-IsEnough zero invalid s w h small = absurd (omega arith)
  run-IsEnough (suc fuel) supervisor s w h small =
      enough_step fuel supervisor s w (run-IsEnough fuel) h (omega arith) small
  run-IsEnough (suc fuel) (agent a) s w h small =
      enough_step fuel (agent a) s w (run-IsEnough fuel) h (omega (arith, h.place.1)) small
  run-IsEnough (suc fuel) (tools a) s w h small =
      enough_step fuel (tools a) s w (run-IsEnough fuel) h (omega arith) small
  run-IsEnough (suc fuel) limit s w h small =
      enough_step fuel limit s w (run-IsEnough fuel) h (omega arith) small
  run-IsEnough (suc fuel) invalid s w h small =
      enough_step fuel invalid s w (run-IsEnough fuel) h (omega arith) small

-- Whatever the models and the tools answer, a request never runs into LangGraph's recursion limit:
-- it ends with an exception of a model or a tool, or with the conversation as it was, extended by
-- messages of which the last is the assistant's, with no tool call in it, and acting for the
-- request's user.
pub ask-IsAnswered :
    {W : Type 0} (model : Option AgentName → List Message → W → Option AiMessage × W)
    (tool_node : List Text → AgentState → W → Option (List Message) × W) (history : List Message)
    (last_agent : ActiveAgent) (user_message user_id : Text) (w : W)
    → IsAnswered
        (history ++ human user_message ∷ [])
        user_id
        (ask model tool_node history last_agent user_message user_id w)
unfolding ask
ask-IsAnswered model tool_node history last_agent user_message user_id w =
    run-IsEnough model tool_node (history ++ human user_message ∷ []) user_id graph_recursion_limit
      supervisor (request_state history last_agent user_message user_id) w
      (record {
        place = refl;
        user = refl;
        new = [];
        grown = sym (append_nil (history ++ human user_message ∷ []));
      })
      (omega arith)

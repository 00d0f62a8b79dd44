-- ===== src/Agent/Calls.antt =====
-- What the tools are ever called with.
use langgraph_temporal_agent.Agent.{
  supervisor, agent, tools, limit, invalid, end, AgentName, AgentState, Message, AiMessage,
  specialist_tools, ActiveAgent, active, Node, human, max_agent_iterations, graph_recursion_limit,
}
use langgraph_temporal_agent.Agent.Run.{failed, request_state}
use langgraph_temporal_agent.Agent.Path.{
  IsOnPath, IsNext, steps_left, superstep-IsOnPath, append_nil,
}
use langgraph_temporal_agent.Prelude.{
  zero, refl, suc, none, some, ◌∷◌, [], arith, Option, List, ◌≡◌, ℕ, ◌++◌, ◌<◌, ap, ◌≤◌, ◌∙◌, sym,
}
use langgraph_temporal_agent.Text.{Text}
use langgraph_temporal_agent.Agent.Run.{ask, superstep, run, after_tools}

-- A call of the tool node that a request of `user_id` may make: the tools of the specialist that is
-- active, the request's user as the injected `user_id`, and at most two of the three iterations done.
pub record IsToolCall (user_id : Text) (names : List Text) (s : AgentState) : Type 0 where
  pub agent_name : AgentName
  pub granted : names ≡ specialist_tools agent_name
  pub chosen : s.active_agent ≡ active agent_name
  pub injected : s.user_id ≡ user_id
  pub within : s.iteration_count < max_agent_iterations

module _ {W : Type 0} (model : Option AgentName → List Message → W → Option AiMessage × W)
    (tool_node tool_node' : List Text → AgentState → W → Option (List Message) × W)
    (start : List Message) (user_id : Text)
    (agree : (names : List Text) (s : AgentState) (w : W)
      → IsToolCall user_id names s
      → tool_node names s w ≡ tool_node' names s w) where
  superstep_agree :
      (node : Node) (s : AgentState) (w : W)
      → IsOnPath start user_id node s
      → superstep model tool_node node s w ≡ superstep model tool_node' node s w
  unfolding superstep
  superstep_agree supervisor s w h = refl
  superstep_agree (agent a) s w h = refl
  superstep_agree (tools a) s w h =
      ap (λ out. (after_tools a s out.0, out.1))
        (agree (specialist_tools a) s w (record {
          agent_name = a;
          granted = refl;
          chosen = h.place.0;
          injected = h.user;
          within = h.place.2;
        }))
  superstep_agree limit s w h = refl
  superstep_agree invalid s w h = refl
  superstep_agree end s w h = refl

  abbrev IsSame : ℕ → Type 0
  IsSame fuel =
      (node : Node) (s : AgentState) (w : W)
      → IsOnPath start user_id node s
      → run model tool_node fuel node s w ≡ run model tool_node' fuel node s w

  same_after :
      (fuel left : ℕ) (r : Option (Node × AgentState)) (w : W)
      → IsSame fuel
      → IsNext start user_id left r
      → (elim r [ none ↦ failed w | some p ↦ run model tool_node fuel p.0 p.1 w ])
        ≡ (elim r [ none ↦ failed w | some p ↦ run model tool_node' fuel p.0 p.1 w ])
  same_after fuel left none w same next = refl
  same_after fuel left (some (node, s)) w same next = same node s w next.0

  same_step :
      (fuel : ℕ) (node : Node) (s : AgentState) (w : W)
      → IsSame fuel
      → IsOnPath start user_id node s
      → 1 ≤ steps_left node s
      → (elim (superstep model tool_node node s w).0 [
        | none ↦ failed (superstep model tool_node node s w).1
        | some p ↦ run model tool_node fuel p.0 p.1 (superstep model tool_node node s w).1
      ])
        ≡ (elim (superstep model tool_node' node s w).0 [
          | none ↦ failed (superstep model tool_node' node s w).1
          | some p ↦ run model tool_node' fuel p.0 p.1 (superstep model tool_node' node s w).1
        ])
  same_step fuel node s w same h more =
      same_after fuel (steps_left node s) _ _ same
        (superstep-IsOnPath start user_id model tool_node node s w h more)
      ∙ ap
          (λ (out : Option (Node × AgentState) × W). elim out.0 [
            | none ↦ failed out.1
            | some p ↦ run model tool_node' fuel p.0 p.1 out.1
          ])
          (superstep_agree node s w h)

  run-IsSame : (fuel : ℕ) → IsSame fuel
  unfolding run
  run-IsSame fuel end s w h = refl
  run-IsSame zero supervisor s w h = refl
  run-IsSame zero (agent a) s w h = refl
  run-IsSame zero (tools a) s w h = refl
  run-IsSame zero limit s w h = refl
  run-IsSame zero invalid s w h = refl
  run-IsSame (suc fuel) supervisor s w h =
      same_step fuel supervisor s w (run-IsSame fuel) h (omega arith)
  run-IsSame (suc fuel) (agent a) s w h =
      same_step fuel (agent a) s w (run-IsSame fuel) h (omega (arith, h.place.1))
  run-IsSame (suc fuel) (tools a) s w h =
      same_step fuel (tools a) s w (run-IsSame fuel) h (omega arith)
  run-IsSame (suc fuel) limit s w h = same_step fuel limit s w (run-IsSame fuel) h (omega arith)
  run-IsSame (suc fuel) invalid s w h = same_step fuel invalid s w (run-IsSame fuel) h (omega arith)

-- The outcome of a request depends on the tools only through calls with the tools of the specialist
-- that the supervisor has made active, the request's own user and fewer than three iterations done:
-- tools that behave alike on these calls give the same outcome, whatever the models answer.
pub ask_tool_calls :
    {W : Type 0} (model : Option AgentName → List Message → W → Option AiMessage × W)
    (tool_node tool_node' : List Text → AgentState → W → Option (List Message) × W)
    (history : List Message) (last_agent : ActiveAgent) (user_message user_id : Text) (w : W)
    → ((names : List Text) (s : AgentState) (w : W)
        → IsToolCall user_id names s
        → tool_node names s w ≡ tool_node' names s w)
    → ask model tool_node history last_agent user_message user_id w
      ≡ ask model tool_node' history last_agent user_message user_id w
unfolding ask
ask_tool_calls model tool_node tool_node' history last_agent user_message user_id w agree =
    run-IsSame model tool_node tool_node' (history ++ human user_message ∷ []) user_id agree
      graph_recursion_limit supervisor (request_state history last_agent user_message user_id) w
      (record {
        place = refl;
        user = refl;
        new = [];
        grown = sym (append_nil (history ++ human user_message ∷ []));
      })

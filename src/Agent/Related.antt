-- ===== src/Agent/Related.antt =====
-- Two worlds that a request cannot tell apart.
use langgraph_temporal_agent.Agent.{
  supervisor, agent, tools, limit, invalid, end, AgentState, AgentName, Message, AiMessage, Node,
  call_supervisor, call_specialist, iteration_limit_response, ActiveAgent,
  invalid_tool_call_response, graph_recursion_limit, specialist_tools,
}
use langgraph_temporal_agent.Agent.Run.{
  Ended, finished, failed, recursion_error, run, ask, superstep, request_state, after_supervisor,
  after_specialist, after_tools,
}
use langgraph_temporal_agent.Prelude.{◌≡◌, zero, suc, refl, none, some, Option, List, ℕ, ap}
use langgraph_temporal_agent.Text.{Text}

-- The same end, with the same conversation, in worlds that are still alike.
pub data SameEnd {W : Type 0} (R : W → W → Type 0) : Ended W → Ended W → Type 0 where
  both_finished : (s : AgentState) (w w' : W) → R w w' → SameEnd R (finished s w) (finished s w')
  both_failed : (w w' : W) → R w w' → SameEnd R (failed w) (failed w')
  both_stopped : (w w' : W) → R w w' → SameEnd R (recursion_error w) (recursion_error w')

-- A call that answers alike in worlds that are alike, and leaves them alike.
abbrev pub IsAlike : {W A : Type 0} → (W → W → Type 0) → A × W → A × W → Type 0
IsAlike R (a, w) (a', w') = (a ≡ a') × R w w'

abbrev pub IsModelAlike :
    {W : Type 0}
    → (W → W → Type 0)
    → (Option AgentName → List Message → W → Option AiMessage × W)
    → Type 0
IsModelAlike {W} R model =
    (who : Option AgentName) (ms : List Message) (w w' : W)
    → R w w'
    → IsAlike R (model who ms w) (model who ms w')

abbrev pub IsNodeAlike :
    {W : Type 0}
    → (W → W → Type 0)
    → Text
    → (List Text → AgentState → W → Option (List Message) × W)
    → Type 0
IsNodeAlike {W} R user_id tool_node =
    (names : List Text) (s : AgentState) (w w' : W)
    → s.user_id ≡ user_id
    → R w w'
    → IsAlike R (tool_node names s w) (tool_node names s w')

module _ {W : Type 0} (R : W → W → Type 0) (user_id : Text)
    (model : Option AgentName → List Message → W → Option AiMessage × W)
    (tool_node : List Text → AgentState → W → Option (List Message) × W)
    (model_alike : IsModelAlike R model) (node_alike : IsNodeAlike R user_id tool_node) where
  -- The next state still acts for the user.
  abbrev IsFor : Option (Node × AgentState) → Type 0
  IsFor none = Unit
  IsFor (some (node, s)) = s.user_id ≡ user_id

  superstep-IsAlike :
      (node : Node) (s : AgentState) (w w' : W)
      → s.user_id ≡ user_id
      → R w w'
      → IsAlike R (superstep model tool_node node s w) (superstep model tool_node node s w')
  unfolding superstep
  superstep-IsAlike supervisor s w w' u r =
      let (same, r') = model_alike none s.messages w w' r in (ap (after_supervisor s) same, r')
  superstep-IsAlike (agent a) s w w' u r =
      let (same, r') = model_alike (some a) s.messages w w' r in
      (ap (after_specialist a s) same, r')
  superstep-IsAlike (tools a) s w w' u r =
      let (same, r') = node_alike (specialist_tools a) s w w' u r in (ap (after_tools a s) same, r')
  superstep-IsAlike limit s w w' u r = (refl, r)
  superstep-IsAlike invalid s w w' u r = (refl, r)
  superstep-IsAlike end s w w' u r = (refl, r)

  after_supervisor-IsFor :
      (s : AgentState) (r : Option AiMessage) → s.user_id ≡ user_id → IsFor (after_supervisor s r)
  unfolding after_supervisor call_supervisor
  after_supervisor-IsFor s none u = tt
  after_supervisor-IsFor s (some r) u = u

  after_specialist-IsFor :
      (a : AgentName) (s : AgentState) (r : Option AiMessage)
      → s.user_id ≡ user_id
      → IsFor (after_specialist a s r)
  unfolding after_specialist call_specialist
  after_specialist-IsFor a s none u = tt
  after_specialist-IsFor a s (some r) u = u

  after_tools-IsFor :
      (a : AgentName) (s : AgentState) (r : Option (List Message))
      → s.user_id ≡ user_id
      → IsFor (after_tools a s r)
  unfolding after_tools
  after_tools-IsFor a s none u = tt
  after_tools-IsFor a s (some r) u = u

  superstep-IsFor :
      (node : Node) (s : AgentState) (w : W)
      → s.user_id ≡ user_id
      → IsFor (superstep model tool_node node s w).0
  unfolding superstep iteration_limit_response invalid_tool_call_response
  superstep-IsFor supervisor s w u = after_supervisor-IsFor s (model none s.messages w).0 u
  superstep-IsFor (agent a) s w u = after_specialist-IsFor a s (model (some a) s.messages w).0 u
  superstep-IsFor (tools a) s w u = after_tools-IsFor a s (tool_node (specialist_tools a) s w).0 u
  superstep-IsFor limit s w u = u
  superstep-IsFor invalid s w u = u
  superstep-IsFor end s w u = u

  abbrev IsRunAlike : ℕ → Type 0
  IsRunAlike fuel =
      (node : Node) (s : AgentState) (w w' : W)
      → s.user_id ≡ user_id
      → R w w'
      → SameEnd R (run model tool_node fuel node s w) (run model tool_node fuel node s w')

  alike_after :
      (fuel : ℕ) (r r' : Option (Node × AgentState)) (w w' : W)
      → IsRunAlike fuel
      → IsFor r
      → r ≡ r'
      → R w w'
      → SameEnd R
          (elim r [ none ↦ failed w | some p ↦ run model tool_node fuel p.0 p.1 w ])
          (elim r' [ none ↦ failed w' | some p ↦ run model tool_node fuel p.0 p.1 w' ])
  alike_after fuel none r' w w' alike u e rel = rw (← e) (both_failed w w' rel)
  alike_after fuel (some (node, s)) r' w w' alike u e rel = rw (← e) (alike node s w w' u rel)

  alike_step :
      (fuel : ℕ) (node : Node) (s : AgentState) (w w' : W)
      → IsRunAlike fuel
      → s.user_id ≡ user_id
      → R w w'
      → SameEnd R
          (elim (superstep model tool_node node s w).0 [
            | none ↦ failed (superstep model tool_node node s w).1
            | some p ↦ run model tool_node fuel p.0 p.1 (superstep model tool_node node s w).1
          ])
          (elim (superstep model tool_node node s w').0 [
            | none ↦ failed (superstep model tool_node node s w').1
            | some p ↦ run model tool_node fuel p.0 p.1 (superstep model tool_node node s w').1
          ])
  alike_step fuel node s w w' alike u rel =
      let (same, rel') = superstep-IsAlike node s w w' u rel in
      alike_after fuel _ _ _ _ alike (superstep-IsFor node s w u) same rel'

  run-IsRunAlike : (fuel : ℕ) → IsRunAlike fuel
  unfolding run
  run-IsRunAlike fuel end s w w' u r = both_finished s w w' r
  run-IsRunAlike zero supervisor s w w' u r = both_stopped w w' r
  run-IsRunAlike zero (agent a) s w w' u r = both_stopped w w' r
  run-IsRunAlike zero (tools a) s w w' u r = both_stopped w w' r
  run-IsRunAlike zero limit s w w' u r = both_stopped w w' r
  run-IsRunAlike zero invalid s w w' u r = both_stopped w w' r
  run-IsRunAlike (suc fuel) supervisor s w w' u r =
      alike_step fuel supervisor s w w' (run-IsRunAlike fuel) u r
  run-IsRunAlike (suc fuel) (agent a) s w w' u r =
      alike_step fuel (agent a) s w w' (run-IsRunAlike fuel) u r
  run-IsRunAlike (suc fuel) (tools a) s w w' u r =
      alike_step fuel (tools a) s w w' (run-IsRunAlike fuel) u r
  run-IsRunAlike (suc fuel) limit s w w' u r =
      alike_step fuel limit s w w' (run-IsRunAlike fuel) u r
  run-IsRunAlike (suc fuel) invalid s w w' u r =
      alike_step fuel invalid s w w' (run-IsRunAlike fuel) u r

  -- A request of this user ends alike in worlds that are alike to the models and to this user's tools.
  pub ask-SameEnd :
      (history : List Message) (last_agent : ActiveAgent) (user_message : Text) (w w' : W)
      → R w w'
      → SameEnd R
          (ask model tool_node history last_agent user_message user_id w)
          (ask model tool_node history last_agent user_message user_id w')
  unfolding ask
  ask-SameEnd history last_agent user_message w w' r =
      run-IsRunAlike graph_recursion_limit supervisor
        (request_state history last_agent user_message user_id) w w' refl r

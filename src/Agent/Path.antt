-- ===== src/Agent/Path.antt =====
-- What holds whenever a node of the graph is about to run.
use langgraph_temporal_agent.Prelude.{
  ℕ, ◌+◌, ◌-◌, ◌*◌, ◌≤◌, ◌<◌, ◌≡◌, Option, none, some, List, [], ◌∷◌, ◌++◌, refl, arith, ◌∙◌, ap,
  Bool-cases, inl, inr, leb,
}
use langgraph_temporal_agent.Text.{Text}
use langgraph_temporal_agent.Agent.{
  invalid_agent, AgentName, AgentState, AiMessage, Message, Node, ToolCall, ai, active,
  call_supervisor, call_specialist, iteration_limit_response, invalid_tool_call_response,
  route_supervisor, route_specialist_output, route_response, max_agent_iterations, supervisor,
  agent, tools, limit, invalid, end, ActiveAgent, selected_agent, specialist_tools,
}
use langgraph_temporal_agent.Agent.Run.{superstep, after_supervisor, after_specialist, after_tools}

-- The conversation ends with a message of the assistant that asks for no tool.
pub record HasAnswer (s : AgentState) : Type 0 where
  pub before : List Message
  pub answer : AiMessage
  pub last : s.messages ≡ before ++ ai answer ∷ []
  pub settled : answer.tool_calls ≡ []
  pub readable : answer.invalid_tool_calls ≡ []

-- By the node: what the iterations and the active agent are.
abbrev pub IsAt : Node → AgentState → Type 0
IsAt supervisor s = s.iteration_count ≡ 0
IsAt (agent a) s = (s.active_agent ≡ active a) × (s.iteration_count < max_agent_iterations)
IsAt (tools a) s =
    (s.active_agent ≡ active a)
    × (1 ≤ s.iteration_count)
    × (s.iteration_count < max_agent_iterations)
IsAt limit s = Unit
IsAt invalid s = Unit
IsAt end s = HasAnswer s

-- The conversation has only grown since the request, and acts for the request's user.
pub record IsOnPath (start : List Message) (user_id : Text) (node : Node) (s : AgentState)
    : Type 0 where
  pub place : IsAt node s
  pub user : s.user_id ≡ user_id
  pub new : List Message
  pub grown : s.messages ≡ start ++ new

-- The supersteps that a node may still take.
abbrev pub steps_left : Node → AgentState → ℕ
steps_left supervisor s = 2 * max_agent_iterations + 1
steps_left (agent a) s = 2 * (max_agent_iterations - s.iteration_count)
steps_left (tools a) s = 2 * (max_agent_iterations - s.iteration_count) + 1
steps_left limit s = 1
steps_left invalid s = 1
steps_left end s = 0

abbrev pub IsNext : List Message → Text → ℕ → Option (Node × AgentState) → Type 0
IsNext start user_id left none = Unit
IsNext start user_id left (some (node, s)) =
    IsOnPath start user_id node s × (steps_left node s < left)

append_assoc : (xs ys zs : List Message) → (xs ++ ys) ++ zs ≡ xs ++ (ys ++ zs)
append_assoc [] ys zs = refl
append_assoc (x ∷ xs) ys zs = ap (λ l. x ∷ l) (append_assoc xs ys zs)

pub append_nil : (xs : List Message) → xs ++ [] ≡ xs
append_nil [] = refl
append_nil (x ∷ xs) = ap (λ l. x ∷ l) (append_nil xs)

module _ (start : List Message) (user_id : Text) where
  -- A node that appends messages, and is followed by `node'`.
  IsOnPath-append :
      (node node' : Node) (s s' : AgentState) (more : List Message)
      → IsOnPath start user_id node s
      → s'.messages ≡ s.messages ++ more
      → s'.user_id ≡ s.user_id
      → IsAt node' s'
      → IsOnPath start user_id node' s'
  IsOnPath-append node node' s s' more h added same place = record {
    place = place;
    user = same ∙ h.user;
    new = h.new ++ more;
    grown = added ∙ ap (λ l. l ++ more) h.grown ∙ append_assoc start h.new more;
  }

  supervisor-IsNext :
      (s : AgentState) (r : AiMessage)
      → IsOnPath start user_id supervisor s
      → (a : ActiveAgent) → selected_agent r ≡ a
      → IsNext start user_id (2 * max_agent_iterations + 1) (after_supervisor s (some r))
  unfolding after_supervisor call_supervisor route_supervisor
  supervisor-IsNext s r h (active a) e = rw e (
    record { place = (refl, omega (arith, h.place)); user = h.user; new = h.new; grown = h.grown },
    omega (arith, h.place),
  )
  supervisor-IsNext s r h invalid_agent e =
      rw e (record { place = tt; user = h.user; new = h.new; grown = h.grown }, omega arith)

  specialist-IsNext :
      (a : AgentName) (s : AgentState) (content : Text) (calls bad : List ToolCall)
      → IsOnPath start user_id (agent a) s
      → IsNext start user_id (2 * (max_agent_iterations - s.iteration_count)) (
          after_specialist a s
            (some (record { content = content; tool_calls = calls; invalid_tool_calls = bad })))
  unfolding after_specialist call_specialist route_specialist_output route_response
  specialist-IsNext a s content calls (b ∷ bad) h =
      (IsOnPath-append (agent a) invalid s _ _ h refl refl tt, omega (arith, h.place.1))
  specialist-IsNext a s content [] [] h = (
    IsOnPath-append (agent a) end s _ _ h refl refl
        (record { before = s.messages; answer = _; last = refl; settled = refl; readable = refl }),
    omega (arith, h.place.1),
  )
  specialist-IsNext a s content (c ∷ calls) [] h =
      elim (Bool-cases (leb max_agent_iterations (s.iteration_count + 1))) [
        | inl over ↦
            rw over (IsOnPath-append (agent a) limit s _ _ h refl refl tt, omega (arith, h.place.1))
        | inr under ↦
            let below : s.iteration_count + 1 < 3 = ground arith in
            rw under (
              IsOnPath-append (agent a) (tools a) s _ _ h refl refl (refl, omega arith, below),
              omega (arith, h.place.1, below),
            )
      ]

  tools-IsNext :
      (a : AgentName) (s : AgentState) (r : Option (List Message))
      → IsOnPath start user_id (tools a) s
      → IsNext start user_id
          (2 * (max_agent_iterations - s.iteration_count) + 1)
          (after_tools a s r)
  unfolding after_tools
  tools-IsNext a s none h = tt
  tools-IsNext a s (some ms) h =
      (IsOnPath-append (tools a) (agent a) s _ ms h refl refl (h.place.0, h.place.2), omega arith)

  module _ {W : Type 0} (model : Option AgentName → List Message → W → Option AiMessage × W)
      (tool_node : List Text → AgentState → W → Option (List Message) × W) where
    supervisor-IsNext_of_model :
        (s : AgentState) (r : Option AiMessage)
        → IsOnPath start user_id supervisor s
        → IsNext start user_id (2 * max_agent_iterations + 1) (after_supervisor s r)
    unfolding after_supervisor
    supervisor-IsNext_of_model s none h = tt
    supervisor-IsNext_of_model s (some r) h = supervisor-IsNext s r h (selected_agent r) refl

    specialist-IsNext_of_model :
        (a : AgentName) (s : AgentState) (r : Option AiMessage)
        → IsOnPath start user_id (agent a) s
        → IsNext start user_id
            (2 * (max_agent_iterations - s.iteration_count))
            (after_specialist a s r)
    unfolding after_specialist
    specialist-IsNext_of_model a s none h = tt
    specialist-IsNext_of_model a s (some r) h =
        specialist-IsNext a s r.content r.tool_calls r.invalid_tool_calls h

    -- A superstep keeps to the path, and takes one of the steps that are left.
    pub superstep-IsOnPath :
        (node : Node) (s : AgentState) (w : W)
        → IsOnPath start user_id node s
        → 1 ≤ steps_left node s
        → IsNext start user_id (steps_left node s) (superstep model tool_node node s w).0
    unfolding superstep iteration_limit_response invalid_tool_call_response
    superstep-IsOnPath supervisor s w h more =
        supervisor-IsNext_of_model s (model none s.messages w).0 h
    superstep-IsOnPath (agent a) s w h more =
        specialist-IsNext_of_model a s (model (some a) s.messages w).0 h
    superstep-IsOnPath (tools a) s w h more =
        tools-IsNext a s (tool_node (specialist_tools a) s w).0 h
    superstep-IsOnPath limit s w h more = (
      IsOnPath-append limit end s _ _ h refl refl (record {
        before = s.messages;
        answer = _;
        last = refl;
        settled = refl;
        readable = refl;
      }),
      omega arith,
    )
    superstep-IsOnPath invalid s w h more = (
      IsOnPath-append invalid end s _ _ h refl refl (record {
        before = s.messages;
        answer = _;
        last = refl;
        settled = refl;
        readable = refl;
      }),
      omega arith,
    )
    superstep-IsOnPath end s w h more = absurd (omega arith)

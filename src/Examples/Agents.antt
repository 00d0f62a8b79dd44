-- ===== src/Examples/Agents.antt =====
-- A request whose specialist asks for a tool at every turn.
use langgraph_temporal_agent.Agent.Run.{ask}
use langgraph_temporal_agent.Agent.Answer.{IsAnswered, ask-IsAnswered}
use langgraph_temporal_agent.Agent.Calls.{IsToolCall, ask_tool_calls}
use langgraph_temporal_agent.Examples.Sample.{alice}
use langgraph_temporal_agent.Prelude.{
  suc, none, ◌∷◌, some, [], refl, Option, List, ℕ, ◌≡◌, if◌then◌else◌,
}
use langgraph_temporal_agent.Text.{Text, text_eq, codes}
use langgraph_temporal_agent.Agent.{
  human, invalid_agent, AiMessage, AgentName, AgentState, Message, tool_result,
}

abbrev calling : Text → AiMessage
calling name = record {
  content = [];
  tool_calls = record { name = name; args = [] } ∷ [];
  invalid_tool_calls = [];
}

-- The supervisor hands over to the order actions; the specialist always calls `cancel_order`.
abbrev eager : Option AgentName → List Message → ℕ → Option AiMessage × ℕ
eager none ms w = (some (calling (codes "delegate_to_order_actions")), w)
eager (some a) ms w = (some (calling (codes "cancel_order")), w)

-- The tools count their calls.
abbrev counted : List Text → AgentState → ℕ → Option (List Message) × ℕ
counted names s w = (some (tool_result (codes "accepted") ∷ []), suc w)

-- The same, but only for alice.
abbrev counted_for_alice : List Text → AgentState → ℕ → Option (List Message) × ℕ
counted_for_alice names s w = if text_eq s.user_id alice then counted names s w else (none, w)

ask-IsAnswered_example :
    IsAnswered
      (human (codes "cancel ORD-003") ∷ [])
      alice
      (ask eager counted [] invalid_agent (codes "cancel ORD-003") alice 0)
ask-IsAnswered_example =
    ask-IsAnswered eager counted [] invalid_agent (codes "cancel ORD-003") alice 0

counted-for_alice :
    (names : List Text) (s : AgentState) (w : ℕ)
    → IsToolCall alice names s
    → counted names s w ≡ counted_for_alice names s w
unfolding text_eq
counted-for_alice names s w h = rw h.injected refl

ask_tool_calls_example :
    ask eager counted [] invalid_agent (codes "cancel ORD-003") alice 0
    ≡ ask eager counted_for_alice [] invalid_agent (codes "cancel ORD-003") alice 0
ask_tool_calls_example =
    ask_tool_calls eager counted counted_for_alice [] invalid_agent (codes "cancel ORD-003") alice 0
      counted-for_alice

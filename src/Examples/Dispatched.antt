-- ===== src/Examples/Dispatched.antt =====
-- A chat over the tools, with a node that runs the calls of the last message.
use langgraph_temporal_agent.Prelude.{
  some, refl, [], ◌∷◌, none, List, Option, suc, ap, Bool, ℕ, leb, length,
}
use langgraph_temporal_agent.Agent.{
  Message, ToolCall, ai, tool_result, human, AiMessage, AgentName, invalid_agent,
}
use langgraph_temporal_agent.Tools.Dispatch.Privacy.{
  ToolRun, ToolNode, IsToolNode, chat, world_of, chat-SameEnd, chat-IsKept,
}
use langgraph_temporal_agent.Tools.Dispatch.Kept.{IsKept}
use langgraph_temporal_agent.Tools.Dispatch.{ToolAnswer}
use langgraph_temporal_agent.Text.{Text, codes, text_eq}
use langgraph_temporal_agent.Agent.Related.{IsAlike, SameEnd}
use langgraph_temporal_agent.Tools.Dispatch.{status}
use langgraph_temporal_agent.Database.Schema.{refunded, delivered, Database, paid}
use langgraph_temporal_agent.Tools.Actions.{WorkflowKind}
use langgraph_temporal_agent.Examples.Sample.{
  shop, alice, order_of, home_printer, everyday_laptop, bob,
}
use langgraph_temporal_agent.Workflows.Activities.{OrderActionInput}
use langgraph_temporal_agent.Tools.Dispatch.SameRows.{SameWorld, IsSameFor}
use langgraph_temporal_agent.Database.Listing.{database_counts}

abbrev calls_in : Message → List ToolCall
calls_in (ai m) = m.tool_calls
calls_in (human _) = []
calls_in (tool_result _) = []

last_calls : List Message → List ToolCall
last_calls [] = []
last_calls (m ∷ []) = calls_in m
last_calls (m ∷ n ∷ ms) = last_calls (n ∷ ms)

abbrev told : Option ToolAnswer → Message
told none = tool_result (codes "error")
told (some (status _)) = tool_result (codes "status")
told (some _) = tool_result (codes "done")

run_calls : {W : Type 0} → ToolRun W → Text → List ToolCall → W → List Message × W
run_calls tool user_id [] w = ([], w)
run_calls tool user_id (call ∷ calls) w =
    let (a, w1) = tool user_id call w in
    let (ms, w2) = run_calls tool user_id calls w1 in (told a ∷ ms, w2)

abbrev node : {W : Type 0} → ToolNode W
node tool names s w =
    let (ms, w') = run_calls tool s.user_id (last_calls s.messages) w in (some ms, w')

run_calls-IsAlike :
    {W : Type 0} (R : W → W → Type 0) (tool : ToolRun W) (user_id : Text)
    → ((call : ToolCall) (v v' : W)
        → R v v'
        → IsAlike R (tool user_id call v) (tool user_id call v'))
    → (calls : List ToolCall) (w w' : W) → R w w'
    → IsAlike R (run_calls tool user_id calls w) (run_calls tool user_id calls w')
unfolding run_calls
run_calls-IsAlike R tool user_id h [] w w' r = (refl, r)
run_calls-IsAlike R tool user_id h (call ∷ calls) w w' r =
    let (same, r1) = h call w w' r in
    let (sames, r2) = run_calls-IsAlike R tool user_id h calls _ _ r1 in (cc (same, sames), r2)

node-IsToolNode : {W : Type 0} → IsToolNode {W = W} node
node-IsToolNode R tool names s w w' h r =
    let (same, r') = run_calls-IsAlike R tool s.user_id h (last_calls s.messages) w w' r in
    (ap some same, r')

-- The supervisor hands over; the specialist cancels an order at every turn.
abbrev delegating : AiMessage
delegating = record {
  content = [];
  tool_calls = record { name = codes "delegate_to_order_actions"; args = [] } ∷ [];
  invalid_tool_calls = [];
}

abbrev asking : AiMessage
asking = record {
  content = [];
  tool_calls =
      record { name = codes "cancel_order"; args = (codes "order_id", codes "ORD-003") ∷ [] } ∷ [];
  invalid_tool_calls = [];
}

abbrev model : Option AgentName → List Message → ℕ → Option AiMessage × ℕ
model none ms w = (some delegating, w)
model (some a) ms w = (some asking, w)

abbrev counting : WorkflowKind → OrderActionInput → Text → ℕ → Text × ℕ
counting kind input id s = (codes "run", suc s)

abbrev alphabetical : Text → Text → Bool
alphabetical a b = leb (length a) (length b)

-- The sample database without what is bob's, but with as many orders.
unfoldable other_shop : Database
unfolding shop
other_shop = record shop {
  orders =
      order_of 1 alice home_printer delivered
      ∷ order_of 2 alice everyday_laptop delivered
      ∷ order_of 3 alice home_printer paid
      ∷ order_of 4 bob home_printer delivered
      ∷ order_of 5 bob home_printer refunded
      ∷ [];
}

shops-IsSameFor : IsSameFor alice shop other_shop
unfolding shop other_shop text_eq database_counts
shops-IsSameFor = record { orders = refl; memories = refl; counts = refl }

chat-SameEnd_example :
    SameEnd
      (SameWorld alice)
      (chat counting alphabetical 9 model node [] invalid_agent
        (codes "cancel ORD-003")
        alice
        node-IsToolNode
        shop
        0)
      (chat counting alphabetical 9 model node [] invalid_agent
        (codes "cancel ORD-003")
        alice
        node-IsToolNode
        other_shop
        0)
chat-SameEnd_example =
    chat-SameEnd counting alphabetical 9 model node [] invalid_agent (codes "cancel ORD-003") alice
      node-IsToolNode shop other_shop 0 shops-IsSameFor

chat-IsKept_example :
    IsKept alice shop
      (world_of (
        chat counting alphabetical 9 model node [] invalid_agent
          (codes "cancel ORD-003")
          alice
          node-IsToolNode
          shop
          0)).0
chat-IsKept_example =
    chat-IsKept counting alphabetical 9 model node [] invalid_agent (codes "cancel ORD-003") alice
      node-IsToolNode shop 0

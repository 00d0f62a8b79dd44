-- ===== src/Tools/Dispatch/Privacy.antt =====
-- A whole chat request, with the tools on the database: what it can learn, and what it can change.
use langgraph_temporal_agent.Prelude.{◌≡◌, refl, List, Option, Bool, ℕ, ap}
use langgraph_temporal_agent.Agent.Related.{
  IsAlike, SameEnd, ask-SameEnd, both_finished, both_failed, both_stopped,
}
use langgraph_temporal_agent.Agent.Run.{Ended, finished, failed, recursion_error, ask}
use langgraph_temporal_agent.Tools.Dispatch.{call_tool, ToolAnswer, tool_named}
use langgraph_temporal_agent.Text.{Text}
use langgraph_temporal_agent.Tools.Actions.{WorkflowKind}
use langgraph_temporal_agent.Agent.{
  ToolCall, AgentState, AgentName, Message, AiMessage, ActiveAgent,
}
use langgraph_temporal_agent.Database.Schema.{Database}
use langgraph_temporal_agent.Workflows.Activities.{OrderActionInput}
use langgraph_temporal_agent.Tools.Dispatch.Alike.{call_tool_same}
use langgraph_temporal_agent.Tools.Dispatch.SameRows.{IsSameFor, SameWorld}
use langgraph_temporal_agent.Tools.Dispatch.Kept.{IsKept, call_named-IsKept}

-- A tool's function as ToolNode is given it: the injected user, the call, the world.
abbrev pub ToolRun : Type 0 → Type 0
ToolRun W = Text → ToolCall → W → Option ToolAnswer × W

abbrev pub ToolNode : Type 0 → Type 0
ToolNode W = ToolRun W → List Text → AgentState → W → Option (List Message) × W

-- ToolNode acts on the world through its tools only, and injects the `user_id` of the state: where every
-- call of a tool for that user answers alike in alike worlds and leaves them alike, so does the node.
abbrev pub IsToolNode : {W : Type 0} → ToolNode W → Type 1
IsToolNode {W} tool_node =
    (R : W → W → Type 0) (tool : ToolRun W) (names : List Text) (s : AgentState) (w w' : W)
    → ((call : ToolCall) (v v' : W)
        → R v v'
        → IsAlike R (tool s.user_id call v) (tool s.user_id call v'))
    → R w w'
    → IsAlike R (tool_node tool names s w) (tool_node tool names s w')

-- The language models see the messages, and no table.
abbrev pub model_beside :
    {S : Type 0}
    → (Option AgentName → List Message → S → Option AiMessage × S)
    → Option AgentName
    → List Message
    → Database × S
    → Option AiMessage × (Database × S)
model_beside model who ms (db, s) = let (r, s') = model who ms s in (r, (db, s'))

abbrev pub world_of : {W : Type 0} → Ended W → W
world_of (finished s w) = w
world_of (failed w) = w
world_of (recursion_error w) = w

module _ {S : Type 0} (start_workflow : WorkflowKind → OrderActionInput → Text → S → Text × S)
    (precedes : Text → Text → Bool) (now : ℕ) where
  abbrev pub tool_run : ToolRun (Database × S)
  tool_run user_id call w = call_tool start_workflow precedes now user_id call w

  module _ (model : Option AgentName → List Message → S → Option AiMessage × S)
      (tool_node : ToolNode (Database × S)) (history : List Message) (last_agent : ActiveAgent)
      (user_message user_id : Text) (node_law : IsToolNode tool_node) where
    -- A chat request over these tools.
    abbrev pub chat : Database → S → Ended (Database × S)
    chat db s =
        ask (model_beside model) (tool_node tool_run) history last_agent user_message user_id
          (db, s)

    -- Where ToolNode acts through its tools only and for the user of the state (IsToolNode), and the
    -- models see the messages only: whatever these answer and the customer asks, a chat cannot tell
    -- two databases apart that hold the same orders and preferences of this user, and as many orders
    -- and products. It ends with the same conversation, with the same workflows started, and leaves
    -- such databases.
    pub chat-SameEnd :
        (db db' : Database) (s : S)
        → IsSameFor user_id db db'
        → SameEnd (SameWorld user_id) (chat db s) (chat db' s)
    chat-SameEnd db db' s same =
        ask-SameEnd (SameWorld user_id) user_id (model_beside model) (tool_node tool_run)
          (λ who ms v v' h. model_same who ms v v' h)
          (λ names st v v' u h.
            node_law (SameWorld user_id) tool_run names st v v'
              (λ call x x' k. for_user st.user_id u call x x' k) h)
          history last_agent user_message (db, s) (db', s) (same, refl)
      where
        model_same :
            (who : Option AgentName) (ms : List Message) (v v' : Database × S)
            → SameWorld user_id v v'
            → IsAlike
                (SameWorld user_id)
                (model_beside model who ms v)
                (model_beside model who ms v')
        model_same who ms (db, s) (db', s') (same, outside) =
            (ap (λ x. (model who ms x).0) outside, (same, ap (λ x. (model who ms x).1) outside))

        for_user :
            (u : Text)
            → u ≡ user_id
            → (call : ToolCall) (v v' : Database × S) → SameWorld user_id v v'
            → IsAlike (SameWorld user_id) (tool_run u call v) (tool_run u call v')
        for_user u e call v v' h =
            rw e (call_tool_same start_workflow precedes now user_id call v v' h)

    -- One world twice, in which only this user's preferences have changed.
    abbrev OneWorld : Database → Database × S → Database × S → Type 0
    OneWorld before w w' = (w ≡ w') × IsKept user_id before w.0

    world_of-SameEnd :
        (before : Database) {e e' : Ended (Database × S)}
        → SameEnd (OneWorld before) e e'
        → IsKept user_id before (world_of e).0
    world_of-SameEnd before (both_finished s w w' r) = r.1
    world_of-SameEnd before (both_failed w w' r) = r.1
    world_of-SameEnd before (both_stopped w w' r) = r.1

    -- Where ToolNode acts through its tools only and for the user of the state (IsToolNode): whatever
    -- the models answer, a chat itself writes no product, no order and no refund, and no
    -- preference of another user, however it ends.
    pub chat-IsKept : (db : Database) (s : S) → IsKept user_id db (world_of (chat db s)).0
    chat-IsKept db s = world_of-SameEnd db (
        ask-SameEnd (OneWorld db) user_id (model_beside model) (tool_node tool_run)
          (λ who ms v v' h. (
            ap (λ x. (model_beside model who ms x).0) h.0,
            (ap (λ x. (model_beside model who ms x).1) h.0, h.1),
          ))
          (λ names st v v' u h.
            node_law (OneWorld db) tool_run names st v v'
              (λ call x x' k. for_user st.user_id u call x x' k) h)
          history last_agent user_message (db, s) (db, s)
          (
            refl,
            record { products = refl; orders = refl; refunds = refl; memories = λ other ne. refl },
          ))
      where
        for_user :
            (u : Text)
            → u ≡ user_id
            → (call : ToolCall) (v v' : Database × S) → OneWorld db v v'
            → IsAlike (OneWorld db) (tool_run u call v) (tool_run u call v')
        for_user u e call v v' h = (
          ap (λ x. (tool_run u call x).0) h.0,
          (
            ap (λ x. (tool_run u call x).1) h.0,
            rw e (
                unfold call_tool in
                call_named-IsKept start_workflow precedes now user_id db (tool_named call.name)
                  call.args v h.1),
          ),
        )

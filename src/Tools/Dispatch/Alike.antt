-- ===== src/Tools/Dispatch/Alike.antt =====
-- What a user's tools can tell apart.
use langgraph_temporal_agent.Tools.Dispatch.{
  ToolName, tool_named, arg, two, call_status, call_cancel, call_refund, call_save, call_named,
  call_tool, get_order_status_tool, save_user_preference_tool, get_user_preferences_tool,
  cancel_order_tool, request_refund_tool, get_platform_health_tool, status, action, saved,
  preferences, health,
}
use langgraph_temporal_agent.Prelude.{◌≡◌, none, some, refl, ℕ, List, Option, ap, Bool, map}
use langgraph_temporal_agent.Text.{Text, lower, strip, codes}
use langgraph_temporal_agent.Database.Memories.{get_user_memories, order_by_key}
use langgraph_temporal_agent.Tools.Actions.{
  WorkflowKind, cancel_of_match, get_order_status, cancel_order, cancel_existing,
}
use langgraph_temporal_agent.Database.Schema.{Database, UserMemory}
use langgraph_temporal_agent.Workflows.Activities.{OrderActionInput}
use langgraph_temporal_agent.Agent.Related.{IsAlike}
use langgraph_temporal_agent.Tools.Preferences.{
  save_user_preference, get_user_preferences, get_platform_health,
}
use langgraph_temporal_agent.Agent.{ToolCall}
use langgraph_temporal_agent.Database.Orders.{get_order_status_row}
use langgraph_temporal_agent.Tools.OrderId.{normalized, match_order_id}
use langgraph_temporal_agent.Tools.Dispatch.SameRows.{
  IsSameFor, SameWorld, select_order_same, status_of_match_same, save_user_memory_same,
}

module _ {S : Type 0} (start_workflow : WorkflowKind → OrderActionInput → Text → S → Text × S)
    (precedes : Text → Text → Bool) (now : ℕ) (user_id : Text) (db db' : Database) (s : S)
    (same : IsSameFor user_id db db') where
  cancel_of_match_same :
      (id : Text) (m : Option ℕ)
      → cancel_of_match start_workflow id m user_id db s
        ≡ cancel_of_match start_workflow id m user_id db' s
  unfolding cancel_of_match get_order_status_row
  cancel_of_match_same id none = refl
  cancel_of_match_same id (some n) =
      ap (λ row. cancel_existing start_workflow id n user_id row s)
        (select_order_same n user_id db db' same)

  call_status_same :
      (a : Option Text)
      → IsAlike
          (SameWorld user_id)
          (call_status start_workflow precedes now user_id a (db, s))
          (call_status start_workflow precedes now user_id a (db', s))
  unfolding call_status get_order_status
  call_status_same none = (refl, (same, refl))
  call_status_same (some order_id) = (
    ap (λ x. some (status x))
        (status_of_match_same (normalized order_id) (match_order_id (normalized order_id)) user_id
          db db' same),
    (same, refl),
  )

  call_cancel_same :
      (a : Option Text)
      → IsAlike
          (SameWorld user_id)
          (call_cancel start_workflow precedes now user_id a (db, s))
          (call_cancel start_workflow precedes now user_id a (db', s))
  unfolding call_cancel cancel_order
  call_cancel_same none = (refl, (same, refl))
  call_cancel_same (some order_id) =
      let alike =
        cancel_of_match_same (normalized order_id) (match_order_id (normalized order_id)) in
      (ap (λ x. some (action x.0)) alike, (same, ap (λ x. x.1) alike))

  call_refund_same :
      (a : Option (Text × Text))
      → IsAlike
          (SameWorld user_id)
          (call_refund start_workflow precedes now user_id a (db, s))
          (call_refund start_workflow precedes now user_id a (db', s))
  unfolding call_refund
  call_refund_same none = (refl, (same, refl))
  call_refund_same (some (order_id, reason)) = (refl, (same, refl))

  call_save_same :
      (a : Option (Text × Text))
      → IsAlike
          (SameWorld user_id)
          (call_save start_workflow precedes now user_id a (db, s))
          (call_save start_workflow precedes now user_id a (db', s))
  unfolding call_save save_user_preference
  call_save_same none = (refl, (same, refl))
  call_save_same (some (memory_key, memory_value)) =
      let (row, after) =
        save_user_memory_same now user_id (lower (strip memory_key)) (strip memory_value) db db'
          same in
      (ap (λ (r : UserMemory). some (saved r.memory_key r.memory_value)) row, (after, refl))

  -- Every tool answers alike in databases that are the same for the user, and leaves them so.
  call_named_same :
      (name : Option ToolName) (args : List (Text × Text))
      → IsAlike
          (SameWorld user_id)
          (call_named start_workflow precedes now user_id name args (db, s))
          (call_named start_workflow precedes now user_id name args (db', s))
  unfolding call_named get_user_preferences get_user_memories get_platform_health
  call_named_same none args = (refl, (same, refl))
  call_named_same (some get_order_status_tool) args = call_status_same (arg (codes "order_id") args)
  call_named_same (some cancel_order_tool) args = call_cancel_same (arg (codes "order_id") args)
  call_named_same (some request_refund_tool) args =
      call_refund_same (two (arg (codes "order_id") args) (arg (codes "reason") args))
  call_named_same (some save_user_preference_tool) args =
      call_save_same (two (arg (codes "memory_key") args) (arg (codes "memory_value") args))
  call_named_same (some get_user_preferences_tool) args = (
    ap
        (λ ms.
          some (preferences (map (λ m. (m.memory_key, m.memory_value)) (order_by_key precedes ms))))
        same.memories,
    (same, refl),
  )
  call_named_same (some get_platform_health_tool) args =
      (ap (λ (c : ℕ × ℕ). some (health c.0 c.1)) same.counts, (same, refl))

pub call_tool_same :
    {S : Type 0} (start_workflow : WorkflowKind → OrderActionInput → Text → S → Text × S)
    (precedes : Text → Text → Bool) (now : ℕ) (user_id : Text) (call : ToolCall)
    (w w' : Database × S)
    → SameWorld user_id w w'
    → IsAlike
        (SameWorld user_id)
        (call_tool start_workflow precedes now user_id call w)
        (call_tool start_workflow precedes now user_id call w')
unfolding call_tool
call_tool_same start_workflow precedes now user_id call (db, s) (db', s') (same, outside) =
    rw (← outside) (
      call_named_same start_workflow precedes now user_id db db' s same (tool_named call.name)
        call.args)

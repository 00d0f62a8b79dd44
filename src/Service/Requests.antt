-- ===== src/Service/Requests.antt =====
-- What a call of a tool asks of the Temporal server, and for whom.
use langgraph_temporal_agent.Prelude.{refl, some, ◌∷◌, none, List, Bool, ℕ, Option, ◌≡◌}
use langgraph_temporal_agent.Tools.Actions.{
  cancel_order_workflow, refund_workflow, WorkflowKind, refund_of_match, start_cancellation,
  start_refund, request_refund, start, ActionAnswer,
}
use langgraph_temporal_agent.Tools.Dispatch.{
  get_order_status_tool, save_user_preference_tool, get_user_preferences_tool,
  get_platform_health_tool, ToolName, cancel_order_tool, request_refund_tool, call_refund,
  call_cancel, call_status, call_save, call_named, call_tool, arg, tool_named, two,
}
use langgraph_temporal_agent.Service.{StartRequest, note_start}
use langgraph_temporal_agent.Text.{Text, codes, strip}
use langgraph_temporal_agent.Database.Schema.{Database}
use langgraph_temporal_agent.Agent.{ToolCall}
use langgraph_temporal_agent.Tools.OrderId.{normalized, match_order_id}
use langgraph_temporal_agent.Tools.Actions.Guarded.{
  closed, cancel_order-Asked, Asked, unreadable, unknown, asked,
}

-- The tool that asks for a workflow.
abbrev pub tool_of : WorkflowKind → ToolName
tool_of cancel_order_workflow = cancel_order_tool
tool_of refund_workflow = request_refund_tool

module _ (run_id : List StartRequest → Text) (precedes : Text → Text → Bool) (now : ℕ)
    (user_id : Text) (db : Database) (rs : List StartRequest) where
  -- Nothing, or one request for this user by the tool for it.
  pub data Asks (name : Option ToolName) : List StartRequest → Type 0 where
    nothing : Asks name rs
    asks :
        (r : StartRequest)
        → r.input.requested_by ≡ user_id
        → name ≡ some (tool_of r.kind)
        → Asks name (r ∷ rs)

  refund_of_match-Asks :
      (id : Text) (m : Option ℕ) (reason : Text)
      → Asks
          (some request_refund_tool)
          (refund_of_match (note_start run_id) id m reason user_id rs).1
  unfolding refund_of_match start_refund start
  refund_of_match-Asks id none reason = nothing
  refund_of_match-Asks id (some n) reason = asks _ refl refl

  call_refund-Asks :
      (a : Option (Text × Text))
      → Asks
          (some request_refund_tool)
          (call_refund (note_start run_id) precedes now user_id a (db, rs)).1.1
  unfolding call_refund request_refund
  call_refund-Asks none = nothing
  call_refund-Asks (some (order_id, reason)) =
      refund_of_match-Asks (normalized order_id) (match_order_id (normalized order_id))
        (strip reason)

  cancel_order-Asks :
      (order_id : Text) {out : ActionAnswer × List StartRequest}
      → Asked (note_start run_id) order_id user_id db rs out
      → Asks (some cancel_order_tool) out.1
  unfolding start_cancellation start
  cancel_order-Asks order_id (unreadable _) = nothing
  cancel_order-Asks order_id (unknown _ _ _) = nothing
  cancel_order-Asks order_id (closed _ _ _ _ _) = nothing
  cancel_order-Asks order_id (asked n o _ _ _) = asks _ refl refl

  call_cancel-Asks :
      (a : Option Text)
      → Asks
          (some cancel_order_tool)
          (call_cancel (note_start run_id) precedes now user_id a (db, rs)).1.1
  unfolding call_cancel
  call_cancel-Asks none = nothing
  call_cancel-Asks (some order_id) =
      cancel_order-Asks order_id (cancel_order-Asked (note_start run_id) order_id user_id db rs)

  call_status-Asks :
      (name : Option ToolName) (a : Option Text)
      → Asks name (call_status (note_start run_id) precedes now user_id a (db, rs)).1.1
  unfolding call_status
  call_status-Asks name none = nothing
  call_status-Asks name (some _) = nothing

  call_save-Asks :
      (name : Option ToolName) (a : Option (Text × Text))
      → Asks name (call_save (note_start run_id) precedes now user_id a (db, rs)).1.1
  unfolding call_save
  call_save-Asks name none = nothing
  call_save-Asks name (some _) = nothing

  call_named-Asks :
      (name : Option ToolName) (args : List (Text × Text))
      → Asks name (call_named (note_start run_id) precedes now user_id name args (db, rs)).1.1
  unfolding call_named
  call_named-Asks none args = nothing
  call_named-Asks (some get_order_status_tool) args =
      call_status-Asks _ (arg (codes "order_id") args)
  call_named-Asks (some cancel_order_tool) args = call_cancel-Asks (arg (codes "order_id") args)
  call_named-Asks (some request_refund_tool) args =
      call_refund-Asks (two (arg (codes "order_id") args) (arg (codes "reason") args))
  call_named-Asks (some save_user_preference_tool) args =
      call_save-Asks _ (two (arg (codes "memory_key") args) (arg (codes "memory_value") args))
  call_named-Asks (some get_user_preferences_tool) args = nothing
  call_named-Asks (some get_platform_health_tool) args = nothing

  -- A call asks for one workflow at most: by the tool that is for it, and for the user of the call.
  pub call_tool-Asks :
      (call : ToolCall)
      → Asks
          (tool_named call.name)
          (call_tool (note_start run_id) precedes now user_id call (db, rs)).1.1
  unfolding call_tool
  call_tool-Asks call = call_named-Asks (tool_named call.name) call.args

-- ===== src/Tools/Dispatch.antt =====
-- The specialists' tools by their names, with the arguments of a model's call. The state that a tool
-- changes is the database, and `S`, the Temporal server and whatever else lies outside.
pub mod SameRows
pub mod Alike
pub mod Kept
pub mod Privacy
use langgraph_temporal_agent.Agent.{ToolCall}
use langgraph_temporal_agent.Prelude.{◌∷◌, [], some, none, Option, if◌then◌else◌, List, ℕ, Bool}
use langgraph_temporal_agent.Text.{Text, text_eq, codes}
use langgraph_temporal_agent.Tools.Actions.{
  StatusAnswer, WorkflowKind, ActionAnswer, get_order_status, cancel_order, request_refund,
}
use langgraph_temporal_agent.Workflows.Activities.{OrderActionInput}
use langgraph_temporal_agent.Tools.Preferences.{
  save_user_preference, get_user_preferences, get_platform_health,
}
use langgraph_temporal_agent.Database.Schema.{Database}

pub data ToolName : Type 0 where
  get_order_status_tool save_user_preference_tool get_user_preferences_tool : ToolName
  cancel_order_tool request_refund_tool get_platform_health_tool : ToolName

-- The tools' names are those of their functions.
unfoldable pub tool_named : Text → Option ToolName
tool_named name =
    if text_eq name (codes "get_order_status")
    then some get_order_status_tool
    else if text_eq name (codes "save_user_preference")
    then some save_user_preference_tool
    else if text_eq name (codes "get_user_preferences")
    then some get_user_preferences_tool
    else if text_eq name (codes "cancel_order")
    then some cancel_order_tool
    else if text_eq name (codes "request_refund")
    then some request_refund_tool
    else if text_eq name (codes "get_platform_health")
    then some get_platform_health_tool
    else none

pub data ToolAnswer : Type 0 where
  status : StatusAnswer → ToolAnswer
  action : ActionAnswer → ToolAnswer
  saved : (memory_key memory_value : Text) → ToolAnswer
  preferences : List (Text × Text) → ToolAnswer
  health : (orders products : ℕ) → ToolAnswer

-- The argument of a name.
unfoldable pub arg : Text → List (Text × Text) → Option Text
arg name [] = none
arg name ((n, value) ∷ args) = if text_eq n name then some value else arg name args

-- Both of two required arguments.
abbrev pub two : Option Text → Option Text → Option (Text × Text)
two (some a) (some b) = some (a, b)
two _ _ = none

module _ {S : Type 0} (start_workflow : WorkflowKind → OrderActionInput → Text → S → Text × S)
    (precedes : Text → Text → Bool) (now : ℕ) (user_id : Text) where
  -- One function for each tool, on the arguments that its schema has let through.
  unfoldable pub call_status : Option Text → Database × S → Option ToolAnswer × (Database × S)
  unfolding get_order_status
  call_status none w = (none, w)
  call_status (some order_id) (db, s) =
      (some (status (get_order_status order_id user_id db)), (db, s))

  unfoldable pub call_cancel : Option Text → Database × S → Option ToolAnswer × (Database × S)
  unfolding cancel_order
  call_cancel none w = (none, w)
  call_cancel (some order_id) (db, s) =
      let (a, s') = cancel_order start_workflow order_id user_id db s in (some (action a), (db, s'))

  unfoldable pub call_refund :
      Option (Text × Text) → Database × S → Option ToolAnswer × (Database × S)
  unfolding request_refund
  call_refund none w = (none, w)
  call_refund (some (order_id, reason)) (db, s) =
      let (a, s') = request_refund start_workflow order_id reason user_id s in
      (some (action a), (db, s'))

  unfoldable pub call_save :
      Option (Text × Text) → Database × S → Option ToolAnswer × (Database × S)
  unfolding save_user_preference
  call_save none w = (none, w)
  call_save (some (memory_key, memory_value)) (db, s) =
      let ((k, v), db') = save_user_preference now memory_key memory_value user_id db in
      (some (saved k v), (db', s))

  -- A call of a tool; `none` is a call that no tool has, or whose arguments its schema refuses, which
  -- ToolNode answers with an error message.
  unfoldable pub call_named :
      Option ToolName → List (Text × Text) → Database × S → Option ToolAnswer × (Database × S)
  unfolding call_status call_cancel call_refund call_save get_user_preferences get_platform_health
      arg
  call_named none args w = (none, w)
  call_named (some get_order_status_tool) args w = call_status (arg (codes "order_id") args) w
  call_named (some cancel_order_tool) args w = call_cancel (arg (codes "order_id") args) w
  call_named (some request_refund_tool) args w =
      call_refund (two (arg (codes "order_id") args) (arg (codes "reason") args)) w
  call_named (some save_user_preference_tool) args w =
      call_save (two (arg (codes "memory_key") args) (arg (codes "memory_value") args)) w
  call_named (some get_user_preferences_tool) args (db, s) =
      (some (preferences (get_user_preferences precedes user_id db)), (db, s))
  call_named (some get_platform_health_tool) args (db, s) =
      let (orders, products) = get_platform_health db in (some (health orders products), (db, s))

  unfoldable pub call_tool : ToolCall → Database × S → Option ToolAnswer × (Database × S)
  unfolding call_named tool_named
  call_tool call w = call_named (tool_named call.name) call.args w

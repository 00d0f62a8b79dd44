-- ===== src/Tools/Dispatch/Kept.antt =====
-- What one call of a tool leaves as it is.
use langgraph_temporal_agent.Prelude.{◌≡◌, none, some, refl, List, Option, ◌≢◌, Bool, ℕ, ◌∙◌}
use langgraph_temporal_agent.Tools.Dispatch.{
  call_named, call_status, call_cancel, call_refund, call_save, get_order_status_tool,
  save_user_preference_tool, get_user_preferences_tool, cancel_order_tool, request_refund_tool,
  get_platform_health_tool, ToolName, arg, two, call_tool, tool_named,
}
use langgraph_temporal_agent.Text.{Text, codes, lower, strip}
use langgraph_temporal_agent.Tools.Actions.{WorkflowKind}
use langgraph_temporal_agent.Database.Schema.{Database, UserMemory}
use langgraph_temporal_agent.Workflows.Activities.{OrderActionInput}
use langgraph_temporal_agent.Tools.Dispatch.SameRows.{memories_of}
use langgraph_temporal_agent.Tools.Preferences.{save_user_preference}
use langgraph_temporal_agent.Database.Memories.{save_user_memory}
use langgraph_temporal_agent.Database.Memories.Laws.{rows_of-upsert_memory}
use langgraph_temporal_agent.Agent.{ToolCall}

-- What a chat of one user must leave as it is.
pub record IsKept (user_id : Text) (before after : Database) : Type 0 where
  pub products : after.products ≡ before.products
  pub orders : after.orders ≡ before.orders
  pub refunds : after.refunds ≡ before.refunds
  pub memories :
      (other : Text) → user_id ≢ other → memories_of other after ≡ memories_of other before

module _ {S : Type 0} (start_workflow : WorkflowKind → OrderActionInput → Text → S → Text × S)
    (precedes : Text → Text → Bool) (now : ℕ) where
  call_status-IsKept :
      (user_id : Text) (a : Option Text) (w : Database × S)
      → (call_status start_workflow precedes now user_id a w).1.0 ≡ w.0
  unfolding call_status
  call_status-IsKept user_id none w = refl
  call_status-IsKept user_id (some a) (db, s) = refl

  call_cancel-IsKept :
      (user_id : Text) (a : Option Text) (w : Database × S)
      → (call_cancel start_workflow precedes now user_id a w).1.0 ≡ w.0
  unfolding call_cancel
  call_cancel-IsKept user_id none w = refl
  call_cancel-IsKept user_id (some a) (db, s) = refl

  call_refund-IsKept :
      (user_id : Text) (a : Option (Text × Text)) (w : Database × S)
      → (call_refund start_workflow precedes now user_id a w).1.0 ≡ w.0
  unfolding call_refund
  call_refund-IsKept user_id none w = refl
  call_refund-IsKept user_id (some (a, b)) (db, s) = refl

  IsKept-same :
      (user_id : Text) (before db db' : Database)
      → db' ≡ db
      → IsKept user_id before db
      → IsKept user_id before db'
  IsKept-same user_id before db db' same kept = rw same kept

  call_save-IsKept :
      (user_id : Text) (before : Database) (a : Option (Text × Text)) (w : Database × S)
      → IsKept user_id before w.0
      → IsKept user_id before (call_save start_workflow precedes now user_id a w).1.0
  unfolding call_save save_user_preference save_user_memory
  call_save-IsKept user_id before none w kept = kept
  call_save-IsKept user_id before (some (k, v)) (db, s) kept = record {
    products = kept.products;
    orders = kept.orders;
    refunds = kept.refunds;
    memories = λ other ne.
        rows_of-upsert_memory now user_id (lower (strip k)) (strip v) other _ db.user_memories ne
        ∙ kept.memories other ne;
  }

  pub call_named-IsKept :
      (user_id : Text) (before : Database) (name : Option ToolName) (args : List (Text × Text))
      (w : Database × S)
      → IsKept user_id before w.0
      → IsKept user_id before (call_named start_workflow precedes now user_id name args w).1.0
  unfolding call_named
  call_named-IsKept user_id before none args w kept = kept
  call_named-IsKept user_id before (some get_order_status_tool) args w kept =
      IsKept-same user_id before w.0 _ (call_status-IsKept user_id (arg (codes "order_id") args) w)
        kept
  call_named-IsKept user_id before (some cancel_order_tool) args w kept =
      IsKept-same user_id before w.0 _ (call_cancel-IsKept user_id (arg (codes "order_id") args) w)
        kept
  call_named-IsKept user_id before (some request_refund_tool) args w kept =
      IsKept-same user_id before w.0 _ (call_refund-IsKept user_id _ w) kept
  call_named-IsKept user_id before (some save_user_preference_tool) args w kept =
      call_save-IsKept user_id before _ w kept
  call_named-IsKept user_id before (some get_user_preferences_tool) args (db, s) kept = kept
  call_named-IsKept user_id before (some get_platform_health_tool) args (db, s) kept = kept

  -- What a call leaves of the tables: all but the preferences.
  abbrev pub Writes : Database → Database → Type 0
  Writes before after = (ms : List UserMemory) × (after ≡ record before { user_memories = ms })

  Writes-same : (before after : Database) → after ≡ before → Writes before after
  Writes-same before after same = (before.user_memories, same)

  call_save-Writes :
      (user_id : Text) (a : Option (Text × Text)) (db : Database) (s : S)
      → Writes db (call_save start_workflow precedes now user_id a (db, s)).1.0
  unfolding call_save save_user_preference save_user_memory
  call_save-Writes user_id none db s = Writes-same db db refl
  call_save-Writes user_id (some (k, v)) db s = (_, refl)

  call_named-Writes :
      (user_id : Text) (name : Option ToolName) (args : List (Text × Text)) (db : Database) (s : S)
      → Writes db (call_named start_workflow precedes now user_id name args (db, s)).1.0
  unfolding call_named
  call_named-Writes user_id none args db s = Writes-same db db refl
  call_named-Writes user_id (some get_order_status_tool) args db s =
      Writes-same db _ (call_status-IsKept user_id (arg (codes "order_id") args) (db, s))
  call_named-Writes user_id (some cancel_order_tool) args db s =
      Writes-same db _ (call_cancel-IsKept user_id (arg (codes "order_id") args) (db, s))
  call_named-Writes user_id (some request_refund_tool) args db s = Writes-same db _ (
      call_refund-IsKept user_id (two (arg (codes "order_id") args) (arg (codes "reason") args))
        (db, s))
  call_named-Writes user_id (some save_user_preference_tool) args db s =
      call_save-Writes user_id
        (two (arg (codes "memory_key") args) (arg (codes "memory_value") args)) db s
  call_named-Writes user_id (some get_user_preferences_tool) args db s = Writes-same db db refl
  call_named-Writes user_id (some get_platform_health_tool) args db s = Writes-same db db refl

  pub call_tool-Writes :
      (user_id : Text) (call : ToolCall) (db : Database) (s : S)
      → Writes db (call_tool start_workflow precedes now user_id call (db, s)).1.0
  unfolding call_tool
  call_tool-Writes user_id call db s =
      call_named-Writes user_id (tool_named call.name) call.args db s

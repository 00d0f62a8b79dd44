-- ===== src/Tools/Actions.antt =====
-- `get_order_status`, `cancel_order` and `request_refund`, with `start_cancellation`,
-- `start_refund` and `_start_workflow` of app/temporal_service.py.
pub mod Guarded
use langgraph_temporal_agent.Prelude.{some, [], none, ℕ, Option, ◌++◌, if◌then◌else◌}
use langgraph_temporal_agent.Text.{Text, codes, strip, decimal}
use langgraph_temporal_agent.Database.Orders.{
  format_order_id, get_order_status_row, is_cancellable, CancellationReason, rejection_reason,
}
use langgraph_temporal_agent.Tools.OrderId.{normalized, match_order_id}
use langgraph_temporal_agent.Workflows.Activities.{OrderActionInput}
use langgraph_temporal_agent.Database.Schema.{OrderStatus, Order, Database}

pub data StatusAnswer : Type 0 where
  invalid_order_id not_found : (order_id : Text) → StatusAnswer
  found : (order_id : Text) → OrderStatus → StatusAnswer

unfoldable pub status_answer : Text → Option Order → StatusAnswer
unfolding format_order_id
status_answer id none = not_found id
status_answer id (some row) = found (format_order_id row.id) row.status

unfoldable pub status_of_match : Text → Option ℕ → Text → Database → StatusAnswer
unfolding status_answer get_order_status_row
status_of_match id none user_id db = invalid_order_id id
status_of_match id (some n) user_id db = status_answer id (get_order_status_row n user_id db)

unfoldable pub get_order_status : Text → Text → Database → StatusAnswer
unfolding status_of_match normalized match_order_id
get_order_status order_id user_id db =
    status_of_match (normalized order_id) (match_order_id (normalized order_id)) user_id db

pub data WorkflowKind : Type 0 where
  cancel_order_workflow refund_workflow : WorkflowKind

-- The dict of `_start_workflow`: the handle's workflow id and run id, as "accepted".
pub record Started : Type 0 where
  pub workflow_id : Text
  pub run_id : Text

pub data ActionAnswer : Type 0 where
  invalid_order_id not_found : (order_id : Text) → ActionAnswer
  refused : (order_id : Text) → OrderStatus → CancellationReason → ActionAnswer
  accepted : Started → (order_id : Text) → ActionAnswer

-- `f"cancel-order-{n}"` and `f"refund-order-{n}"`
unfoldable pub cancellation_workflow_id : ℕ → Text
cancellation_workflow_id n = codes "cancel-order-" ++ decimal n

unfoldable pub refund_workflow_id : ℕ → Text
refund_workflow_id n = codes "refund-order-" ++ decimal n

-- The Temporal server is a parameter: `start_workflow` with the options that `_start_workflow`
-- passes, which returns the handle's run id. Its state is `S`.
module _ {S : Type 0} (start_workflow : WorkflowKind → OrderActionInput → Text → S → Text × S) where
  -- `_start_workflow`
  unfoldable pub start : WorkflowKind → OrderActionInput → Text → S → Started × S
  start kind input id s =
      let (run, s') = start_workflow kind input id s in
      (record { workflow_id = id; run_id = run }, s')

  unfoldable pub start_cancellation : ℕ → Text → S → Started × S
  unfolding start cancellation_workflow_id
  start_cancellation n requested_by =
      start cancel_order_workflow
        (record { order_number = n; requested_by = requested_by; reason = [] })
        (cancellation_workflow_id n)

  unfoldable pub start_refund : ℕ → Text → Text → S → Started × S
  unfolding start refund_workflow_id
  start_refund n requested_by reason =
      start refund_workflow
        (record { order_number = n; requested_by = requested_by; reason = reason })
        (refund_workflow_id n)

  unfoldable pub cancel_existing : Text → ℕ → Text → Option Order → S → ActionAnswer × S
  unfolding start_cancellation is_cancellable rejection_reason
  cancel_existing id n user_id none s = (ActionAnswer.not_found id, s)
  cancel_existing id n user_id (some existing) s =
      if is_cancellable existing.status
      then (let (r, s') = start_cancellation n user_id s in (accepted r id, s'))
      else (refused id existing.status (rejection_reason existing.status), s)

  unfoldable pub cancel_of_match : Text → Option ℕ → Text → Database → S → ActionAnswer × S
  unfolding cancel_existing get_order_status_row
  cancel_of_match id none user_id db s = (ActionAnswer.invalid_order_id id, s)
  cancel_of_match id (some n) user_id db s =
      cancel_existing id n user_id (get_order_status_row n user_id db) s

  unfoldable pub cancel_order : Text → Text → Database → S → ActionAnswer × S
  unfolding cancel_of_match normalized match_order_id
  cancel_order order_id user_id db =
      cancel_of_match (normalized order_id) (match_order_id (normalized order_id)) user_id db

  unfoldable pub refund_of_match : Text → Option ℕ → Text → Text → S → ActionAnswer × S
  unfolding start_refund
  refund_of_match id none reason user_id s = (ActionAnswer.invalid_order_id id, s)
  refund_of_match id (some n) reason user_id s =
      let (r, s') = start_refund n user_id reason s in (accepted r id, s')

  unfoldable pub request_refund : Text → Text → Text → S → ActionAnswer × S
  unfolding refund_of_match normalized match_order_id strip
  request_refund order_id reason user_id =
      refund_of_match (normalized order_id) (match_order_id (normalized order_id)) (strip reason)
        user_id

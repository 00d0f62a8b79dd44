-- ===== src/Workflows/Activities.antt =====
-- models.py and activities.py: an activity is one call of app/database.py, whose "not found" and
-- "not allowed" answers become errors that are not retried.
use langgraph_temporal_agent.Prelude.{
  false, none, some, true, ℕ, Bool, Option, ◌&&◌, ltb, if◌then◌else◌,
}
use langgraph_temporal_agent.Database.Sql.{err, ok, DbError, Result}
use langgraph_temporal_agent.Database.Schema.{Database}
use langgraph_temporal_agent.Text.{Text}
use langgraph_temporal_agent.Database.Orders.{CancellationResult, cancel_order_row}
use langgraph_temporal_agent.Database.Refunds.{
  RefundOrder, RefundReason, RefundResult, get_refund_order_row, refund_order_row,
  refund_idempotency_key,
}

pub record OrderActionInput : Type 0 where
  pub order_number : ℕ
  pub requested_by : Text
  pub reason : Text

pub record ApprovalInput : Type 0 where
  pub approved : Bool
  pub approved_by : Text

-- What an attempt of an activity can fail with: the two ApplicationErrors, an exception of the
-- database driver, or the loss of its answer, which Temporal reports as a timeout.
pub data ActivityError : Type 0 where
  not_found refund_not_allowed timed_out : ActivityError
  database_error : DbError → ActivityError

pub data Attempt (A : Type 0) : Type 0 where
  returned : A → Attempt A
  raised : ActivityError → Attempt A

-- `non_retryable_error_types` of ACTIVITY_RETRY_POLICY
unfoldable pub is_retryable : ActivityError → Bool
is_retryable not_found = false
is_retryable refund_not_allowed = false
is_retryable timed_out = true
is_retryable (database_error _) = true

-- `maximum_attempts` of ACTIVITY_RETRY_POLICY
abbrev pub maximum_attempts : ℕ
maximum_attempts = 3

-- Whether an attempt, the `attempt`-th, that failed with `e` is followed by another.
unfoldable pub retries : ActivityError → ℕ → Bool
unfolding is_retryable
retries e attempt = is_retryable e && ltb attempt maximum_attempts

abbrev pub attempt_of : {A : Type 0} → Result A → Attempt A
attempt_of (ok a) = returned a
attempt_of (err e) = raised (database_error e)

unfoldable pub cancel_order_activity :
    OrderActionInput → Database → Attempt CancellationResult × Database
cancel_order_activity input db =
    let (r, db') = cancel_order_row input.order_number input.requested_by db in (attempt_of r, db')

abbrev pub loaded : Option RefundOrder → Attempt RefundOrder
loaded none = raised not_found
loaded (some row) = returned row

-- The amount travels as `str(row["total"])` and is read back by `Decimal`: it stays the number.
unfoldable pub load_refund_order_activity : OrderActionInput → Database → Attempt RefundOrder
load_refund_order_activity input db =
    loaded (get_refund_order_row input.order_number input.requested_by db)

abbrev pub is_not_delivered : Option RefundReason → Bool
is_not_delivered (some RefundReason.order_not_delivered) = true
is_not_delivered _ = false

abbrev pub executed : Result (Option RefundResult) → Attempt RefundResult
executed (err e) = raised (database_error e)
executed (ok none) = raised not_found
executed (ok (some r)) = if is_not_delivered r.reason then raised refund_not_allowed else returned r

unfoldable pub execute_refund_activity :
    OrderActionInput → Database → Attempt RefundResult × Database
execute_refund_activity input db =
    let (r, db') =
      refund_order_row input.order_number input.requested_by input.reason
        (refund_idempotency_key input.order_number) db in
    (executed r, db')

-- ===== src/Database/Orders.antt =====
-- Orders: the functions of app/database.py that look up, cancel, create and list them.
use langgraph_temporal_agent.Prelude.{
  ℕ, Bool, true, false, Option, none, some, ◌++◌, if◌then◌else◌, arith, ◌≡◌, ◌≢◌,
}
use langgraph_temporal_agent.Text.{Text, codes, format_03d}
use langgraph_temporal_agent.Database.Schema.{
  Database, Order, OrderStatus, pending, paid, processing, shipped, delivered, refunded,
}
use langgraph_temporal_agent.Database.Sql.{
  Sql, Result, pure, gets, ◌>>=◌, ◌>>◌, database_connection, select_order, update_status,
}

-- `f"ORD-{n:03d}"`
unfoldable pub format_order_id : ℕ → Text
unfolding format_03d
format_order_id n = codes "ORD-" ++ format_03d n

-- CANCELLABLE_ORDER_STATUSES
unfoldable pub is_cancellable : OrderStatus → Bool
is_cancellable pending = true
is_cancellable paid = true
is_cancellable processing = true
is_cancellable shipped = true
is_cancellable _ = false

pub data CancellationReason : Type 0 where
  order_not_found already_cancelled delivered_order refunded_order status_not_cancellable :
      CancellationReason
  cancelled : CancellationReason

-- `CANCELLATION_REJECTION_REASONS.get(status, "status_not_cancellable")`
unfoldable pub rejection_reason : OrderStatus → CancellationReason
rejection_reason OrderStatus.cancelled = already_cancelled
rejection_reason delivered = delivered_order
rejection_reason refunded = refunded_order
rejection_reason _ = status_not_cancellable

pub record CancellationResult : Type 0 where
  pub found : Bool
  pub order_id : Text
  pub cancelled : Bool
  pub status : Option OrderStatus
  pub previous_status : Option OrderStatus
  pub reason : CancellationReason

unfoldable pub get_order_status_row : ℕ → Text → Database → Option Order
get_order_status_row = select_order

pub cancel_found : ℕ → Option Order → Sql CancellationResult
unfolding is_cancellable rejection_reason format_order_id
cancel_found n none = pure (record {
  found = false;
  order_id = format_order_id n;
  cancelled = false;
  status = none;
  previous_status = none;
  reason = order_not_found;
})
cancel_found n (some order) =
    if is_cancellable order.status
    then (do
      update_status OrderStatus.cancelled n
      pure (record {
        found = true;
        order_id = format_order_id order.id;
        cancelled = true;
        status = some OrderStatus.cancelled;
        previous_status = some order.status;
        reason = CancellationReason.cancelled;
      }))
    else pure (record {
      found = true;
      order_id = format_order_id order.id;
      cancelled = false;
      status = some order.status;
      previous_status = some order.status;
      reason = rejection_reason order.status;
    })

unfoldable pub cancel_order_row : ℕ → Text → Database → Result CancellationResult × Database
unfolding cancel_found database_connection
cancel_order_row n customer_id =
    database_connection do order ← gets (select_order n customer_id); cancel_found n order

pub ne-refunded_of_is_cancellable :
    (s : OrderStatus) → is_cancellable s ≡ true → s ≢ OrderStatus.refunded
unfolding is_cancellable
ne-refunded_of_is_cancellable s h e = ground arith

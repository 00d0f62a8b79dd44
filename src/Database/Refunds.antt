-- ===== src/Database/Refunds.antt =====
-- Refunds: `get_refund_order_row` and `refund_order_row` of app/database.py.
use langgraph_temporal_agent.Prelude.{ℕ, ◌*◌, Bool, true, false, Option, none, some, ◌++◌, ◌≢◌}
use mathlib.Core.Logic.{ite}
use langgraph_temporal_agent.Text.{Text, codes, decimal}
use langgraph_temporal_agent.Database.Schema.{
  Database, Order, OrderStatus, Product, Refund, OrderStatus-discrete, delivered,
}
use langgraph_temporal_agent.Database.Sql.{
  Sql, Result, pure, gets, ◌>>=◌, ◌>>◌, database_connection, select_order, select_product,
  select_refund, update_status, insert_refund,
}

-- `f"refund-order-{order_number}"`, the key that `execute_refund_activity` passes.
unfoldable pub refund_idempotency_key : ℕ → Text
refund_idempotency_key n = codes "refund-order-" ++ decimal n

-- `SELECT o.id, o.status, p.price * o.quantity AS total`
pub record RefundOrder : Type 0 where
  pub id : ℕ
  pub status : OrderStatus
  pub total : ℕ

abbrev pub refund_order : Order → Option Product → Option RefundOrder
refund_order o none = none
refund_order o (some p) =
    some (record { id = o.id; status = o.status; total = p.price * o.quantity })

-- The join of the order with its product.
unfoldable pub select_refund_order : ℕ → Text → Database → Option RefundOrder
select_refund_order n customer_id db = elim (select_order n customer_id db) [
  | none ↦ none
  | some o ↦ refund_order o (select_product o.product_sku db)
]

unfoldable pub get_refund_order_row : ℕ → Text → Database → Option RefundOrder
unfolding select_refund_order
get_refund_order_row = select_refund_order

pub data RefundReason : Type 0 where
  already_refunded order_not_delivered : RefundReason

-- The dict that `refund_order_row` returns; a success has no "reason" key.
pub record RefundResult : Type 0 where
  pub id : ℕ
  pub status : OrderStatus
  pub amount : ℕ
  pub refunded : Bool
  pub reason : Option RefundReason

unfoldable pub refund_new : ℕ → Text → Text → RefundOrder → Sql (Option RefundResult)
unfolding insert_refund
refund_new n reason idempotency_key order =
    ite (OrderStatus-discrete order.status delivered)
      (do
        insert_refund (record {
          order_id = n;
          amount = order.total;
          reason = reason;
          idempotency_key = idempotency_key;
        })
        update_status OrderStatus.refunded n
        pure (
            some (record {
              id = n;
              status = OrderStatus.refunded;
              amount = order.total;
              refunded = true;
              reason = none;
            })))
      (pure (
        some (record {
          id = n;
          status = order.status;
          amount = order.total;
          refunded = false;
          reason = some order_not_delivered;
        })))

unfoldable pub refund_existing :
    ℕ → Text → Text → RefundOrder → Option Refund → Sql (Option RefundResult)
unfolding refund_new
refund_existing n reason idempotency_key order (some existing) = pure (
    some (record {
      id = n;
      status = OrderStatus.refunded;
      amount = existing.amount;
      refunded = false;
      reason = some already_refunded;
    }))
refund_existing n reason idempotency_key order none = refund_new n reason idempotency_key order

unfoldable pub refund_found : ℕ → Text → Text → Option RefundOrder → Sql (Option RefundResult)
unfolding refund_existing
refund_found n reason idempotency_key none = pure none
refund_found n reason idempotency_key (some order) = do
  existing ← gets (select_refund n)
  refund_existing n reason idempotency_key order existing

unfoldable pub refund_order_row :
    ℕ → Text → Text → Text → Database → Result (Option RefundResult) × Database
unfolding refund_found select_refund_order database_connection
refund_order_row n customer_id reason idempotency_key =
    database_connection do
      order ← gets (select_refund_order n customer_id)
      refund_found n reason idempotency_key order

pub delivered-ne-refunded : delivered ≢ OrderStatus.refunded
delivered-ne-refunded = λ e. cc

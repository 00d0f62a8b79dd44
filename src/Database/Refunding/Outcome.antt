-- ===== src/Database/Refunding/Outcome.antt =====
-- The five ways in which a call of `refund_order_row` ends.
use langgraph_temporal_agent.Prelude.{none, ◌∷◌, some, true, false, ℕ, Bool, Option, ◌≡◌, ◌≢◌}
use langgraph_temporal_agent.Database.Sql.{err, ok, Result, select_refund, DbError, insert_refund}
use langgraph_temporal_agent.Text.{Text}
use langgraph_temporal_agent.Database.Schema.{OrderStatus, Database, Refund, delivered}
use langgraph_temporal_agent.Database.Refunds.{
  RefundOrder, RefundReason, RefundResult, select_refund_order, already_refunded,
  order_not_delivered,
}
use langgraph_temporal_agent.Database.Invariant.Status.{set_status}

abbrev pub new_refund : ℕ → Text → Text → RefundOrder → Refund
new_refund n reason key order = record {
  order_id = n;
  amount = order.total;
  reason = reason;
  idempotency_key = key;
}

-- The tables after a refund: one more row, and the order closed.
abbrev pub refunded_db : ℕ → Text → Text → RefundOrder → Database → Database
refunded_db n reason key order db = record db {
  refunds = new_refund n reason key order ∷ db.refunds;
  orders = set_status OrderStatus.refunded n db.orders;
}

-- The answer of the call that refunds.
abbrev pub success : ℕ → RefundOrder → RefundResult
success n o = record {
  id = n;
  status = OrderStatus.refunded;
  amount = o.total;
  refunded = true;
  reason = none;
}

abbrev pub answer : ℕ → OrderStatus → ℕ → Bool → Option RefundReason → Result (Option RefundResult)
answer n status amount done reason =
    ok
      (some (record { id = n; status = status; amount = amount; refunded = done; reason = reason }))

-- What one call has done. Only `created` writes.
pub data Refunded (n : ℕ) (customer_id reason key : Text) (db : Database)
    : Result (Option RefundResult) × Database → Type 0 where
  no_order :
      select_refund_order n customer_id db ≡ none
      → Refunded n customer_id reason key db (ok none, db)
  repeated :
      (o : RefundOrder) (r : Refund)
      → select_refund_order n customer_id db ≡ some o
      → select_refund n db ≡ some r
      → Refunded n customer_id reason key db
          (answer n OrderStatus.refunded r.amount false (some already_refunded), db)
  not_delivered :
      (o : RefundOrder)
      → select_refund_order n customer_id db ≡ some o
      → select_refund n db ≡ none
      → o.status ≢ delivered
      → Refunded n customer_id reason key db
          (answer n o.status o.total false (some order_not_delivered), db)
  kept_out :
      (o : RefundOrder) (e : DbError)
      → select_refund_order n customer_id db ≡ some o
      → select_refund n db ≡ none
      → o.status ≡ delivered
      → insert_refund (new_refund n reason key o) db ≡ err e
      → Refunded n customer_id reason key db (err e, db)
  created :
      (o : RefundOrder)
      → select_refund_order n customer_id db ≡ some o
      → select_refund n db ≡ none
      → o.status ≡ delivered
      → insert_refund (new_refund n reason key o) db
        ≡ ok (tt, record db { refunds = new_refund n reason key o ∷ db.refunds })
      → Refunded n customer_id reason key db
          (answer n OrderStatus.refunded o.total true none, refunded_db n reason key o db)

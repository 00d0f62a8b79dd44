-- ===== src/Database/Refunding/Laws.antt =====
-- The laws of `refund_order_row` that its callers rely on.
use langgraph_temporal_agent.Prelude.{some, arith, ℕ, Option, count, ◌≤◌, ◌≡◌, count-le-one}
use langgraph_temporal_agent.Database.Sql.{
  err, Result, DbError, is_refund_of, numeric_value_out_of_range, numeric_limit,
}
use langgraph_temporal_agent.Text.{Text}
use langgraph_temporal_agent.Database.Schema.{Database}
use langgraph_temporal_agent.Database.Invariant.{IsValid, same_order}
use langgraph_temporal_agent.Database.Refunds.{
  refund_order_row, RefundResult, refund_idempotency_key, RefundOrder, select_refund_order,
}
use langgraph_temporal_agent.Database.Refunding.Outcome.{
  Refunded, no_order, repeated, not_delivered, kept_out, created,
}
use langgraph_temporal_agent.Database.Refunding.Ends.{refund_order_row-Refunded}
use langgraph_temporal_agent.Database.Refunding.Keeps.{
  order_of_refund_order, refunded_db-IsValid, total_pos,
}
use langgraph_temporal_agent.Database.Refunding.Insert.{insert_refund_rejected}

Refunded-IsValid :
    (n : ℕ) (customer_id reason : Text) (db : Database)
    {out : Result (Option RefundResult) × Database}
    → IsValid db
    → Refunded n customer_id reason (refund_idempotency_key n) db out
    → IsValid out.1
Refunded-IsValid n customer_id reason db v (no_order _) = v
Refunded-IsValid n customer_id reason db v (repeated _ _ _ _) = v
Refunded-IsValid n customer_id reason db v (not_delivered _ _ _ _) = v
Refunded-IsValid n customer_id reason db v (kept_out _ _ _ _ _ _) = v
Refunded-IsValid n customer_id reason db v (created o found absent _ _) =
    refunded_db-IsValid n customer_id reason db v found absent

-- A call of `refund_order_row` with the key that the activity derives keeps valid tables valid.
pub refund_order_row-IsValid :
    (n : ℕ) (customer_id reason : Text) (db : Database)
    → IsValid db
    → IsValid (refund_order_row n customer_id reason (refund_idempotency_key n) db).1
refund_order_row-IsValid n customer_id reason db v =
    Refunded-IsValid n customer_id reason db v
      (refund_order_row-Refunded n customer_id reason (refund_idempotency_key n) db)

-- In valid tables an order has at most one refund row.
pub refunds_of_order-le-one :
    (n : ℕ) (db : Database) → IsValid db → count (is_refund_of n) db.refunds ≤ 1
refunds_of_order-le-one n db v =
    count-le-one same_order (is_refund_of n) db.refunds (λ r s here. ground (arith, here))
      v.refunds_distinct

Refunded-err :
    (n : ℕ) (customer_id reason : Text) (db : Database)
    {out : Result (Option RefundResult) × Database} (x : DbError)
    → IsValid db
    → Refunded n customer_id reason (refund_idempotency_key n) db out
    → out.0 ≡ err x
    → (x ≡ numeric_value_out_of_range)
      × ((o : RefundOrder) × (select_refund_order n customer_id db ≡ some o)
          × (numeric_limit ≤ o.total))
Refunded-err n customer_id reason db x v (kept_out o e found absent _ failed) raised =
    let (_, _, here, _, _, _) = order_of_refund_order n customer_id db v found in
    let bad =
      insert_refund_rejected n reason o db v here absent (total_pos n customer_id db v found)
        failed in
    (cc (bad.1), (o, found, bad.0))
Refunded-err n customer_id reason db x v (no_order _) raised = cc
Refunded-err n customer_id reason db x v (repeated _ _ _ _) raised = cc
Refunded-err n customer_id reason db x v (not_delivered _ _ _ _) raised = cc
Refunded-err n customer_id reason db x v (created _ _ _ _ _) raised = cc

-- In valid tables a refund raises only if the order's total does not fit the amount column: no
-- UNIQUE, REFERENCES or CHECK constraint of the refunds table is ever hit.
pub refund_order_row-err :
    (n : ℕ) (customer_id reason : Text) (db : Database) (x : DbError)
    → IsValid db
    → (refund_order_row n customer_id reason (refund_idempotency_key n) db).0 ≡ err x
    → (x ≡ numeric_value_out_of_range)
      × ((o : RefundOrder) × (select_refund_order n customer_id db ≡ some o)
          × (numeric_limit ≤ o.total))
refund_order_row-err n customer_id reason db x v =
    Refunded-err n customer_id reason db x v
      (refund_order_row-Refunded n customer_id reason (refund_idempotency_key n) db)

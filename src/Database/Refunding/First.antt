-- ===== src/Database/Refunding/First.antt =====
-- The first refund of a delivered order.
use langgraph_temporal_agent.Prelude.{
  none, some, refl, arith, ℕ, ◌≡◌, ◌<◌, find?, sym, ◌∙◌, Option, ap, some_inj,
}
use langgraph_temporal_agent.Database.Sql.{ok, numeric_limit, is_order, select_refund, Result}
use langgraph_temporal_agent.Text.{Text}
use langgraph_temporal_agent.Database.Schema.{Database, delivered, Order}
use langgraph_temporal_agent.Database.Refunds.{
  RefundOrder, select_refund_order, refund_order_row, refund_idempotency_key, delivered-ne-refunded,
  RefundResult,
}
use langgraph_temporal_agent.Database.Invariant.{IsValid}
use langgraph_temporal_agent.Database.Refunding.Outcome.{
  success, refunded_db, Refunded, no_order, repeated, not_delivered, created, kept_out,
}
use langgraph_temporal_agent.Database.Refunding.Keeps.{order_of_refund_order, total_pos}
use langgraph_temporal_agent.Database.Invariant.Status.{no_refund_of_status}
use langgraph_temporal_agent.Database.Refunding.Insert.{insert_refund_rejected}
use langgraph_temporal_agent.Database.Refunding.Ends.{refund_order_row-Refunded}

-- In valid tables, a delivered order of the customer whose total fits the amount column is refunded in
-- full: the answer has the total, a row with it is added, and the order's status is `refunded`.
pub refund_order_row_first :
    (n : ℕ) (customer_id reason : Text) (db : Database) (o : RefundOrder)
    → IsValid db
    → select_refund_order n customer_id db ≡ some o
    → o.status ≡ delivered
    → o.total < numeric_limit
    → refund_order_row n customer_id reason (refund_idempotency_key n) db
      ≡ (ok (some (success n o)), refunded_db n reason (refund_idempotency_key n) o db)
refund_order_row_first n customer_id reason db o v found ready small =
    go (refund_order_row-Refunded n customer_id reason (refund_idempotency_key n) db)
  where
    open_order : (p : Order) × (find? (is_order n) db.orders ≡ some p) × (o.status ≡ p.status)
    open_order =
        let (p, _, here, _, _, same) = order_of_refund_order n customer_id db v found in
        (p, here, same)

    absent : select_refund n db ≡ none
    absent =
        let (p, here, same) = open_order in
        no_refund_of_status n db v here
          (λ closed. delivered-ne-refunded (sym ready ∙ same ∙ closed))

    go :
        {out : Result (Option RefundResult) × Database}
        → Refunded n customer_id reason (refund_idempotency_key n) db out
        → out ≡ (ok (some (success n o)), refunded_db n reason (refund_idempotency_key n) o db)
    go (no_order nothing) = cc (found, nothing)
    go (repeated _ r _ present) = cc (absent, present)
    go (not_delivered p found' _ other) =
        absurd (other (ap (λ (x : RefundOrder). x.status) (some_inj (sym found' ∙ found)) ∙ ready))
    go (kept_out p e found' _ _ failed) =
        let same = some_inj (sym found' ∙ found) in
        let (q, here, _) = open_order in
        let bad =
          insert_refund_rejected n reason p db v here absent (total_pos n customer_id db v found')
            failed in
        absurd (omega (arith, bad.0, ap (λ (x : RefundOrder). x.total) same))
    go (created p found' _ _ _) = rw (some_inj (sym found' ∙ found)) refl

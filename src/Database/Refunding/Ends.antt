-- ===== src/Database/Refunding/Ends.antt =====
-- Every call of `refund_order_row` ends in one of the five ways.
use langgraph_temporal_agent.Database.Sql.{
  err, ok, database_connection, select_refund, Result, insert_refund, ◌>>◌, update_status, pure,
}
use langgraph_temporal_agent.Prelude.{none, refl, some, ℕ, Option, ◌≡◌, ◌∙◌, ap}
use langgraph_temporal_agent.Text.{Text}
use langgraph_temporal_agent.Database.Schema.{
  Database, Refund, delivered, OrderStatus-discrete, OrderStatus,
}
use langgraph_temporal_agent.Database.Refunds.{
  refund_order_row, RefundOrder, refund_existing, refund_found, select_refund_order, refund_new,
}
use langgraph_temporal_agent.Database.Refunding.Outcome.{
  Refunded, repeated, new_refund, not_delivered, success, kept_out, created, no_order,
}
use mathlib.Core.Logic.{if_pos, if_neg}
use langgraph_temporal_agent.Database.Refunding.Insert.{insert_refund-ok}

module _ (n : ℕ) (customer_id reason key : Text) (db : Database) where
  written-Refunded :
      (o : RefundOrder)
      → select_refund_order n customer_id db ≡ some o
      → select_refund n db ≡ none
      → o.status ≡ delivered
      → (ran : Result (Unit {0} × Database)) → insert_refund (new_refund n reason key o) db ≡ ran
      → Refunded n customer_id reason key db (
          database_connection
            (insert_refund (new_refund n reason key o)
              >> (update_status OrderStatus.refunded n >> pure (some (success n o))))
            db)
  unfolding database_connection
  written-Refunded o found absent ready (err x) e =
      rw (e, database_connection) (kept_out o x found absent ready e)
  written-Refunded o found absent ready (ok (u, db')) e =
      let added = insert_refund-ok (new_refund n reason key o) db db' e in
      rw (e, database_connection, added)
        (created o found absent ready (e ∙ ap (λ d. ok (tt, d)) added))

  refund_existing-Refunded :
      (o : RefundOrder) (existing : Option Refund)
      → select_refund_order n customer_id db ≡ some o
      → select_refund n db ≡ existing
      → Refunded n customer_id reason key db
          (database_connection (refund_existing n reason key o existing) db)
  unfolding database_connection refund_existing refund_new
  refund_existing-Refunded o (some r) found present = repeated o r found present
  refund_existing-Refunded o none found absent = elim (OrderStatus-discrete o.status delivered) [
    | yes ready ↦ rw (if_pos _ ready) (written-Refunded o found absent ready _ refl)
    | no other ↦ rw (if_neg _ other) (not_delivered o found absent other)
  ]

  refund_found-Refunded :
      (found : Option RefundOrder)
      → select_refund_order n customer_id db ≡ found
      → Refunded n customer_id reason key db
          (database_connection (refund_found n reason key found) db)
  unfolding database_connection refund_found
  refund_found-Refunded none e = no_order e
  refund_found-Refunded (some o) e = refund_existing-Refunded o (select_refund n db) e refl

  -- Every call of `refund_order_row` ends in one of five ways: the customer has no such order; a refund
  -- of the order exists, and its amount is answered; the order is not delivered; the insert is kept
  -- out by a constraint, whose error is raised; or the refund of the order's total is added and the
  -- order's status set to `refunded`. Only the last writes.
  pub refund_order_row-Refunded :
      Refunded n customer_id reason key db (refund_order_row n customer_id reason key db)
  unfolding refund_order_row
  refund_order_row-Refunded = refund_found-Refunded (select_refund_order n customer_id db) refl

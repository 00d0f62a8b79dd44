-- ===== src/Database/Refunding/Again.antt =====
-- A refund that is asked for again, by a retry or by a second workflow.
use langgraph_temporal_agent.Prelude.{true, false, none, arith, some, ℕ, ◌≡◌, Option, ap, ◌∙◌}
use langgraph_temporal_agent.Database.Refunds.{
  select_refund_order, refund_order_row, RefundOrder, already_refunded, refund_found,
  refund_existing, RefundResult,
}
use langgraph_temporal_agent.Text.{Text}
use langgraph_temporal_agent.Database.Schema.{Database, Refund, OrderStatus}
use langgraph_temporal_agent.Database.Refunding.Outcome.{
  refunded_db, answer, Refunded, no_order, repeated, not_delivered, kept_out, created, new_refund,
}
use langgraph_temporal_agent.Database.Sql.{select_refund, Result, database_connection}
use langgraph_temporal_agent.Database.Refunding.Ends.{refund_order_row-Refunded}
use langgraph_temporal_agent.Database.Refunding.Keeps.{select_refund_order-parts}
use langgraph_temporal_agent.Database.Cancellation.{select_order-set_status}

select_refund_order-again :
    (n : ℕ) (customer_id reason key : Text) (db : Database) {o : RefundOrder}
    → select_refund_order n customer_id db ≡ some o
    → select_refund_order n customer_id (refunded_db n reason key o db)
      ≡ some (record o { status = OrderStatus.refunded })
unfolding select_refund_order
select_refund_order-again n customer_id reason key db {o} e =
    let (p, q, present, known, same) = select_refund_order-parts n customer_id db e in
    let moved = select_order-set_status OrderStatus.refunded n customer_id db present in
    rw (moved, select_refund_order) (ground (arith, moved, known, same))

again_of_row :
    (n : ℕ) (customer_id reason' key' : Text) (db : Database) {o : RefundOrder} {r : Refund}
    → select_refund_order n customer_id db ≡ some o
    → select_refund n db ≡ some r
    → refund_order_row n customer_id reason' key' db
      ≡ (answer n OrderStatus.refunded r.amount false (some already_refunded), db)
unfolding refund_order_row
again_of_row n customer_id reason' key' db {o} found present =
    ap (λ order. database_connection (refund_found n reason' key' order) db) found
    ∙ ap (λ existing. database_connection (refund_existing n reason' key' o existing) db) present

-- Whoever asks again after a refund, with any reason and any key, is told `already_refunded` with
-- the amount of the first refund, and nothing is written.
pub refund_order_row_again :
    (n : ℕ) (customer_id reason key reason' key' : Text) (db : Database) (amount : ℕ)
    → (refund_order_row n customer_id reason key db).0
      ≡ answer n OrderStatus.refunded amount true none
    → let after = (refund_order_row n customer_id reason key db).1 in
      refund_order_row n customer_id reason' key' after
      ≡ (answer n OrderStatus.refunded amount false (some already_refunded), after)
refund_order_row_again n customer_id reason key reason' key' db amount done =
    go (refund_order_row-Refunded n customer_id reason key db) done
  where
    go :
        {out : Result (Option RefundResult) × Database}
        → Refunded n customer_id reason key db out
        → out.0 ≡ answer n OrderStatus.refunded amount true none
        → refund_order_row n customer_id reason' key' out.1
          ≡ (answer n OrderStatus.refunded amount false (some already_refunded), out.1)
    go (no_order _) h = cc
    go (repeated _ _ _ _) h = cc
    go (not_delivered _ _ _ _) h = cc
    go (kept_out _ _ _ _ _ _) h = cc
    go (created o found absent ready _) h =
        let worth : o.total ≡ amount = cc in
        rw (← worth) (
          again_of_row n customer_id reason' key' (refunded_db n reason key o db)
            {r = new_refund n reason key o}
            (select_refund_order-again n customer_id reason key db found) (ground arith))

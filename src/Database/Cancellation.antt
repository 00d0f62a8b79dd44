-- ===== src/Database/Cancellation.antt =====
-- What `cancel_order_row` does to the tables, and what it answers.
use langgraph_temporal_agent.Prelude.{
  inr, inl, none, true, some, false, refl, ℕ, ◌≡◌, Bool-cases, Option, arith, Bool, find?-update,
  ◌==◌, ◌&&◌,
}
use langgraph_temporal_agent.Database.Sql.{
  ok, Result, select_order, database_connection, err, with_status, is_order,
}
use langgraph_temporal_agent.Database.Orders.{
  cancel_order_row, CancellationResult, is_cancellable, rejection_reason, cancel_found,
  ne-refunded_of_is_cancellable,
}
use langgraph_temporal_agent.Text.{Text, text_eq}
use langgraph_temporal_agent.Database.Schema.{Database, Order, OrderStatus}
use langgraph_temporal_agent.Database.Invariant.Status.{
  set_status, set_status-IsValid, no_refund_of_status,
}
use langgraph_temporal_agent.Database.Invariant.{IsValid}
use langgraph_temporal_agent.Database.Invariant.Lookup.{find?-select_order, select_order-owner}

-- What one call has done: it answers, and either changes nothing and says that nothing was
-- cancelled, or has moved a cancellable order of this customer to `cancelled`.
pub data Cancelled (n : ℕ) (customer_id : Text) (db : Database)
    : Result CancellationResult × Database → Type 0 where
  missing :
      (r : CancellationResult)
      → select_order n customer_id db ≡ none
      → r.found ≡ false
      → r.cancelled ≡ false
      → Cancelled n customer_id db (ok r, db)
  refused :
      (r : CancellationResult) (o : Order)
      → select_order n customer_id db ≡ some o
      → is_cancellable o.status ≡ false
      → r.found ≡ true
      → r.cancelled ≡ false
      → r.status ≡ some o.status
      → r.reason ≡ rejection_reason o.status
      → Cancelled n customer_id db (ok r, db)
  done :
      (r : CancellationResult) (o : Order)
      → select_order n customer_id db ≡ some o
      → is_cancellable o.status ≡ true
      → r.found ≡ true
      → r.cancelled ≡ true
      → r.previous_status ≡ some o.status
      → Cancelled n customer_id db
          (ok r, record db { orders = set_status OrderStatus.cancelled n db.orders })

cancel_found-Cancelled :
    (n : ℕ) (customer_id : Text) (db : Database) (found : Option Order)
    → select_order n customer_id db ≡ found
    → Cancelled n customer_id db (database_connection (cancel_found n found) db)
unfolding cancel_order_row
cancel_found-Cancelled n customer_id db none e = missing _ e refl refl
cancel_found-Cancelled n customer_id db (some o) e = elim (Bool-cases (is_cancellable o.status)) [
  | inl allowed ↦ rw allowed (done _ o e allowed refl refl refl)
  | inr closed ↦ rw closed (refused _ o e closed refl refl refl refl)
]

-- Every call of `cancel_order_row` answers, in one of three ways: the customer has no such order, and
-- nothing is written; the order's status cannot be cancelled, the answer gives the status and the
-- reason that belongs to it, and nothing is written; or the status can be cancelled, and just this
-- order's status is set to `cancelled`.
pub cancel_order_row-Cancelled :
    (n : ℕ) (customer_id : Text) (db : Database)
    → Cancelled n customer_id db (cancel_order_row n customer_id db)
unfolding cancel_order_row
cancel_order_row-Cancelled n customer_id db = cancel_found-Cancelled n customer_id db _ refl

abbrev pub was_cancelled : Result CancellationResult → Bool
was_cancelled (ok r) = r.cancelled
was_cancelled (err _) = false

Cancelled-IsValid :
    (n : ℕ) (customer_id : Text) (db : Database) {out : Result CancellationResult × Database}
    → IsValid db
    → Cancelled n customer_id db out
    → IsValid out.1
Cancelled-IsValid n customer_id db v (missing _ _ _ _) = v
Cancelled-IsValid n customer_id db v (refused _ _ _ _ _ _ _ _) = v
Cancelled-IsValid n customer_id db v (done r o present allowed _ _ _) =
    set_status-IsValid OrderStatus.cancelled n db v (
      inr (
        no_refund_of_status n db v
          (find?-select_order n customer_id db.orders v.orders_distinct present)
          (ne-refunded_of_is_cancellable o.status allowed)))

-- A cancellation keeps valid tables valid: the constraints, and every refund's order refunded.
pub cancel_order_row-IsValid :
    (n : ℕ) (customer_id : Text) (db : Database)
    → IsValid db
    → IsValid (cancel_order_row n customer_id db).1
cancel_order_row-IsValid n customer_id db v =
    Cancelled-IsValid n customer_id db v (cancel_order_row-Cancelled n customer_id db)

pub select_order-set_status :
    (s : OrderStatus) (n : ℕ) (customer_id : Text) (db : Database) {o : Order}
    → select_order n customer_id db ≡ some o
    → select_order n customer_id (record db { orders = set_status s n db.orders })
      ≡ some (with_status s o)
select_order-set_status s n customer_id db {o} e =
    rw
      (find?-update (is_order n) (with_status s)
        (λ x. x.id == n && text_eq x.customer_id customer_id) db.orders (λ x. refl))
      (ground (arith, e, select_order-owner n customer_id db e))

Cancelled-again :
    (n : ℕ) (customer_id : Text) (db : Database) {out again : Result CancellationResult × Database}
    → Cancelled n customer_id db out
    → Cancelled n customer_id out.1 again
    → (again.1 ≡ out.1) × (was_cancelled again.0 ≡ false)
unfolding is_cancellable
Cancelled-again n customer_id db (missing _ absent _ _) (missing _ _ _ no_cancel) =
    (refl, no_cancel)
Cancelled-again n customer_id db (missing _ absent _ _) (refused _ _ _ _ _ no_cancel _ _) =
    (refl, no_cancel)
Cancelled-again n customer_id db (missing _ absent _ _) (done _ _ present _ _ _ _) = cc
Cancelled-again n customer_id db (refused _ _ _ _ _ _ _ _) (missing _ _ _ no_cancel) =
    (refl, no_cancel)
Cancelled-again n customer_id db (refused _ _ _ _ _ _ _ _) (refused _ _ _ _ _ no_cancel _ _) =
    (refl, no_cancel)
Cancelled-again n customer_id db (refused _ _ present closed _ _ _ _)
      (done _ _ again allowed _ _ _) =
    cc
Cancelled-again n customer_id db (done _ _ _ _ _ _ _) (missing _ _ _ no_cancel) = (refl, no_cancel)
Cancelled-again n customer_id db (done _ _ _ _ _ _ _) (refused _ _ _ _ _ no_cancel _ _) =
    (refl, no_cancel)
Cancelled-again n customer_id db (done _ o present _ _ _ _) (done _ p again allowed _ _ _) =
    cc (select_order-set_status OrderStatus.cancelled n customer_id db present)

-- A second cancellation of the same order changes nothing and reports that nothing was cancelled.
pub cancel_order_row_again :
    (n : ℕ) (customer_id : Text) (db : Database)
    → let first = cancel_order_row n customer_id db in
      let second = cancel_order_row n customer_id first.1 in
      (second.1 ≡ first.1) × (was_cancelled second.0 ≡ false)
cancel_order_row_again n customer_id db =
    Cancelled-again n customer_id db (cancel_order_row-Cancelled n customer_id db)
      (cancel_order_row-Cancelled n customer_id _)

-- A cancellation writes no refund.
pub refunds-cancel_order_row :
    (n : ℕ) (customer_id : Text) (db : Database)
    → (cancel_order_row n customer_id db).1.refunds ≡ db.refunds
refunds-cancel_order_row n customer_id db = go (cancel_order_row-Cancelled n customer_id db)
  where
    go :
        {out : Result CancellationResult × Database}
        → Cancelled n customer_id db out
        → out.1.refunds ≡ db.refunds
    go (missing _ _ _ _) = refl
    go (refused _ _ _ _ _ _ _ _) = refl
    go (done _ _ _ _ _ _ _) = refl

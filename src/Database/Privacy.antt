-- ===== src/Database/Privacy.antt =====
-- A customer's queries see the customer's own orders only, and change no others.
use langgraph_temporal_agent.Prelude.{
  inl, [], inr, some, none, ℕ, List, ◌≡◌, filter, find?, Option, ◌∙◌, ap, find?-filter, sym, ◌≢◌,
  Option-cases, arith, refl,
}
use langgraph_temporal_agent.Text.{Text, text_eq}
use langgraph_temporal_agent.Database.Orders.{
  cancel_order_row, get_order_status_row, CancellationResult, cancel_found,
}
use langgraph_temporal_agent.Database.Schema.{Database, Order, OrderStatus}
use langgraph_temporal_agent.Database.Sql.{select_order, Result, is_order, database_connection}
use langgraph_temporal_agent.Database.Invariant.{IsValid}
use langgraph_temporal_agent.Database.Cancellation.{
  Cancelled, cancel_order_row-Cancelled, missing, refused, done,
}
use langgraph_temporal_agent.Database.Invariant.Lookup.{find?-select_order, select_order-owner}
use langgraph_temporal_agent.Database.Invariant.Status.{find?-set_status_other}

-- The orders of one customer.
abbrev pub orders_of : Text → Database → List Order
orders_of customer_id db = filter (λ o. text_eq o.customer_id customer_id) db.orders

pub select_order-orders_of :
    (n : ℕ) (customer_id : Text) (db : Database)
    → select_order n customer_id db ≡ find? (is_order n) (orders_of customer_id db)
select_order-orders_of n customer_id db =
    find?-filter (is_order n) (λ o. text_eq o.customer_id customer_id) db.orders

-- The answer depends on the row that is found, and on nothing else in the tables.
cancel_found_answer :
    (n : ℕ) (db db' : Database) (found : Option Order)
    → (database_connection (cancel_found n found) db).0
      ≡ (database_connection (cancel_found n found) db').0
unfolding cancel_order_row
cancel_found_answer n db db' none = refl
cancel_found_answer n db db' (some o) = ground arith

cancel_order_row_answer :
    (n : ℕ) (customer_id : Text) (db db' : Database)
    → select_order n customer_id db ≡ select_order n customer_id db'
    → (cancel_order_row n customer_id db).0 ≡ (cancel_order_row n customer_id db').0
unfolding cancel_order_row
cancel_order_row_answer n customer_id db db' e =
    ap (λ found. (database_connection (cancel_found n found) db).0) e
    ∙ cancel_found_answer n db db' (select_order n customer_id db')

-- Two databases with the same orders of this customer give the customer the same status row and
-- the same answer to a cancellation, whatever other customers have ordered.
pub cancel_order_row_private :
    (n : ℕ) (customer_id : Text) (db db' : Database)
    → orders_of customer_id db ≡ orders_of customer_id db'
    → (get_order_status_row n customer_id db ≡ get_order_status_row n customer_id db')
      × ((cancel_order_row n customer_id db).0 ≡ (cancel_order_row n customer_id db').0)
unfolding get_order_status_row
cancel_order_row_private n customer_id db db' e =
    let same : select_order n customer_id db ≡ select_order n customer_id db' =
      select_order-orders_of n customer_id db
      ∙ ap (find? (is_order n)) e
      ∙ sym (select_order-orders_of n customer_id db') in
    (same, cancel_order_row_answer n customer_id db db' same)

select_order_foreign :
    (n : ℕ) (customer_id : Text) (db : Database) {o : Order}
    → IsValid db
    → find? (is_order n) db.orders ≡ some o
    → o.customer_id ≢ customer_id
    → select_order n customer_id db ≡ none
select_order_foreign n customer_id db {o} v e ne =
    elim (Option-cases (select_order n customer_id db)) [
      | inl absent ↦ absent
      | inr (p, present) ↦
          let same = find?-select_order n customer_id db.orders v.orders_distinct present in
          absurd (ne (cc (e, same, (select_order-owner n customer_id db present).1)))
    ]

Cancelled-others :
    (n m : ℕ) (customer_id : Text) (db : Database) {o : Order}
    {out : Result CancellationResult × Database}
    → IsValid db
    → find? (is_order m) db.orders ≡ some o
    → o.customer_id ≢ customer_id
    → Cancelled n customer_id db out
    → find? (is_order m) out.1.orders ≡ some o
Cancelled-others n m customer_id db v e ne (missing _ _ _ _) = e
Cancelled-others n m customer_id db v e ne (refused _ _ _ _ _ _ _ _) = e
Cancelled-others n m customer_id db {o} v e ne (done r p present _ _ _ _) =
    find?-set_status_other OrderStatus.cancelled n m db e (λ same. ne (
      cc (
        find?-select_order n customer_id db.orders v.orders_distinct present,
        rw same at e,
        (select_order-owner n customer_id db present).1,
      )))

-- In valid tables, the cancellation of an order that belongs to another customer is answered as in
-- tables without any order.
pub foreign_order_looks_missing :
    (n : ℕ) (customer_id : Text) (db : Database) {o : Order}
    → IsValid db
    → find? (is_order n) db.orders ≡ some o
    → o.customer_id ≢ customer_id
    → (cancel_order_row n customer_id db).0
      ≡ (cancel_order_row n customer_id (record db { orders = [] })).0
foreign_order_looks_missing n customer_id db {o} v e ne =
    cancel_order_row_answer n customer_id db (record db { orders = [] })
      (select_order_foreign n customer_id db v e ne)

-- In valid tables, a cancellation leaves every order of every other customer as it was.
pub cancel_order_row_others :
    (n m : ℕ) (customer_id : Text) (db : Database) {o : Order}
    → IsValid db
    → find? (is_order m) db.orders ≡ some o
    → o.customer_id ≢ customer_id
    → find? (is_order m) (cancel_order_row n customer_id db).1.orders ≡ some o
cancel_order_row_others n m customer_id db v e ne =
    Cancelled-others n m customer_id db v e ne (cancel_order_row-Cancelled n customer_id db)

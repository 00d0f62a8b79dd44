-- ===== src/Database/Refunding/Keeps.antt =====
-- A refund keeps the tables valid, raises only on an amount that the column cannot hold, and a
-- repeated refund changes nothing.
use langgraph_temporal_agent.Prelude.{
  refl, none, inl, arith, inr, some, ℕ, List, find?, ◌≡◌, ◌<◌, All-find?, ◌*◌, find?-update,
  Option-cases, ap, find?-holds,
}
use langgraph_temporal_agent.Database.Refunds.{
  select_refund_order, RefundOrder, refund_idempotency_key,
}
use langgraph_temporal_agent.Database.Schema.{OrderStatus, Database, Order, Product}
use langgraph_temporal_agent.Text.{Text}
use langgraph_temporal_agent.Database.Invariant.{IsValid, IsSound}
use langgraph_temporal_agent.Database.Sql.{
  is_order, select_refund, select_order, is_product, with_status, select_product,
}
use langgraph_temporal_agent.Database.Invariant.Status.{set_status, set_status-IsValid}
use langgraph_temporal_agent.Database.Invariant.Lookup.{find?-select_order}
use langgraph_temporal_agent.Database.Refunding.Outcome.{refunded_db}

pub select_refund_order-parts :
    (n : ℕ) (customer_id : Text) (db : Database) {o : RefundOrder}
    → select_refund_order n customer_id db ≡ some o
    → (p : Order) × (q : Product) × (select_order n customer_id db ≡ some p)
      × (select_product p.product_sku db ≡ some q)
      × (o ≡ record { id = p.id; status = p.status; total = q.price * p.quantity })
unfolding select_refund_order
select_refund_order-parts n customer_id db {o} e =
    elim (Option-cases (select_order n customer_id db)) [
      | inl absent ↦ cc (rw (absent, select_refund_order) at e)
      | inr (p, present) ↦ elim (Option-cases (select_product p.product_sku db)) [
        | inl unknown ↦ ground (arith, present, unknown)
        | inr (q, known) ↦ (p, q, present, known, ground (arith, present, known))
      ]
    ]

-- The order that a query finds is the one with its id, and its total is above zero.
module _ (n : ℕ) (customer_id : Text) (db : Database) {o : RefundOrder} (v : IsValid db)
    (e : select_refund_order n customer_id db ≡ some o) where
  pub total_pos : 0 < o.total
  total_pos =
      let (p, q, present, known, same) = select_refund_order-parts n customer_id db e in
      let found = find?-select_order n customer_id db.orders v.orders_distinct present in
      let sound =
        All-find? (IsSound db.products db.next_order_id) (is_order n) db.orders v.orders_sound
          found in
      let priced =
        All-find? (λ x. 0 < x.price) (is_product p.product_sku) db.products v.priced known in
      rw same (grind (arith, sound.at_least, priced))

  pub order_of_refund_order :
      (p : Order) × (q : Product) × (find? (is_order n) db.orders ≡ some p)
      × (find? (is_product p.product_sku) db.products ≡ some q)
      × (o.total ≡ q.price * p.quantity)
      × (o.status ≡ p.status)
  order_of_refund_order =
      let (p, q, present, known, same) = select_refund_order-parts n customer_id db e in
      (
        p,
        q,
        find?-select_order n customer_id db.orders v.orders_distinct present,
        known,
        ap (λ (x : RefundOrder). x.total) same,
        ap (λ (x : RefundOrder). x.status) same,
      )

find?-set_status_self :
    (s : OrderStatus) (n : ℕ) (os : List Order) {p : Order}
    → find? (is_order n) os ≡ some p
    → find? (is_order n) (set_status s n os) ≡ some (with_status s p)
find?-set_status_self s n os {p} e =
    rw (find?-update (is_order n) (with_status s) (is_order n) os (λ x. refl))
      (ground (arith, e, find?-holds (is_order n) os e))

-- The tables stay valid when the order is closed and its refund added.
pub refunded_db-IsValid :
    (n : ℕ) (customer_id reason : Text) (db : Database) {o : RefundOrder}
    → IsValid db
    → select_refund_order n customer_id db ≡ some o
    → select_refund n db ≡ none
    → IsValid (refunded_db n reason (refund_idempotency_key n) o db)
refunded_db-IsValid n customer_id reason db {o} v e absent =
    let (p, q, found, known, worth, _) = order_of_refund_order n customer_id db v e in
    let closed = set_status-IsValid OrderStatus.refunded n db v (inl refl) in
    record {
      priced = closed.priced;
      orders_distinct = closed.orders_distinct;
      refunds_distinct = (absent, closed.refunds_distinct);
      orders_sound = closed.orders_sound;
      refunds_backed = (
        record {
          order = with_status OrderStatus.refunded p;
          product = q;
          found = find?-set_status_self OrderStatus.refunded n db.orders found;
          stocked = known;
          closed = refl;
          worth = worth;
          keyed = refl;
        },
        closed.refunds_backed,
      );
    }

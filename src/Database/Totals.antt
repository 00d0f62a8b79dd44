-- ===== src/Database/Totals.antt =====
-- The total of an order never changes: no function of app/database.py writes a price, a quantity or
-- an order's product.
use langgraph_temporal_agent.Prelude.{
  refl, ◌∷◌, some, arith, none, ℕ, ◌≡◌, find?, changed, Option, ◌*◌, find?-update, ==_iff, ◌==◌,
  ◌&&◌,
}
use langgraph_temporal_agent.Database.Schema.{Database, OrderStatus, Order}
use langgraph_temporal_agent.Database.Refunds.{
  select_refund_order, RefundOrder, refund_order_row, RefundResult,
}
use langgraph_temporal_agent.Text.{Text, text_eq}
use langgraph_temporal_agent.Database.Invariant.{IsValid}
use langgraph_temporal_agent.Database.Invariant.Status.{set_status}
use langgraph_temporal_agent.Database.Orders.{cancel_order_row, CancellationResult}
use langgraph_temporal_agent.Database.Listing.{create_order_row, OrderRow}
use langgraph_temporal_agent.Database.Sql.{select_order, Result, is_order, with_status}
use langgraph_temporal_agent.Database.Refunding.Keeps.{select_refund_order-parts}
use langgraph_temporal_agent.Database.Invariant.Lookup.{find?-select_order}
use langgraph_temporal_agent.Database.Cancellation.{
  Cancelled, missing, refused, done, cancel_order_row-Cancelled,
}
use langgraph_temporal_agent.Database.Refunding.Outcome.{
  kept_out, Refunded, no_order, repeated, not_delivered, created,
}
use langgraph_temporal_agent.Database.Refunding.Ends.{refund_order_row-Refunded}
use langgraph_temporal_agent.Database.Creation.{
  Created, unknown_product, bad_quantity, next_order, next_id_is_free, create_order_row-Created,
  inserted,
}

-- Every order that a query finds in `db`, the same query finds in `db'`, with the same total.
abbrev pub KeepsTotals : Database → Database → Type 0
KeepsTotals db db' =
    (n : ℕ) (customer_id : Text) (o : RefundOrder)
    → select_refund_order n customer_id db ≡ some o
    → (o' : RefundOrder) × (select_refund_order n customer_id db' ≡ some o') × (o'.total ≡ o.total)

pub KeepsTotals-refl : (db : Database) → KeepsTotals db db
KeepsTotals-refl db n customer_id o e = (o, e, refl)

-- Two databases with the same products, where the query for an order finds it with the same product
-- and quantity.
KeepsTotals-of_order :
    (n : ℕ) (customer_id : Text) (db db' : Database) (o : RefundOrder)
    → db.products ≡ db'.products
    → ((p : Order)
        → select_order n customer_id db ≡ some p
        → (p' : Order) × (select_order n customer_id db' ≡ some p')
          × (p'.product_sku ≡ p.product_sku)
          × (p'.quantity ≡ p.quantity))
    → select_refund_order n customer_id db ≡ some o
    → (o' : RefundOrder) × (select_refund_order n customer_id db' ≡ some o') × (o'.total ≡ o.total)
unfolding select_refund_order
KeepsTotals-of_order n customer_id db db' o same keeps e =
    let (p, q, present, known, row) = select_refund_order-parts n customer_id db e in
    let (p', present', sku, quantity) = keeps p present in
    (
      record { id = p'.id; status = p'.status; total = q.price * p'.quantity },
      ground (arith, present', sku, same, known),
      ground (arith, row, quantity),
    )

pub KeepsTotals-set_status :
    (s : OrderStatus) (m : ℕ) (db db' : Database)
    → db.products ≡ db'.products
    → db'.orders ≡ set_status s m db.orders
    → KeepsTotals db db'
KeepsTotals-set_status s m db db' same changed_orders n customer_id o e =
    KeepsTotals-of_order n customer_id db db' o same
      (λ p present. (
        changed (is_order m) (with_status s) p,
        rw
            (
              changed_orders,
              find?-update (is_order m) (with_status s)
                  (λ x. x.id == n && text_eq x.customer_id customer_id) db.orders (λ x. refl),
              present,
            )
            refl,
        ground arith,
        ground arith,
      ))
      e

pub KeepsTotals-cancel_order_row :
    (m : ℕ) (customer : Text) (db : Database) → KeepsTotals db (cancel_order_row m customer db).1
KeepsTotals-cancel_order_row m customer db = go (cancel_order_row-Cancelled m customer db)
  where
    go :
        {out : Result CancellationResult × Database}
        → Cancelled m customer db out
        → KeepsTotals db out.1
    go (missing _ _ _ _) = KeepsTotals-refl db
    go (refused _ _ _ _ _ _ _ _) = KeepsTotals-refl db
    go (done _ _ _ _ _ _ _) = KeepsTotals-set_status OrderStatus.cancelled m db _ refl refl

pub KeepsTotals-refund_order_row :
    (m : ℕ) (customer reason key : Text) (db : Database)
    → KeepsTotals db (refund_order_row m customer reason key db).1
KeepsTotals-refund_order_row m customer reason key db =
    go (refund_order_row-Refunded m customer reason key db)
  where
    go :
        {out : Result (Option RefundResult) × Database}
        → Refunded m customer reason key db out
        → KeepsTotals db out.1
    go (no_order _) = KeepsTotals-refl db
    go (repeated _ _ _ _) = KeepsTotals-refl db
    go (not_delivered _ _ _ _) = KeepsTotals-refl db
    go (kept_out _ _ _ _ _ _) = KeepsTotals-refl db
    go (created _ _ _ _ _) = KeepsTotals-set_status OrderStatus.refunded m db _ refl refl

KeepsTotals-new_order :
    (new : Order) (next : ℕ) (db : Database)
    → IsValid db
    → find? (is_order new.id) db.orders ≡ none
    → KeepsTotals db (record db { orders = new ∷ db.orders; next_order_id = next })
KeepsTotals-new_order new next db v free n customer_id o e =
    KeepsTotals-of_order n customer_id db
      (record db { orders = new ∷ db.orders; next_order_id = next }) o refl
      (λ p present.
        let found = find?-select_order n customer_id db.orders v.orders_distinct present in
        (p, ground (arith, free, found, present, ==_iff new.id n), refl, refl))
      e

pub KeepsTotals-create_order_row :
    (now : ℕ) (customer sku : Text) (quantity : ℕ) (db : Database)
    → IsValid db
    → KeepsTotals db (create_order_row now customer sku quantity db).1
KeepsTotals-create_order_row now customer sku quantity db v =
    go (create_order_row-Created now customer sku quantity db v)
  where
    go :
        {out : Result (Option OrderRow) × Database}
        → Created now customer sku quantity db out
        → KeepsTotals db out.1
    go (unknown_product _) = KeepsTotals-refl db
    go (bad_quantity _) = KeepsTotals-refl db
    go (inserted _ _ _ _) =
        KeepsTotals-new_order (next_order now customer sku quantity db) _ db v
          (next_id_is_free db v)

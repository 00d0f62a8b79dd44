-- ===== src/Database/Invariant.antt =====
-- What holds of the tables between two transactions: the declared constraints, and the ties between
-- orders and refunds that only the code keeps.
pub mod Lookup
pub mod Status
use langgraph_temporal_agent.Prelude.{
  ℕ, ◌*◌, ◌≤◌, ◌<◌, ◌≡◌, some, All, IsDistinct, find?, Bool, List,
}
use langgraph_temporal_agent.Database.Schema.{Database, Order, Product, Refund, refunded}
use langgraph_temporal_agent.Database.Sql.{is_order, is_refund_of, is_product}
use langgraph_temporal_agent.Database.Refunds.{refund_idempotency_key}

abbrev pub same_id : Order → Order → Bool
same_id o = is_order o.id

abbrev pub same_order : Refund → Refund → Bool
same_order r = is_refund_of r.order_id

abbrev pub same_sku : Product → Product → Bool
same_sku p = is_product p.sku

-- The product of an order exists, its quantity is in range, and its id has been drawn.
pub record IsSound (products : List Product) (next : ℕ) (o : Order) : Type 0 where
  pub product : Product
  pub stocked : find? (is_product o.product_sku) products ≡ some product
  pub at_least : 1 ≤ o.quantity
  pub at_most : o.quantity ≤ 10
  pub drawn : o.id < next

-- A refund belongs to an order that is refunded, is worth the order's total, and has its key.
pub record IsBacked (products : List Product) (orders : List Order) (r : Refund) : Type 0 where
  pub order : Order
  pub product : Product
  pub found : find? (is_order r.order_id) orders ≡ some order
  pub stocked : find? (is_product order.product_sku) products ≡ some product
  pub closed : order.status ≡ refunded
  pub worth : r.amount ≡ product.price * order.quantity
  pub keyed : r.idempotency_key ≡ refund_idempotency_key r.order_id

pub record IsValid (db : Database) : Type 0 where
  pub priced : All (λ p. 0 < p.price) db.products
  pub orders_distinct : IsDistinct same_id db.orders
  pub refunds_distinct : IsDistinct same_order db.refunds
  pub orders_sound : All (IsSound db.products db.next_order_id) db.orders
  pub refunds_backed : All (IsBacked db.products db.orders) db.refunds

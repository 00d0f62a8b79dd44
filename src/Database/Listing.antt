-- ===== src/Database/Listing.antt =====
-- Orders joined with their products, and the queries of app/database.py that list and create.
pub mod Laws
pub mod Rows
pub mod Listed
use langgraph_temporal_agent.Prelude.{
  ℕ, suc, ◌*◌, Bool, true, false, Option, none, some, List, [], ◌∷◌, ◌&&◌, leb, ◌==◌, if◌then◌else◌,
  find?, filter, take, length,
}
use mathlib.Core.Logic.{ite}
use langgraph_temporal_agent.Text.{Text, text_eq}
use langgraph_temporal_agent.Database.Schema.{
  Database, Order, OrderStatus, Product, ProductCategory, OrderStatus-discrete,
  ProductCategory-discrete, pending,
}
use langgraph_temporal_agent.Database.Sql.{
  Sql, Result, pure, gets, modify, ◌>>=◌, ◌>>◌, database_connection, select_product, insert_order,
  is_product,
}

-- A row of ORDER_SELECT.
pub record OrderRow : Type 0 where
  pub id : ℕ
  pub customer_id : Text
  pub quantity : ℕ
  pub status : OrderStatus
  pub created_at : ℕ
  pub sku : Text
  pub name : Text
  pub category : ProductCategory
  pub price : ℕ
  pub total : ℕ

abbrev pub order_row : Order → Product → OrderRow
order_row o p = record {
  id = o.id;
  customer_id = o.customer_id;
  quantity = o.quantity;
  status = o.status;
  created_at = o.created_at;
  sku = p.sku;
  name = p.name;
  category = p.category;
  price = p.price;
  total = p.price * o.quantity;
}

-- `JOIN products p ON p.sku = o.product_sku`: an order with no product has no row.
unfoldable pub join_products : List Product → List Order → List OrderRow
join_products ps [] = []
join_products ps (o ∷ os) =
    let rest = join_products ps os in
    elim (find? (is_product o.product_sku) ps) [ none ↦ rest | some p ↦ order_row o p ∷ rest ]

unfoldable pub insert_by_id : OrderRow → List OrderRow → List OrderRow
insert_by_id r [] = r ∷ []
insert_by_id r (s ∷ rows) = if leb r.id s.id then r ∷ s ∷ rows else s ∷ insert_by_id r rows

-- `ORDER BY o.id`
unfoldable pub order_by_id : List OrderRow → List OrderRow
unfolding insert_by_id
order_by_id [] = []
order_by_id (r ∷ rows) = insert_by_id r (order_by_id rows)

-- A clause of WHERE that is there only if the caller gave a value.
abbrev pub given {ℓ} : {A : Type ℓ} → Option A → (A → Bool) → Bool
given none test = true
given (some a) test = test a

abbrev pub status_eq : OrderStatus → OrderStatus → Bool
status_eq s t = ite (OrderStatus-discrete s t) true false

abbrev pub where_clauses : Option OrderStatus → Option Text → OrderRow → Bool
where_clauses status customer_id r =
    given status (status_eq r.status) && given customer_id (text_eq r.customer_id)

unfoldable pub list_order_rows : Option OrderStatus → ℕ → Option Text → Database → List OrderRow
unfolding join_products order_by_id
list_order_rows status limit customer_id db =
    take limit (
      order_by_id (filter (where_clauses status customer_id) (join_products db.products db.orders)))

abbrev pub category_eq : ProductCategory → ProductCategory → Bool
category_eq s t = ite (ProductCategory-discrete s t) true false

unfoldable pub database_counts : Database → ℕ × ℕ
database_counts db = (length db.orders, length db.products)

-- `RETURNING id`, then the joined row of the new order.
unfoldable pub create_known : ℕ → Text → Text → ℕ → Option Product → Sql (Option OrderRow)
unfolding insert_order
create_known now customer_id product_sku quantity none = pure none
create_known now customer_id product_sku quantity (some _) = do
  id ← gets (λ db. db.next_order_id)
  modify (λ db. record db { next_order_id = suc id })
  insert_order (record {
    id = id;
    customer_id = customer_id;
    product_sku = product_sku;
    quantity = quantity;
    status = pending;
    created_at = now;
  })
  gets (λ db. find? {A = OrderRow} (λ r. r.id == id) (join_products db.products db.orders))

-- `now` is CURRENT_TIMESTAMP. A sequence does not roll back; here an id whose insert failed is
-- drawn again, which no caller can tell from an id that was never drawn.
unfoldable pub create_order_row :
    ℕ → Text → Text → ℕ → Database → Result (Option OrderRow) × Database
unfolding create_known database_connection join_products
create_order_row now customer_id product_sku quantity = database_connection do
  product ← gets (select_product product_sku)
  create_known now customer_id product_sku quantity product

-- ===== src/Database/Sql.antt =====
-- Statements inside `with database_connection()`: they see the writes made before them, and an
-- error that leaves the block rolls all of them back.
use langgraph_temporal_agent.Prelude.{
  ℕ, Bool, true, false, not, Option, none, some, ◌&&◌, ◌∷◌, leb, ◌==◌, find?, update,
}
use langgraph_temporal_agent.Text.{Text, text_eq}
use langgraph_temporal_agent.Database.Schema.{Database, Order, OrderStatus, Product, Refund}

-- The constraints that PostgreSQL enforces on the writes of this module.
pub data DbError : Type 0 where
  unique_violation foreign_key_violation check_violation numeric_value_out_of_range : DbError

pub data Result {ℓ} (A : Type ℓ) : Type ℓ where
  ok : A → Result A
  err : DbError → Result A

abbrev pub Sql : Type 0 → Type 0
Sql A = Database → Result (A × Database)

infixl 5 ◌>>=◌ ◌>>◌
abbrev pub ◌>>=◌ : {A B : Type 0} → Sql A → (A → Sql B) → Sql B
◌>>=◌ m f db = elim (m db) [ ok (a, db') ↦ f a db' | err e ↦ err e ]

abbrev pub ◌>>◌ : {A B : Type 0} → Sql A → Sql B → Sql B
m >> n = m >>= λ _. n

abbrev pub pure : {A : Type 0} → A → Sql A
pure a db = ok (a, db)

abbrev pub gets : {A : Type 0} → (Database → A) → Sql A
gets f db = ok (f db, db)

abbrev pub reject_if : Bool → DbError → Sql (Unit {0})
reject_if true e db = err e
reject_if false e db = ok (tt, db)

abbrev pub modify : (Database → Database) → Sql (Unit {0})
modify f db = ok (tt, f db)

-- psycopg commits when the block ends or returns, and rolls back when it raises.
unfoldable pub database_connection : {A : Type 0} → Sql A → Database → Result A × Database
database_connection m db = elim (m db) [ ok (a, db') ↦ (ok a, db') | err e ↦ (err e, db) ]

abbrev pub is_order : ℕ → Order → Bool
is_order n o = o.id == n

abbrev pub is_refund_of : ℕ → Refund → Bool
is_refund_of n r = r.order_id == n

abbrev pub is_product : Text → Product → Bool
is_product sku p = text_eq p.sku sku

-- `SELECT … FROM orders WHERE id = … AND customer_id = …`
abbrev pub select_order : ℕ → Text → Database → Option Order
select_order n customer_id db =
    find? (λ o. o.id == n && text_eq o.customer_id customer_id) db.orders

abbrev pub select_product : Text → Database → Option Product
select_product sku db = find? (is_product sku) db.products

-- `SELECT amount FROM refunds WHERE order_id = …`
abbrev pub select_refund : ℕ → Database → Option Refund
select_refund n db = find? (is_refund_of n) db.refunds

abbrev pub with_status : OrderStatus → Order → Order
with_status s o = record o { status = s }

-- `UPDATE orders SET status = … WHERE id = …`
abbrev pub update_status : OrderStatus → ℕ → Sql (Unit {0})
update_status s n =
    modify λ db. record db { orders = update (is_order n) (with_status s) db.orders }

-- NUMERIC(10, 2) holds less than 10^8, here in cents.
abbrev pub numeric_limit : ℕ
numeric_limit = 10000000000

-- `INSERT INTO refunds …` with the table's constraints: UNIQUE (order_id), REFERENCES orders(id),
-- NUMERIC(10, 2), CHECK (amount > 0), UNIQUE (idempotency_key).
abbrev pub is_some {ℓ} : {A : Type ℓ} → Option A → Bool
is_some none = false
is_some (some _) = true

abbrev pub is_none {ℓ} : {A : Type ℓ} → Option A → Bool
is_none none = true
is_none (some _) = false

unfoldable pub insert_refund : Refund → Sql (Unit {0})
insert_refund r = do
  reject_if (leb numeric_limit r.amount) numeric_value_out_of_range
  reject_if (r.amount == 0) check_violation
  reject_if (← gets (λ db. is_some (select_refund r.order_id db))) unique_violation
  reject_if
      (← gets (λ db. is_some (find? (λ s. text_eq s.idempotency_key r.idempotency_key) db.refunds)))
      unique_violation
  reject_if (← gets (λ db. is_none (find? (is_order r.order_id) db.orders))) foreign_key_violation
  modify (λ db. record db { refunds = r ∷ db.refunds })

-- `INSERT INTO orders …` with PRIMARY KEY, REFERENCES products(sku) and CHECK (quantity …).
unfoldable pub insert_order : Order → Sql (Unit {0})
insert_order o = do
  reject_if (not (leb 1 o.quantity && leb o.quantity 10)) check_violation
  reject_if (← gets (λ db. is_some (find? (is_order o.id) db.orders))) unique_violation
  reject_if (← gets (λ db. is_none (select_product o.product_sku db))) foreign_key_violation
  modify (λ db. record db { orders = o ∷ db.orders })

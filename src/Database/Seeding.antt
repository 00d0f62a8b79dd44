-- ===== src/Database/Seeding.antt =====
-- The data that `initialize_database` writes at every start of the application. `CREATE … IF NOT
-- EXISTS` leaves tables that are there as they are; here the tables always are.
pub mod Grows
pub mod Inserts
pub mod Seeds
pub mod Startup
pub mod Again
pub mod Origin
pub mod Placed
use langgraph_temporal_agent.Prelude.{
  ℕ, suc, ◌+◌, ◌-◌, ◌*◌, ◌%◌, ◌/◌, Bool, List, [], ◌∷◌, ◌++◌, ◌==◌, leb, map, false, zero, true,
  find?, if◌then◌else◌,
}
use langgraph_temporal_agent.Text.{Text, codes, format_03d}
use langgraph_temporal_agent.Database.Schema.{
  Database, Order, Product, ProductCategory, OrderStatus, laptop, printer, spare_part, pending,
  paid, processing, shipped, delivered,
}
use langgraph_temporal_agent.Database.Sql.{
  Sql, Result, pure, gets, modify, reject_if, ◌>>=◌, ◌>>◌, database_connection, is_order,
  select_product, insert_order, is_some, numeric_limit, check_violation, numeric_value_out_of_range,
}

abbrev pub product : Text → Text → ProductCategory → ℕ → Product
product sku name category price = record {
  sku = sku;
  name = name;
  category = category;
  price = price;
}

unfoldable pub seed_products : List Product
seed_products =
    product (codes "LAP-001") (codes "Everyday Laptop 14") laptop 74900
    ∷ product (codes "LAP-002") (codes "Developer Laptop 16") laptop 129900
    ∷ product (codes "PRN-001") (codes "Office Laser Printer") printer 32900
    ∷ product (codes "PRN-002") (codes "Home Inkjet Printer") printer 14900
    ∷ product (codes "SP-001") (codes "Laptop Charger 65W") spare_part 4900
    ∷ product (codes "SP-002") (codes "Printer Toner") spare_part 7900
    ∷ []

-- The element at an index; every index below is in range.
abbrev pub nth {ℓ} : {A : Type ℓ} → A → ℕ → List A → A
nth default n [] = default
nth default zero (x ∷ xs) = x
nth default (suc n) (x ∷ xs) = nth default n xs

unfoldable pub product_skus : ℕ → Text
unfolding seed_products
product_skus i = nth [] i (map (λ p. p.sku) seed_products)

unfoldable pub seed_status : ℕ → OrderStatus
seed_status i = nth pending i (
    pending ∷ paid ∷ processing ∷ shipped ∷ delivered ∷ OrderStatus.cancelled ∷ OrderStatus.refunded
    ∷ [])

-- The order of a number from 1 on. `created_at` is in seconds: 1767225600 is 2026-01-01T00:00:00 in UTC.
unfoldable pub seed_order : ℕ → Order
unfolding product_skus seed_status format_03d
seed_order number = record {
  id = number;
  customer_id = codes "CUS-" ++ format_03d ((number - 1) % 30 + 1);
  product_sku = product_skus ((number - 1) % 6);
  quantity = (number - 1) % 3 + 1;
  status = seed_status ((number - 1) % 7);
  created_at = 1767225600 + (number - 1) % 28 * 86400;
}

-- `range(first, first + n)`
abbrev pub range : ℕ → ℕ → List ℕ
range first zero = []
range first (suc n) = first ∷ range (suc first) n

unfoldable pub seed_orders : List Order
unfolding seed_order
seed_orders = map seed_order (range 1 120)

abbrev pub unless : Bool → Sql (Unit {0}) → Sql (Unit {0})
unless true m = pure tt
unless false m = m

-- `INSERT INTO products … ON CONFLICT (sku) DO NOTHING`
unfoldable pub insert_product : Product → Sql (Unit {0})
insert_product p = do
  present ← gets (λ db. is_some (select_product p.sku db))
  unless present (do
    reject_if (leb numeric_limit p.price) numeric_value_out_of_range
    reject_if (p.price == 0) check_violation
    modify (λ db. record db { products = p ∷ db.products }))

-- `INSERT INTO orders … ON CONFLICT (id) DO NOTHING`
unfoldable pub insert_seed : Order → Sql (Unit {0})
unfolding insert_order
insert_seed o = do
  present ← gets (λ db. is_some (find? (is_order o.id) db.orders))
  unless present (insert_order o)

-- `cursor.executemany`
unfoldable pub executemany : {A : Type 0} → (A → Sql (Unit {0})) → List A → Sql (Unit {0})
executemany f [] = pure tt
executemany f (x ∷ xs) = f x >> executemany f xs

-- `SELECT MAX(id) FROM orders`, 0 without an order.
unfoldable pub max_id : List Order → ℕ
max_id [] = 0
max_id (o ∷ os) = let rest = max_id os in if leb rest o.id then o.id else rest

-- `setval(…, MAX(id))`: the next id is the one after.
unfoldable pub set_sequence : Database → Database
unfolding max_id
set_sequence db = record db { next_order_id = suc (max_id db.orders) }

unfoldable pub initialize_database : Database → Result (Unit {0}) × Database
unfolding executemany insert_product insert_seed seed_products seed_orders set_sequence
    database_connection
initialize_database = database_connection do
  executemany insert_product seed_products
  executemany insert_seed seed_orders
  modify set_sequence

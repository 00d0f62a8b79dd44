-- ===== src/Database/Listing/Listed.antt =====
-- What a listing of orders shows, told by the orders in the tables.
use langgraph_temporal_agent.Prelude.{
  ◌≡◌, refl, inl, true, arith, none, some, inr, Option, List, Memᴰ, ℕ, All, Bool-cases, find?,
  length, ◌≤◌, and_true, Option-cases, All-map_of, ◌⊎◌, All-Memᴰ, All-take, All-in,
}
use langgraph_temporal_agent.Database.Schema.{Database, OrderStatus, Product, Order}
use langgraph_temporal_agent.Database.Listing.{
  join_products, OrderRow, where_clauses, order_row, status_eq, order_by_id, list_order_rows,
}
use langgraph_temporal_agent.Text.{Text, text_eq}
use langgraph_temporal_agent.Database.Sql.{select_product, is_product}
use langgraph_temporal_agent.Database.Listing.Laws.{
  IsAscending, matching, All-order_by_id, IsAscending-order_by_id, list_order_rows_lem,
}
use langgraph_temporal_agent.Text.Equality.{text_eq_iff}
use langgraph_temporal_agent.Database.Listing.Rows.{
  join_products-rows, All-kept, take-cut, Memᴰ-order_by_id, Memᴰ-filter, Memᴰ-join_products,
}

-- A value that the caller has asked for, or no value was given.
abbrev pub IsAskedFor : {A : Type 0} → Option A → A → Type 0
IsAskedFor none x = Unit
IsAskedFor (some a) x = x ≡ a

abbrev pub IsMatch : Option OrderStatus → Option Text → Order → Type 0
IsMatch status customer_id o = IsAskedFor status o.status × IsAskedFor customer_id o.customer_id

-- A row shows an order with its product, both from the tables.
abbrev pub IsRowOf : Database → Option OrderStatus → Option Text → OrderRow → Type 0
IsRowOf db status customer_id r =
    (o : Order) × (p : Product) × Memᴰ o db.orders
    × (select_product o.product_sku db ≡ some p)
    × (r ≡ order_row o p)
    × IsMatch status customer_id o

-- Where an order stands in a listing: it has no product, it does not match, it is listed, or the
-- listing is full of orders with ids that are no greater.
pub data Stands (db : Database) (status : Option OrderStatus) (customer_id : Option Text)
    (limit : ℕ) (rows : List OrderRow) (o : Order) : Type 0 where
  unstocked : select_product o.product_sku db ≡ none → Stands db status customer_id limit rows o
  unmatched : ¬ IsMatch status customer_id o → Stands db status customer_id limit rows o
  listed :
      (p : Product)
      → select_product o.product_sku db ≡ some p
      → Memᴰ (order_row o p) rows
      → Stands db status customer_id limit rows o
  cut :
      length rows ≡ limit → All (λ r. r.id ≤ o.id) rows → Stands db status customer_id limit rows o

pub record IsListing (db : Database) (status : Option OrderStatus) (customer_id : Option Text)
    (limit : ℕ) (rows : List OrderRow) : Type 0 where
  pub shown : All (IsRowOf db status customer_id) rows
  pub ascending : IsAscending rows
  pub few : length rows ≤ limit
  pub all_stand : All (Stands db status customer_id limit rows) db.orders

matched :
    (status : Option OrderStatus) (customer_id : Option Text) (o : Order) (p : Product)
    → where_clauses status customer_id (order_row o p) ≡ true
    → IsMatch status customer_id o
matched none none o p h = (tt, tt)
matched none (some c) o p h = (tt, (text_eq_iff o.customer_id c).0 h)
matched (some s) none o p h = (ground (arith, h), tt)
matched (some s) (some c) o p h = (
  ground (arith, h),
  (text_eq_iff o.customer_id c).0 (and_true (status_eq o.status s) (text_eq o.customer_id c) h).1,
)

matches :
    (status : Option OrderStatus) (customer_id : Option Text) (o : Order) (p : Product)
    → IsMatch status customer_id o
    → where_clauses status customer_id (order_row o p) ≡ true
matches none none o p h = refl
matches none (some c) o p h = (text_eq_iff o.customer_id c).1 h.1
matches (some s) none o p h = ground (arith, h)
matches (some s) (some c) o p h = ground (arith, h.0, (text_eq_iff o.customer_id c).1 h.1)

-- A listing shows orders of the tables with their products, each matching the status and the customer
-- that were given, in order of their ids and no more than the limit; and every matching order that has
-- a product is shown, or the listing is full and has no greater id than this order's.
pub list_order_rows-IsListing :
    (status : Option OrderStatus) (limit : ℕ) (customer_id : Option Text) (db : Database)
    → IsListing db status customer_id limit (list_order_rows status limit customer_id db)
unfolding list_order_rows
list_order_rows-IsListing status limit customer_id db =
    let listing = list_order_rows_lem status limit customer_id db in
    record {
      shown = shown_rows;
      ascending = listing.1;
      few = listing.2;
      all_stand = All-map_of db.orders stands (All-in db.orders);
    }
  where
    row :
        (r : OrderRow)
        → Memᴰ r (join_products db.products db.orders)
        → where_clauses status customer_id r ≡ true
        → IsRowOf db status customer_id r
    row r m good =
        let (o, p, there, found, same) =
          All-Memᴰ
            (λ r.
              (o : Order) × (p : Product) × Memᴰ o db.orders
              × (find? (is_product o.product_sku) db.products ≡ some p)
              × (r ≡ order_row o p))
            (join_products db.products db.orders) (join_products-rows db.products db.orders) m in
        (o, p, there, found, same, matched status customer_id o p (rw same at good))

    placed :
        (o : Order) (p : Product)
        → select_product o.product_sku db ≡ some p
        → Memᴰ (order_row o p) (list_order_rows status limit customer_id db)
          ⊎ ((length (list_order_rows status limit customer_id db) ≡ limit)
              × All (λ s. s.id ≤ o.id) (list_order_rows status limit customer_id db))
        → Stands db status customer_id limit (list_order_rows status limit customer_id db) o
    placed o p found (inl there) = listed p found there
    placed o p found (inr (full, below)) = cut full below

    shown_rows : All (IsRowOf db status customer_id) (list_order_rows status limit customer_id db)
    shown_rows =
        All-take (IsRowOf db status customer_id) limit
          (order_by_id (matching status customer_id db))
          (All-order_by_id (IsRowOf db status customer_id) (matching status customer_id db) (
            All-kept (IsRowOf db status customer_id) (where_clauses status customer_id)
              (join_products db.products db.orders) row))

    stands :
        (o : Order)
        → Memᴰ o db.orders
        → Stands db status customer_id limit (list_order_rows status limit customer_id db) o
    stands o m = elim (Option-cases (select_product o.product_sku db)) [
      | inl absent ↦ unstocked absent
      | inr (p, found) ↦ elim (Bool-cases (where_clauses status customer_id (order_row o p))) [
        | inr other ↦ unmatched (λ h. cc (other, matches status customer_id o p h))
        | inl good ↦ placed o p found (
            take-cut limit (order_by_id (matching status customer_id db)) (order_row o p)
              (IsAscending-order_by_id (matching status customer_id db))
              (Memᴰ-order_by_id (order_row o p) (matching status customer_id db) (
                Memᴰ-filter (where_clauses status customer_id) (join_products db.products db.orders)
                  (order_row o p) (Memᴰ-join_products db.products db.orders o p m found) good)))
      ]
    ]

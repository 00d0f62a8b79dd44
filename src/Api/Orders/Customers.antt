-- ===== src/Api/Orders/Customers.antt =====
-- What a customer gets from the order endpoints, and writes through them.
use langgraph_temporal_agent.Prelude.{
  ◌∷◌, some, [], false, refl, true, Option, ℕ, List, All, ◌≡◌, map, and_true, All-map_of, inr, none,
  inl, suc, ◌⊎◌,
}
use langgraph_temporal_agent.Api.Orders.{
  list_orders, order_from_row, OrderView, OrderCreate, create_scoped, create_order, create_for,
}
use langgraph_temporal_agent.Database.Schema.{OrderStatus, Database}
use langgraph_temporal_agent.Text.{Text, text_eq}
use langgraph_temporal_agent.Auth.{CurrentUser, is_staff, scope_customer_id}
use langgraph_temporal_agent.Database.Listing.{
  OrderRow, where_clauses, list_order_rows, given, status_eq,
}
use langgraph_temporal_agent.Auth.Http.{returns, Response, ◌>>=◌, raises}
use langgraph_temporal_agent.Text.Equality.{text_eq_iff}
use langgraph_temporal_agent.Auth.Scope.{scope_customer_id_own, scope_customer_id_staff}
use langgraph_temporal_agent.Database.Listing.Laws.{list_order_rows_lem}
use langgraph_temporal_agent.Database.Invariant.{IsValid}
use langgraph_temporal_agent.Database.Creation.{
  next_order, Created, unknown_product, bad_quantity, inserted, create_order_row-Created,
}
use langgraph_temporal_agent.Database.Sql.{Result}

scope_of :
    (status : Option OrderStatus) (customer_id : Option Text) (limit : ℕ) (user : CurrentUser)
    (db : Database) (views : List OrderView)
    → list_orders status customer_id limit user db ≡ returns views
    → (scope : Option Text) × (scope_customer_id user customer_id ≡ returns scope)
      × (views ≡ map order_from_row (list_order_rows status limit scope db))
unfolding list_orders
scope_of status customer_id limit user db views e = go (scope_customer_id user customer_id) refl e
  where
    go :
        (r : Response (Option Text))
        → scope_customer_id user customer_id ≡ r
        → (r >>= λ scope. returns (map order_from_row (list_order_rows status limit scope db)))
          ≡ returns views
        → (scope : Option Text) × (scope_customer_id user customer_id ≡ returns scope)
          × (views ≡ map order_from_row (list_order_rows status limit scope db))
    go (raises code detail) h k = cc
    go (returns scope) h k = (scope, h, cc)

All-views :
    (own : Text) (rows : List OrderRow)
    → All (λ r. r.customer_id ≡ own) rows
    → All (λ v. v.customer_id ≡ own) (map order_from_row rows)
unfolding order_from_row
All-views own [] h = tt
All-views own (r ∷ rows) h = (h.0, All-views own rows h.1)

-- A caller who is not staff sees orders of the customer in the caller's own claim only, whatever
-- customer, status and limit the request names.
pub list_orders_own :
    (status : Option OrderStatus) (customer_id : Option Text) (limit : ℕ) (user : CurrentUser)
    (db : Database) (views : List OrderView)
    → is_staff user ≡ false
    → list_orders status customer_id limit user db ≡ returns views
    → (own : Text) × (user.customer_id ≡ some own) × All (λ v. v.customer_id ≡ own) views
list_orders_own status customer_id limit user db views not_staff e =
    let (scope, scoped, same) = scope_of status customer_id limit user db views e in
    let (own, claim, narrowed, _) = scope_customer_id_own user customer_id scope not_staff scoped in
    let rows = (list_order_rows_lem status limit scope db).0 in
    (
      own,
      claim,
      rw same (
          All-views own (list_order_rows status limit scope db) (
            All-map_of (list_order_rows status limit scope db)
              (λ r h. owner_of_where status scope own r narrowed h) rows)),
    )
  where
    owner_of_where :
        (status : Option OrderStatus) (scope : Option Text) (own : Text) (r : OrderRow)
        → scope ≡ some own
        → where_clauses status scope r ≡ true
        → r.customer_id ≡ own
    owner_of_where status scope own r narrowed h =
        (text_eq_iff r.customer_id own).0
          (and_true (given status (status_eq r.status)) (text_eq r.customer_id own)
            (rw narrowed at h)).1

-- What a request to create an order may do to the tables.
abbrev pub AddsFor : ℕ → OrderCreate → Option Text → Database → Database → Type 0
AddsFor now input claim db db' =
    (db' ≡ db)
    ⊎ ((own : Text) × (claim ≡ some own)
        × (db' ≡ record db {
          orders = next_order now own input.product_sku input.quantity db ∷ db.orders;
          next_order_id = suc db.next_order_id;
        }))

create_scoped-AddsFor :
    (now : ℕ) (input : OrderCreate) (scope : Option Text) (db : Database)
    → IsValid db
    → AddsFor now input scope db (create_scoped now input scope db).1
unfolding create_scoped
create_scoped-AddsFor now input none db v = inl refl
create_scoped-AddsFor now input (some customer_id) db v =
    go (create_order_row-Created now customer_id input.product_sku input.quantity db v)
  where
    go :
        {out : Result (Option OrderRow) × Database}
        → Created now customer_id input.product_sku input.quantity db out
        → AddsFor now input (some customer_id) db out.1
    go (unknown_product _) = inl refl
    go (bad_quantity _) = inl refl
    go (inserted _ _ _ _) = inr (customer_id, refl, refl)

-- In valid tables, a caller who is not staff writes nothing, or adds one pending order for the customer in the
-- caller's own claim, whatever customer the request body names.
pub create_order_own :
    (now : ℕ) (input : OrderCreate) (user : CurrentUser) (db : Database)
    → IsValid db
    → is_staff user ≡ false
    → AddsFor now input user.customer_id db (create_order now input user db).1
unfolding create_order
create_order_own now input user db v not_staff =
    go (scope_customer_id user (some input.customer_id)) refl
  where
    go :
        (r : Response (Option Text))
        → scope_customer_id user (some input.customer_id) ≡ r
        → AddsFor now input user.customer_id db (create_for now input r db).1
    go (raises code detail) e = inl refl
    go (returns scope) e =
        let (own, claim, narrowed, _) =
          scope_customer_id_own user (some input.customer_id) scope not_staff e in
        rw (claim, narrowed) (create_scoped-AddsFor now input (some own) db v)

-- In valid tables, a request of staff writes nothing, or adds one pending order for the customer that
-- the request body names.
pub create_order_staff :
    (now : ℕ) (input : OrderCreate) (user : CurrentUser) (db : Database)
    → IsValid db
    → is_staff user ≡ true
    → AddsFor now input (some input.customer_id) db (create_order now input user db).1
unfolding create_order create_for
create_order_staff now input user db v staff =
    rw (scope_customer_id_staff user (some input.customer_id) staff)
      (create_scoped-AddsFor now input (some input.customer_id) db v)

-- ===== src/Database/Seeding/Placed.antt =====
-- Which seeds a start places, and with which contents.
use langgraph_temporal_agent.Prelude.{
  ◌≡◌, ◌∷◌, some, refl, inr, inl, [], ℕ, List, All, Memᴰ, map, ap, All-Memᴰ, ◌++◌, ◌+◌, ◌-◌, ◌%◌,
  sym, ==_iff, ◌*◌, none, find?, some_inj, find?-holds, All-map_of, ◌∙◌, All-in, Option-cases,
}
use langgraph_temporal_agent.Database.Schema.{
  refunded, delivered, Order, pending, paid, processing, shipped, cancelled, Database, Product,
  ProductCategory, laptop, printer, spare_part,
}
use langgraph_temporal_agent.Database.Seeding.{
  seed_order, seed_orders, product_skus, seed_products, seed_status, range, nth,
  initialize_database,
}
use langgraph_temporal_agent.Text.{codes, format_03d, Text, text_eq}
use langgraph_temporal_agent.Database.Sql.{ok, Result, is_order, select_product, is_product}
use langgraph_temporal_agent.Database.Invariant.{IsValid}
use langgraph_temporal_agent.Database.Seeding.Grows.{Grows, HasOrder, HasProduct}
use langgraph_temporal_agent.Database.Seeding.Startup.{IsStarted, initialize_database-IsStarted}
use langgraph_temporal_agent.Database.Seeding.Origin.{
  initialize_database-products, initialize_database-orders,
}
use langgraph_temporal_agent.Text.Equality.{text_eq_iff}
use mathlib.Core.Path.{subst}

-- The order that a start gives the number `n`, from 1 to 120: the customers CUS-001 to CUS-030, the six
-- products, the quantities 1 to 3 and the seven statuses go round.
pub record IsSeedOrder (n : ℕ) (o : Order) : Type 0 where
  pub id : o.id ≡ n
  pub customer_id : o.customer_id ≡ codes "CUS-" ++ format_03d ((n - 1) % 30 + 1)
  pub product_sku :
      o.product_sku
      ≡ nth [] ((n - 1) % 6) (
          codes "LAP-001"
          ∷ codes "LAP-002"
          ∷ codes "PRN-001"
          ∷ codes "PRN-002"
          ∷ codes "SP-001"
          ∷ codes "SP-002"
          ∷ [])
  pub quantity : o.quantity ≡ (n - 1) % 3 + 1
  pub status :
      o.status
      ≡ nth pending
          ((n - 1) % 7)
          (pending ∷ paid ∷ processing ∷ shipped ∷ delivered ∷ cancelled ∷ refunded ∷ [])
  pub created_at : o.created_at ≡ 1767225600 + (n - 1) % 28 * 86400

seed_order-IsSeedOrder : (n : ℕ) → IsSeedOrder n (seed_order n)
unfolding seed_order product_skus seed_products seed_status
seed_order-IsSeedOrder n = record {
  id = refl;
  customer_id = refl;
  product_sku = refl;
  quantity = refl;
  status = refl;
  created_at = refl;
}

Memᴰ-map : {A B : Type 0} (f : A → B) (xs : List A) (x : A) → Memᴰ x xs → Memᴰ (f x) (map f xs)
Memᴰ-map f [] x m = elim m [ ]
Memᴰ-map f (y ∷ xs) x (Memᴰ.head same) = Memᴰ.head (ap f same)
Memᴰ-map f (y ∷ xs) x (Memᴰ.tail m) = Memᴰ.tail (Memᴰ-map f xs x m)

All-map_in :
    {A B : Type 0} (P : B → Type 0) (f : A → B) (xs : List A)
    → ((x : A) → Memᴰ x xs → P (f x))
    → All P (map f xs)
All-map_in P f [] h = tt
All-map_in P f (x ∷ xs) h = (h x (Memᴰ.head refl), All-map_in P f xs (λ y m. h y (Memᴰ.tail m)))

IsSeedOrder-of_Memᴰ : (o : Order) → Memᴰ o seed_orders → IsSeedOrder o.id o
unfolding seed_orders seed_order
IsSeedOrder-of_Memᴰ o m =
    All-Memᴰ (λ x. IsSeedOrder x.id x) seed_orders
      (All-map_in (λ x. IsSeedOrder x.id x) seed_order (range 1 120)
        (λ n here. seed_order-IsSeedOrder n))
      m

-- The sku, the category and the price of every product that a start gives.
abbrev pub catalogue : List (Text × ProductCategory × ℕ)
catalogue =
    (codes "LAP-001", laptop, 74900)
    ∷ (codes "LAP-002", laptop, 129900)
    ∷ (codes "PRN-001", printer, 32900)
    ∷ (codes "PRN-002", printer, 14900)
    ∷ (codes "SP-001", spare_part, 4900)
    ∷ (codes "SP-002", spare_part, 7900)
    ∷ []

-- The row of an order's number, before and after a start.
pub data OrderPlaced (before after : Database) (n : ℕ) : Type 0 where
  order_kept :
      (o : Order)
      → find? (is_order n) before.orders ≡ some o
      → find? (is_order n) after.orders ≡ some o
      → OrderPlaced before after n
  order_seeded :
      (o : Order)
      → find? (is_order n) before.orders ≡ none
      → find? (is_order n) after.orders ≡ some o
      → IsSeedOrder n o
      → OrderPlaced before after n

-- The row of a product of the catalogue, before and after a start.
pub data ProductPlaced (before after : Database) (e : Text × ProductCategory × ℕ) : Type 0 where
  product_kept :
      (p : Product)
      → select_product e.0 before ≡ some p
      → select_product e.0 after ≡ some p
      → ProductPlaced before after e
  product_seeded :
      (p : Product)
      → select_product e.0 before ≡ none
      → select_product e.0 after ≡ some p
      → p.category ≡ e.1
      → p.price ≡ e.2
      → ProductPlaced before after e

-- The tables after a start, with the seeds in full.
pub record IsSeeded (before : Database) (out : Result (Unit {0}) × Database) : Type 0 where
  pub returned : out.0 ≡ ok tt
  pub valid : IsValid out.1
  pub grows : Grows before out.1
  pub products : All (ProductPlaced before out.1) catalogue
  pub orders : All (OrderPlaced before out.1) (range 1 120)

-- A seed of a product is found among the seeds by its sku.
found_in_seeds : All (λ p. find? (is_product p.sku) seed_products ≡ some p) seed_products
unfolding seed_products text_eq
found_in_seeds = (refl, (refl, (refl, (refl, (refl, (refl, tt))))))

same_product : (p q : Product) → Memᴰ p seed_products → Memᴰ q seed_products → q.sku ≡ p.sku → q ≡ p
same_product p q mp mq same =
    let hp =
      All-Memᴰ (λ (x : Product). find? (is_product x.sku) seed_products ≡ some x) seed_products
        found_in_seeds mp in
    let hq =
      All-Memᴰ (λ (x : Product). find? (is_product x.sku) seed_products ≡ some x) seed_products
        found_in_seeds mq in
    some_inj (sym hq ∙ ap (λ k. find? (is_product k) seed_products) same ∙ hp)

module _ (db : Database) (v : IsValid db) where
  abbrev started_db : Database
  started_db = (initialize_database db).1

  abbrev started : IsStarted db (initialize_database db)
  started = initialize_database-IsStarted db v

  order_placed : (n : ℕ) → Memᴰ n (range 1 120) → OrderPlaced db started_db n
  unfolding seed_orders seed_order
  order_placed n m = elim (Option-cases (find? (is_order n) db.orders)) [
    | inr (o, there) ↦ order_kept o there (started.grows.orders n there)
    | inl absent ↦ elim (Option-cases (find? (is_order n) started_db.orders)) [
      | inr (o, found) ↦ order_seeded o absent found (seeded o absent found)
      | inl missing ↦
          let has =
            All-Memᴰ (λ (o : Order). HasOrder o started_db) seed_orders started.orders
              (Memᴰ-map seed_order (range 1 120) n m) in
          cc (missing, has)
    ]
  ]
    where
      seeded :
          (o : Order)
          → find? (is_order n) db.orders ≡ none
          → find? (is_order n) started_db.orders ≡ some o
          → IsSeedOrder n o
      seeded o absent found =
          let id = (==_iff o.id n).0 (find?-holds (is_order n) started_db.orders found) in
          elim (initialize_database-orders db n o found) [
            | inl before ↦ cc (absent, before)
            | inr new ↦ subst (λ k. IsSeedOrder k o) id (IsSeedOrder-of_Memᴰ o new)
          ]

  abbrev entry : Product → Text × ProductCategory × ℕ
  entry p = (p.sku, p.category, p.price)

  product_placed : (p : Product) → Memᴰ p seed_products → ProductPlaced db started_db (entry p)
  product_placed p m = elim (Option-cases (select_product p.sku db)) [
    | inr (q, there) ↦ product_kept q there (started.grows.products p.sku there)
    | inl absent ↦ elim (Option-cases (select_product p.sku started_db)) [
      | inr (q, found) ↦
          let same = seeded q absent found in
          product_seeded q absent found (ap (λ (x : Product). x.category) same)
            (ap (λ (x : Product). x.price) same)
      | inl missing ↦
          let has =
            All-Memᴰ (λ (x : Product). HasProduct x started_db) seed_products started.products m in
          cc (missing, has)
    ]
  ]
    where
      seeded :
          (q : Product)
          → select_product p.sku db ≡ none
          → select_product p.sku started_db ≡ some q
          → q ≡ p
      seeded q absent found = elim (initialize_database-products db p.sku q found) [
        | inl before ↦ cc (absent, before)
        | inr new ↦
            same_product p q m new (
              (text_eq_iff q.sku p.sku).0
                (find?-holds (is_product p.sku) started_db.products found))
      ]

  -- A start of the application on valid tables succeeds and leaves valid tables, in which every order
  -- and product that was there is found as it was, and the refunds and preferences are the same. Each
  -- order from 1 to 120 is found: the one that was there, or else the seed of its number, with the
  -- customer, product, quantity, status and time written out in IsSeedOrder. So is each of the six
  -- products of the catalogue, the one that was there or else one with its category and price.
  pub initialize_database-IsSeeded : IsSeeded db (initialize_database db)
  unfolding seed_products
  initialize_database-IsSeeded = record {
    returned = started.returned;
    valid = started.valid;
    grows = started.grows;
    products = All-map_in (ProductPlaced db started_db) entry seed_products product_placed;
    orders = All-map_of (range 1 120) order_placed (All-in (range 1 120));
  }

-- ===== src/Database/Seeding/Origin.antt =====
-- Where the orders come from that are in the tables after a start.
use langgraph_temporal_agent.Prelude.{
  ◌≡◌, inr, [], true, false, inl, ◌∷◌, some, ℕ, Bool, find?, Bool-cases, if◌then◌else◌, List, ◌⊎◌,
  not, leb, some_inj, ◌&&◌, ◌==◌, Memᴰ, refl,
}
use langgraph_temporal_agent.Database.Sql.{
  err, ok, Result, Sql, insert_order, is_order, is_some, select_product, numeric_limit, is_none,
  database_connection, ◌>>◌, modify,
}
use langgraph_temporal_agent.Database.Schema.{Order, Database, Product}
use langgraph_temporal_agent.Database.Seeding.{
  insert_product, insert_seed, executemany, initialize_database, set_sequence, seed_orders,
  seed_products,
}
use mathlib.Core.Path.{subst}
use langgraph_temporal_agent.Text.{Text, text_eq}

-- Every order that is found later was found before, or is one of `new`.
abbrev IsFrom : (Order → Type 0) → Database → Database → Type 0
IsFrom P db db' =
    (n : ℕ) (o : Order)
    → find? (is_order n) db'.orders ≡ some o
    → (find? (is_order n) db.orders ≡ some o) ⊎ P o

IsFrom-trans : (P : Order → Type 0) (a b c : Database) → IsFrom P a b → IsFrom P b c → IsFrom P a c
IsFrom-trans P a b c h k n o e = elim (k n o e) [ inl before ↦ h n o before | inr new ↦ inr new ]

-- What holds of the tables if the statement returns.
abbrev Leaves : (Database → Type 0) → Result (Unit {0} × Database) → Type 0
Leaves Q (ok (a, d)) = Q d
Leaves Q (err e) = Unit

then-Leaves :
    (Q R : Database → Type 0) (n : Sql (Unit {0})) (r : Result (Unit {0} × Database))
    → Leaves Q r
    → ((d : Database) → Q d → Leaves R (n d))
    → Leaves R (elim r as (λ _. Result (Unit {0} × Database)) [ ok (a, d) ↦ n d | err e ↦ err e ])
then-Leaves Q R n (ok (a, d)) h next_leaves = next_leaves d h
then-Leaves Q R n (err e) h next_leaves = tt

Leaves-mono :
    (Q R : Database → Type 0) (r : Result (Unit {0} × Database))
    → ((d : Database) → Q d → R d)
    → Leaves Q r
    → Leaves R r
Leaves-mono Q R (ok (a, d)) more h = more d h
Leaves-mono Q R (err e) more h = tt

committed :
    (Q : Database → Type 0) (db : Database) (r : Result (Unit {0} × Database))
    → Leaves Q r
    → Q db
    → Q
        (elim r as (λ _. Result (Unit {0}) × Database) [
          | ok (a, d) ↦ (ok a, d)
          | err e ↦ (err e, db)
        ]).1
committed Q db (ok (a, d)) h same = h
committed Q db (err e) h same = same

insert_product-IsFrom :
    (P : Order → Type 0) (p : Product) (db : Database) → Leaves (IsFrom P db) (insert_product p db)
unfolding insert_product
insert_product-IsFrom P p db = elim (Bool-cases (is_some (select_product p.sku db))) [
  | inl present ↦ rw present (λ n o e. inl e)
  | inr absent ↦ elim (Bool-cases (leb numeric_limit p.price)) [
    | inl over ↦ rw (absent, over) tt
    | inr within ↦ elim (Bool-cases (p.price == 0)) [
      | inl free ↦ rw (absent, within, free) tt
      | inr priced ↦ rw (absent, within, priced) (λ n o e. inl e)
    ]
  ]
]

new_order-IsFrom :
    (P : Order → Type 0) (x : Order) (db : Database)
    → P x
    → IsFrom P db (record db { orders = x ∷ db.orders })
new_order-IsFrom P x db new n o e = go (x.id == n) e
  where
    go :
        (b : Bool)
        → (if b then some x else find? (is_order n) db.orders) ≡ some o
        → (find? (is_order n) db.orders ≡ some o) ⊎ P o
    go true h = inr (subst P (some_inj h) new)
    go false h = inl h

insert_seed-IsFrom :
    (P : Order → Type 0) (x : Order) (db : Database) → P x → Leaves (IsFrom P db) (insert_seed x db)
unfolding insert_seed insert_order
insert_seed-IsFrom P x db new = elim (Bool-cases (is_some (find? (is_order x.id) db.orders))) [
  | inl present ↦ rw present (λ n o e. inl e)
  | inr absent ↦ elim (Bool-cases (not (leb 1 x.quantity && leb x.quantity 10))) [
    | inl bad ↦ rw (absent, bad) tt
    | inr good ↦ elim (Bool-cases (is_none (select_product x.product_sku db))) [
      | inl unknown ↦ rw (absent, good) (rw absent (rw unknown tt))
      | inr known ↦ rw (absent, good) (rw absent (rw known (new_order-IsFrom P x db new)))
    ]
  ]
]

-- Every product that is found later was found before, or is one of the seeds.
abbrev IsStocked : Database → Database → Type 0
IsStocked db db' =
    (sku : Text) (p : Product)
    → select_product sku db' ≡ some p
    → (select_product sku db ≡ some p) ⊎ Memᴰ p seed_products

IsStocked-trans : (a b c : Database) → IsStocked a b → IsStocked b c → IsStocked a c
IsStocked-trans a b c h k sku p e = elim (k sku p e) [
  | inl before ↦ h sku p before
  | inr new ↦ inr new
]

new_product-IsStocked :
    (x : Product) (db : Database)
    → Memᴰ x seed_products
    → IsStocked db (record db { products = x ∷ db.products })
new_product-IsStocked x db new sku p e = go (text_eq x.sku sku) e
  where
    go :
        (b : Bool)
        → (if b then some x else select_product sku db) ≡ some p
        → (select_product sku db ≡ some p) ⊎ Memᴰ p seed_products
    go true h = inr (subst (λ y. Memᴰ y seed_products) (some_inj h) new)
    go false h = inl h

insert_product-IsStocked :
    (x : Product) (db : Database)
    → Memᴰ x seed_products
    → Leaves (IsStocked db) (insert_product x db)
unfolding insert_product
insert_product-IsStocked x db new = elim (Bool-cases (is_some (select_product x.sku db))) [
  | inl present ↦ rw present (λ sku p e. inl e)
  | inr absent ↦ elim (Bool-cases (leb numeric_limit x.price)) [
    | inl over ↦ rw (absent, over) tt
    | inr within ↦ elim (Bool-cases (x.price == 0)) [
      | inl free ↦ rw (absent, within, free) tt
      | inr priced ↦ rw (absent, within, priced) (new_product-IsStocked x db new)
    ]
  ]
]

insert_seed-IsStocked : (x : Order) (db : Database) → Leaves (IsStocked db) (insert_seed x db)
unfolding insert_seed insert_order
insert_seed-IsStocked x db = elim (Bool-cases (is_some (find? (is_order x.id) db.orders))) [
  | inl present ↦ rw present (λ sku p e. inl e)
  | inr absent ↦ elim (Bool-cases (not (leb 1 x.quantity && leb x.quantity 10))) [
    | inl bad ↦ rw (absent, bad) tt
    | inr good ↦ elim (Bool-cases (is_none (select_product x.product_sku db))) [
      | inl unknown ↦ rw (absent, good) (rw absent (rw unknown tt))
      | inr known ↦ rw (absent, good) (rw absent (rw known (λ sku p e. inl e)))
    ]
  ]
]

-- A relation between the tables before and after, which every statement of a start keeps.
module _ (R : Database → Database → Type 0) (same : (a : Database) → R a a)
    (trans : (a b c : Database) → R a b → R b c → R a c) where
  executemany-Leaves :
      {A : Type 0} (f : A → Sql (Unit {0})) (xs : List A)
      → ((x : A) (db : Database) → Memᴰ x xs → Leaves (R db) (f x db))
      → (db : Database) → Leaves (R db) (executemany f xs db)
  unfolding executemany
  executemany-Leaves f [] one db = same db
  executemany-Leaves f (x ∷ xs) one db =
      then-Leaves (R db) (R db) (executemany f xs) (f x db) (one x db (Memᴰ.head refl)) (λ d h.
        Leaves-mono (R d) (R db) (executemany f xs d) (λ e k. trans db d e h k)
          (executemany-Leaves f xs (λ y e m. one y e (Memᴰ.tail m)) d))

  initialize_database-keeps :
      ((p : Product) (d : Database) → Memᴰ p seed_products → Leaves (R d) (insert_product p d))
      → ((o : Order) (d : Database) → Memᴰ o seed_orders → Leaves (R d) (insert_seed o d))
      → ((d e : Database) → R d e → R d (set_sequence e))
      → (db : Database) → R db (initialize_database db).1
  unfolding initialize_database database_connection
  initialize_database-keeps products orders sequence db =
      committed (R db) db _
        (then-Leaves (R db) (R db) (executemany insert_seed seed_orders >> modify set_sequence)
          (executemany insert_product seed_products db)
          (executemany-Leaves insert_product seed_products products db)
          (λ d h.
            then-Leaves (R db) (R db) (modify set_sequence) (executemany insert_seed seed_orders d)
              (Leaves-mono (R d) (R db) (executemany insert_seed seed_orders d)
                (λ e k. trans db d e h k) (executemany-Leaves insert_seed seed_orders orders d))
              (λ e k. sequence db e k)))
        (same db)

-- After a start every order is one that was found before, or one of the seeds.
pub initialize_database-orders :
    (db : Database) (n : ℕ) (o : Order)
    → find? (is_order n) (initialize_database db).1.orders ≡ some o
    → (find? (is_order n) db.orders ≡ some o) ⊎ Memᴰ o seed_orders
unfolding set_sequence
initialize_database-orders =
    let P : Order → Type 0 = λ o. Memᴰ o seed_orders in
    initialize_database-keeps (IsFrom P) (λ a n o e. inl e) (IsFrom-trans P)
      (λ p d m. insert_product-IsFrom P p d) (λ o d m. insert_seed-IsFrom P o d m) (λ d e h. h)

-- After a start every product is one that was found before, or one of the seeds.
pub initialize_database-products :
    (db : Database) (sku : Text) (p : Product)
    → select_product sku (initialize_database db).1 ≡ some p
    → (select_product sku db ≡ some p) ⊎ Memᴰ p seed_products
unfolding set_sequence
initialize_database-products =
    initialize_database-keeps IsStocked (λ a sku p e. inl e) IsStocked-trans
      insert_product-IsStocked (λ o d m. insert_seed-IsStocked o d) (λ d e h. h)

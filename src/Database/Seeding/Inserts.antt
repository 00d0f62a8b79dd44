-- ===== src/Database/Seeding/Inserts.antt =====
-- The statements of the seeding: what is there stays, and the seed is there.
use langgraph_temporal_agent.Prelude.{
  ◌≡◌, ◌≤◌, ◌<◌, [], ◌∷◌, none, some, arith, inr, inl, refl, ℕ, List, find?, All-map_of,
  Option-cases, All, ==_iff, ap, ◌∙◌,
}
use langgraph_temporal_agent.Database.Seeding.{insert_product, insert_seed, executemany}
use langgraph_temporal_agent.Database.Sql.{
  ok, err, insert_order, Result, select_product, numeric_limit, Sql, is_order, is_product, ◌>>◌,
}
use langgraph_temporal_agent.Database.Schema.{Database, Product, Order}
use langgraph_temporal_agent.Text.{Text}
use langgraph_temporal_agent.Text.Equality.{text_eq_iff}
use langgraph_temporal_agent.Database.Creation.{IsBacked-new_order}
use langgraph_temporal_agent.Database.Seeding.Grows.{
  IsValidBelow, Seeds, HasProduct, HasOrder, Grows, Grows-refl, Grows-trans,
}

-- A product under a new sku hides no other.
find?-new_product :
    (p : Product) (ps : List Product) (sku : Text) {q : Product}
    → find? (is_product p.sku) ps ≡ none
    → find? (is_product sku) ps ≡ some q
    → find? (is_product sku) (p ∷ ps) ≡ some q
find?-new_product p ps sku {q} free e = ground (arith, free, e, text_eq_iff p.sku sku)

find?-new_order :
    (o : Order) (os : List Order) (n : ℕ) {q : Order}
    → find? (is_order o.id) os ≡ none
    → find? (is_order n) os ≡ some q
    → find? (is_order n) (o ∷ os) ≡ some q
find?-new_order o os n {q} free e = ground (arith, free, e, ==_iff o.id n)

add_product-IsValidBelow :
    (k : ℕ) (p : Product) (db : Database)
    → IsValidBelow k db
    → select_product p.sku db ≡ none
    → 0 < p.price
    → IsValidBelow k (record db { products = p ∷ db.products })
add_product-IsValidBelow k p db v free positive = record {
  priced = (positive, v.priced);
  orders_distinct = v.orders_distinct;
  refunds_distinct = v.refunds_distinct;
  orders_sound =
      All-map_of db.orders
        (λ o h. record {
          product = h.product;
          stocked = find?-new_product p db.products o.product_sku free h.stocked;
          at_least = h.at_least;
          at_most = h.at_most;
          drawn = h.drawn;
        })
        v.orders_sound;
  refunds_backed =
      All-map_of db.refunds
        (λ r b. record {
          order = b.order;
          product = b.product;
          found = b.found;
          stocked = find?-new_product p db.products b.order.product_sku free b.stocked;
          closed = b.closed;
          worth = b.worth;
          keyed = b.keyed;
        })
        v.refunds_backed;
}

add_order-IsValidBelow :
    (k : ℕ) (o : Order) (p : Product) (db : Database)
    → IsValidBelow k db
    → find? (is_order o.id) db.orders ≡ none
    → select_product o.product_sku db ≡ some p
    → 1 ≤ o.quantity
    → o.quantity ≤ 10
    → o.id < k
    → IsValidBelow k (record db { orders = o ∷ db.orders })
add_order-IsValidBelow k o p db v free stocked low high drawn = record {
  priced = v.priced;
  orders_distinct = (free, v.orders_distinct);
  refunds_distinct = v.refunds_distinct;
  orders_sound = (
    record { product = p; stocked = stocked; at_least = low; at_most = high; drawn = drawn },
    v.orders_sound,
  );
  refunds_backed =
      All-map_of db.refunds (λ r b. IsBacked-new_order o db.products db.orders r free b)
        v.refunds_backed;
}

pub insert_product-Seeds :
    (k : ℕ) (p : Product) (db : Database)
    → 0 < p.price
    → p.price < numeric_limit
    → IsValidBelow k db
    → Seeds k db (HasProduct p) (insert_product p db)
unfolding insert_product
insert_product-Seeds k p db positive small v = elim (Option-cases (select_product p.sku db)) [
  | inl free ↦ record {
    after = record db { products = p ∷ db.products };
    ran = ground (arith, free);
    valid = add_product-IsValidBelow k p db v free positive;
    grows = record {
      products = λ sku e. find?-new_product p db.products sku free e;
      orders = λ n e. e;
      refunds = refl;
      user_memories = refl;
    };
    holds = ground (arith, text_eq_iff p.sku p.sku);
  }
  | inr (q, there) ↦ record {
    after = db;
    ran = ground (arith, there);
    valid = v;
    grows = Grows-refl db;
    holds = cc there;
  }
]

pub insert_seed-Seeds :
    (k : ℕ) (o : Order) (p : Product) (db : Database)
    → select_product o.product_sku db ≡ some p
    → 1 ≤ o.quantity
    → o.quantity ≤ 10
    → o.id < k
    → IsValidBelow k db
    → Seeds k db (HasOrder o) (insert_seed o db)
unfolding insert_seed insert_order
insert_seed-Seeds k o p db stocked low high drawn v =
    elim (Option-cases (find? (is_order o.id) db.orders)) [
      | inl free ↦ record {
        after = record db { orders = o ∷ db.orders };
        ran = ground (arith, free, stocked);
        valid = add_order-IsValidBelow k o p db v free stocked low high drawn;
        grows = record {
          products = λ sku e. e;
          orders = λ n e. find?-new_order o db.orders n free e;
          refunds = refl;
          user_memories = refl;
        };
        holds = ground (arith, ==_iff o.id o.id);
      }
      | inr (q, there) ↦ record {
        after = db;
        ran = ground (arith, there);
        valid = v;
        grows = Grows-refl db;
        holds = cc there;
      }
    ]

-- A statement that returns is followed by the next.
pub then_of_ok :
    {B : Type 0} (m : Sql (Unit {0})) (n : Sql B) (db db' : Database)
    → m db ≡ ok (tt, db')
    → (m >> n) db ≡ n db'
then_of_ok {B} m n db db' e =
    ap
      (λ (r : Result (Unit {0} × Database)). elim r as (λ _. Result (B × Database)) [
        | ok (a, d) ↦ n d
        | err x ↦ err x
      ])
      e

-- A batch of statements, each of which seeds, seeds all.
pub executemany-Seeds :
    {A : Type 0} (k : ℕ) (f : A → Sql (Unit {0})) (Can Has : A → Database → Type 0)
    → ((x : A) (db : Database) → Can x db → IsValidBelow k db → Seeds k db (Has x) (f x db))
    → ((x : A) (db db' : Database) → Grows db db' → Can x db → Can x db')
    → ((x : A) (db db' : Database) → Grows db db' → Has x db → Has x db')
    → (xs : List A) (db : Database) → All (λ x. Can x db) xs
    → IsValidBelow k db
    → Seeds k db (λ after. All (λ x. Has x after) xs) (executemany f xs db)
unfolding executemany
executemany-Seeds k f Can Has step can_grows has_grows [] db can v = record {
  after = db;
  ran = refl;
  valid = v;
  grows = Grows-refl db;
  holds = tt;
}
executemany-Seeds k f Can Has step can_grows has_grows (x ∷ xs) db (can_x, can) v =
    let first = step x db can_x v in
    let rest =
      executemany-Seeds k f Can Has step can_grows has_grows xs first.after
        (All-map_of xs (λ y h. can_grows y db first.after first.grows h) can) first.valid in
    record {
      after = rest.after;
      ran = then_of_ok (f x) (executemany f xs) db first.after first.ran ∙ rest.ran;
      valid = rest.valid;
      grows = Grows-trans first.grows rest.grows;
      holds = (has_grows x first.after rest.after rest.grows first.holds, rest.holds);
    }

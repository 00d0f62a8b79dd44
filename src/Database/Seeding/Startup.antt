-- ===== src/Database/Seeding/Startup.antt =====
-- What a start of the application does to the tables.
use langgraph_temporal_agent.Database.Seeding.Seeds.{
  IsPriced, seed_products-IsPriced, IsSeed, seed_orders-IsSeed, stocked_of_seeds,
}
use langgraph_temporal_agent.Database.Seeding.Grows.{
  Grows, IsValidBelow, Seeds, HasProduct, HasOrder, HasProduct-grows, HasOrder-grows, Grows-trans,
  Grows-refl,
}
use langgraph_temporal_agent.Database.Seeding.Inserts.{
  insert_product-Seeds, insert_seed-Seeds, executemany-Seeds, then_of_ok,
}
use langgraph_temporal_agent.Prelude.{
  ◌≡◌, ◌≤◌, [], ◌∷◌, suc, arith, refl, All, ℕ, List, ◌+◌, All-map_of, ◌∙◌, ap, sym,
}
use langgraph_temporal_agent.Database.Seeding.{
  seed_products, seed_orders, initialize_database, set_sequence, max_id, executemany,
  insert_product, insert_seed,
}
use langgraph_temporal_agent.Database.Sql.{ok, err, Result, database_connection, ◌>>◌, modify}
use langgraph_temporal_agent.Database.Schema.{Product, Order, Database}
use langgraph_temporal_agent.Database.Invariant.{IsSound, IsValid}

max_id-bound : (os : List Order) → All (λ o. o.id ≤ max_id os) os
unfolding max_id
max_id-bound [] = tt
max_id-bound (o ∷ os) = (ground arith, All-map_of os (λ x h. ground (arith, h)) (max_id-bound os))

All-zip-IsSound :
    (ps : List Product) (k : ℕ) (os all : List Order)
    → All (IsSound ps k) os
    → All (λ o. o.id ≤ max_id all) os
    → All (IsSound ps (suc (max_id all))) os
All-zip-IsSound ps k [] all h b = tt
All-zip-IsSound ps k (o ∷ os) all (s, h) (low, b) = (
  record {
    product = s.product;
    stocked = s.stocked;
    at_least = s.at_least;
    at_most = s.at_most;
    drawn = omega arith;
  },
  All-zip-IsSound ps k os all h b,
)

set_sequence-IsValid : (k : ℕ) (db : Database) → IsValidBelow k db → IsValid (set_sequence db)
unfolding set_sequence
set_sequence-IsValid k db v = record {
  priced = v.priced;
  orders_distinct = v.orders_distinct;
  refunds_distinct = v.refunds_distinct;
  orders_sound =
      All-zip-IsSound db.products k db.orders db.orders v.orders_sound (max_id-bound db.orders);
  refunds_backed = v.refunds_backed;
}

IsValid-below : (k : ℕ) (db : Database) → db.next_order_id ≤ k → IsValid db → IsValidBelow k db
IsValid-below k db more v = record {
  priced = v.priced;
  orders_distinct = v.orders_distinct;
  refunds_distinct = v.refunds_distinct;
  orders_sound =
      All-map_of db.orders
        (λ o s. record {
          product = s.product;
          stocked = s.stocked;
          at_least = s.at_least;
          at_most = s.at_most;
          drawn = omega (arith, s.drawn, more);
        })
        v.orders_sound;
  refunds_backed = v.refunds_backed;
}

-- The tables after a start.
pub record IsStarted (before : Database) (out : Result (Unit {0}) × Database) : Type 0 where
  pub returned : out.0 ≡ ok tt
  pub valid : IsValid out.1
  pub grows : Grows before out.1
  pub products : All (λ p. HasProduct p out.1) seed_products
  pub orders : All (λ o. HasOrder o out.1) seed_orders

Grows-sequence :
    {before : Database} (db : Database) → Grows before db → Grows before (set_sequence db)
unfolding set_sequence
Grows-sequence db g = record {
  products = λ sku h. g.products sku h;
  orders = λ n h. g.orders n h;
  refunds = g.refunds;
  user_memories = g.user_memories;
}

set_sequence_again : (db : Database) → set_sequence (set_sequence db) ≡ set_sequence db
unfolding set_sequence
set_sequence_again db = refl

module _ (db : Database) (v : IsValid db) where
  abbrev bound : ℕ
  bound = db.next_order_id + 121

  products_first :
      Seeds bound db
        (λ after. All (λ p. HasProduct p after) seed_products)
        (executemany insert_product seed_products db)
  products_first =
      executemany-Seeds bound insert_product (λ p _. IsPriced p) HasProduct
        (λ p d can w. insert_product-Seeds bound p d can.0 can.1 w) (λ p d d' g can. can)
        (λ p d d' g h. HasProduct-grows p g h) seed_products db seed_products-IsPriced
        (IsValid-below bound db (omega arith) v)

  abbrev CanSeed : Order → Database → Type 0
  CanSeed o d = IsSeed o × All (λ p. HasProduct p d) seed_products

  seed_can :
      (o : Order) (d : Database)
      → CanSeed o d
      → IsValidBelow bound d
      → Seeds bound d (HasOrder o) (insert_seed o d)
  seed_can o d (seed, there) w =
      let (p, stocked) = stocked_of_seeds seed_products o.product_sku d there seed.stocked in
      insert_seed-Seeds bound o p d stocked seed.at_least seed.at_most
        (omega (arith, seed.numbered)) w

  orders_then :
      Seeds bound products_first.after
        (λ after. All (λ o. HasOrder o after) seed_orders)
        (executemany insert_seed seed_orders products_first.after)
  orders_then =
      executemany-Seeds bound insert_seed CanSeed HasOrder seed_can
        (λ o d d' g can. (can.0, All-map_of seed_products (λ p h. HasProduct-grows p g h) can.1))
        (λ o d d' g h. HasOrder-grows o g h) seed_orders products_first.after
        (All-map_of seed_orders (λ o seed. (seed, products_first.holds)) seed_orders-IsSeed)
        products_first.valid

  ends_in : initialize_database db ≡ (ok tt, set_sequence orders_then.after)
  unfolding initialize_database database_connection
  ends_in =
      ap
        (λ (r : Result (Unit {0} × Database)). elim r as (λ _. Result (Unit {0}) × Database) [
          | ok (a, d) ↦ (ok a, d)
          | err e ↦ (err e, db)
        ])
        (then_of_ok (executemany insert_product seed_products)
            (executemany insert_seed seed_orders >> modify set_sequence) db products_first.after
            products_first.ran
          ∙ then_of_ok (executemany insert_seed seed_orders) (modify set_sequence)
              products_first.after orders_then.after orders_then.ran)

  -- A start of the application on valid tables succeeds and leaves valid tables, in which every order
  -- and product that was there is found as it was, the refunds and preferences are the same, and the
  -- number of every seed order and the sku of every seed product has a row.
  pub initialize_database-IsStarted : IsStarted db (initialize_database db)
  initialize_database-IsStarted = rw ends_in (record {
    returned = refl;
    valid = set_sequence-IsValid bound orders_then.after orders_then.valid;
    grows = Grows-sequence orders_then.after (Grows-trans products_first.grows orders_then.grows);
    products =
        All-map_of seed_products
          (λ p h. HasProduct-grows p (Grows-sequence orders_then.after orders_then.grows) h)
          products_first.holds;
    orders =
        All-map_of seed_orders
          (λ o h.
            HasOrder-grows o (Grows-sequence orders_then.after (Grows-refl orders_then.after)) h)
          orders_then.holds;
  })

  -- The sequence is where it should be after a start.
  pub set_sequence_after : set_sequence (initialize_database db).1 ≡ (initialize_database db).1
  set_sequence_after =
      let last = ap (λ (out : Result (Unit {0}) × Database). out.1) ends_in in
      ap set_sequence last ∙ set_sequence_again orders_then.after ∙ sym last

-- ===== src/Database/Seeding/Seeds.antt =====
-- What the seeds are: they keep the constraints, and every order's product is among them.
use langgraph_temporal_agent.Database.Seeding.Grows.{HasProduct}
use langgraph_temporal_agent.Prelude.{
  ◌≡◌, ◌≤◌, ◌<◌, [], ◌∷◌, true, some, inl, suc, arith, zero, refl, inr, All, ℕ, List, any, length,
  ◌-◌, ◌+◌, map, ◌%◌, Bool-cases, Option-cases,
}
use langgraph_temporal_agent.Database.Seeding.{
  seed_products, seed_orders, seed_order, range, nth, product_skus,
}
use langgraph_temporal_agent.Database.Sql.{numeric_limit, select_product}
use langgraph_temporal_agent.Database.Schema.{Product, Order, Database}
use langgraph_temporal_agent.Text.{text_eq, Text}
use langgraph_temporal_agent.Text.Equality.{text_eq_iff}

-- A seed product keeps the table's CHECKs.
abbrev pub IsPriced : Product → Type 0
IsPriced p = (0 < p.price) × (p.price < numeric_limit)

pub seed_products-IsPriced : All IsPriced seed_products
unfolding seed_products
seed_products-IsPriced = omega arith

-- A seed order keeps the table's CHECK, has an id up to 120, and its product is a seed.
pub record IsSeed (o : Order) : Type 0 where
  pub at_least : 1 ≤ o.quantity
  pub at_most : o.quantity ≤ 10
  pub numbered : o.id ≤ 120
  pub stocked : any (λ (p : Product). text_eq p.sku o.product_sku) seed_products ≡ true

nth_holds :
    {A : Type 0} (P : A → Type 0) (default : A) (n : ℕ) (xs : List A)
    → All P xs
    → n < length xs
    → P (nth default n xs)
nth_holds P default n [] h small = absurd (omega arith)
nth_holds P default zero (x ∷ xs) h small = h.0
nth_holds P default (suc n) (x ∷ xs) h small = nth_holds P default n xs h.1 (omega arith)

product_skus-stocked :
    (i : ℕ) → i < 6 → any (λ (p : Product). text_eq p.sku (product_skus i)) seed_products ≡ true
unfolding product_skus seed_products text_eq
product_skus-stocked i small =
    nth_holds (λ sku. any (λ (p : Product). text_eq p.sku sku) seed_products ≡ true) [] i
      (map (λ (p : Product). p.sku) seed_products)
      (refl, (refl, (refl, (refl, (refl, (refl, tt)))))) small

seed_order-IsSeed : (n : ℕ) → n ≤ 120 → IsSeed (seed_order n)
unfolding seed_order
seed_order-IsSeed n small = record {
  at_least = omega arith;
  at_most = omega arith;
  numbered = small;
  stocked = product_skus-stocked ((n - 1) % 6) (omega arith);
}

seeds_in_range : (first n : ℕ) → first + n ≤ 121 → All IsSeed (map seed_order (range first n))
seeds_in_range first zero h = tt
seeds_in_range first (suc n) h =
    (seed_order-IsSeed first (omega arith), seeds_in_range (suc first) n (omega arith))

pub seed_orders-IsSeed : All IsSeed seed_orders
unfolding seed_orders
seed_orders-IsSeed = seeds_in_range 1 120 (omega arith)

-- A sku among products that are all there is found.
pub stocked_of_seeds :
    (ps : List Product) (sku : Text) (db : Database)
    → All (λ p. HasProduct p db) ps
    → any (λ (p : Product). text_eq p.sku sku) ps ≡ true
    → (p : Product) × (select_product sku db ≡ some p)
stocked_of_seeds [] sku db h e = cc
stocked_of_seeds (p ∷ ps) sku db (here_, h) e = elim (Bool-cases (text_eq p.sku sku)) [
  | inr other ↦ stocked_of_seeds ps sku db h (ground arith)
  | inl same ↦
      let equal = (text_eq_iff p.sku sku).0 same in
      elim (Option-cases (select_product sku db)) [
        | inr found_ ↦ found_
        | inl absent ↦ cc (here_, equal, absent)
      ]
]

-- ===== src/Database/Listing/Rows.antt =====
-- Which rows stay through the join, the filter, the order and the cut of a listing.
use langgraph_temporal_agent.Prelude.{
  ◌≡◌, zero, inr, inl, refl, true, suc, some, none, [], arith, ◌∷◌, Bool, ℕ, List, Memᴰ, All,
  filter, Bool-cases, take, ap, find?, leb, ◌⊎◌, sym, length, ◌∙◌, ◌≤◌, Option-cases, All-Memᴰ,
  All-map_of,
}
use langgraph_temporal_agent.Database.Listing.{
  join_products, insert_by_id, order_by_id, OrderRow, order_row,
}
use langgraph_temporal_agent.Database.Schema.{Product, Order}
use langgraph_temporal_agent.Database.Listing.Laws.{IsAscending}
use langgraph_temporal_agent.Database.Sql.{is_product}

pub All-kept :
    {A : Type 0} (P : A → Type 0) (f : A → Bool) (xs : List A)
    → ((x : A) → Memᴰ x xs → f x ≡ true → P x)
    → All P (filter f xs)
All-kept P f [] h = tt
All-kept P f (x ∷ xs) h = elim (Bool-cases (f x)) [
  | inl good ↦ rw good (h x (Memᴰ.head refl) good, All-kept P f xs (λ y m. h y (Memᴰ.tail m)))
  | inr bad ↦ rw bad (All-kept P f xs (λ y m. h y (Memᴰ.tail m)))
]

pub Memᴰ-filter :
    {A : Type 0} (f : A → Bool) (xs : List A) (x : A)
    → Memᴰ x xs
    → f x ≡ true
    → Memᴰ x (filter f xs)
Memᴰ-filter f [] x m h = elim m [ ]
Memᴰ-filter f (y ∷ xs) x (Memᴰ.head same) h = rw (ap f (sym same) ∙ h) (Memᴰ.head same)
Memᴰ-filter f (y ∷ xs) x (Memᴰ.tail m) h = elim (Bool-cases (f y)) [
  | inl good ↦ rw good (Memᴰ.tail (Memᴰ-filter f xs x m h))
  | inr bad ↦ rw bad (Memᴰ-filter f xs x m h)
]

join_products-some :
    (ps : List Product) (x : Order) (os : List Order) (q : Product)
    → find? (is_product x.product_sku) ps ≡ some q
    → join_products ps (x ∷ os) ≡ order_row x q ∷ join_products ps os
unfolding join_products
join_products-some ps x os q found = ground (arith, found)

join_products-none :
    (ps : List Product) (x : Order) (os : List Order)
    → find? (is_product x.product_sku) ps ≡ none
    → join_products ps (x ∷ os) ≡ join_products ps os
unfolding join_products
join_products-none ps x os absent = ground (arith, absent)

pub Memᴰ-join_products :
    (ps : List Product) (os : List Order) (o : Order) (p : Product)
    → Memᴰ o os
    → find? (is_product o.product_sku) ps ≡ some p
    → Memᴰ (order_row o p) (join_products ps os)
unfolding join_products
Memᴰ-join_products ps [] o p m e = elim m [ ]
Memᴰ-join_products ps (x ∷ os) o p (Memᴰ.head same) e =
    let found : find? (is_product x.product_sku) ps ≡ some p = rw same at e in
    rw (join_products-some ps x os p found) (Memᴰ.head (ap (λ (y : Order). order_row y p) same))
Memᴰ-join_products ps (x ∷ os) o p (Memᴰ.tail m) e =
    elim (Option-cases (find? (is_product x.product_sku) ps)) [
      | inl absent ↦ rw (join_products-none ps x os absent) (Memᴰ-join_products ps os o p m e)
      | inr (q, found) ↦
          rw (join_products-some ps x os q found) (Memᴰ.tail (Memᴰ-join_products ps os o p m e))
    ]

-- The rows of a join, without regard to the match.
pub join_products-rows :
    (ps : List Product) (os : List Order)
    → All
        (λ r.
          (o : Order) × (p : Product) × Memᴰ o os
          × (find? (is_product o.product_sku) ps ≡ some p)
          × (r ≡ order_row o p))
        (join_products ps os)
unfolding join_products
join_products-rows ps [] = tt
join_products-rows ps (x ∷ os) = elim (Option-cases (find? (is_product x.product_sku) ps)) [
  | inl absent ↦
      rw (join_products-none ps x os absent)
        (All-map_of (join_products ps os) more (join_products-rows ps os))
  | inr (q, found) ↦ rw (join_products-some ps x os q found) (
    (x, q, Memᴰ.head refl, found, refl),
    All-map_of (join_products ps os) more (join_products-rows ps os),
  )
]
  where
    more :
        (r : OrderRow)
        → ((o : Order) × (p : Product) × Memᴰ o os
            × (find? (is_product o.product_sku) ps ≡ some p)
            × (r ≡ order_row o p))
        → (o : Order) × (p : Product) × Memᴰ o (x ∷ os)
          × (find? (is_product o.product_sku) ps ≡ some p)
          × (r ≡ order_row o p)
    more r (o, p, m, found, same) = (o, p, Memᴰ.tail m, found, same)

Memᴰ-insert_by_id :
    (x r : OrderRow) (rows : List OrderRow) → Memᴰ x (r ∷ rows) → Memᴰ x (insert_by_id r rows)
unfolding insert_by_id
Memᴰ-insert_by_id x r [] m = m
Memᴰ-insert_by_id x r (s ∷ rows) m = elim (Bool-cases (leb r.id s.id)) [
  | inl below ↦ rw below m
  | inr above ↦ rw above (swapped m (Memᴰ-insert_by_id x r rows))
]
  where
    swapped :
        Memᴰ x (r ∷ s ∷ rows)
        → (Memᴰ x (r ∷ rows) → Memᴰ x (insert_by_id r rows))
        → Memᴰ x (s ∷ insert_by_id r rows)
    swapped (Memᴰ.head same) later = Memᴰ.tail (later (Memᴰ.head same))
    swapped (Memᴰ.tail (Memᴰ.head same)) later = Memᴰ.head same
    swapped (Memᴰ.tail (Memᴰ.tail n)) later = Memᴰ.tail (later (Memᴰ.tail n))

pub Memᴰ-order_by_id :
    (x : OrderRow) (rows : List OrderRow) → Memᴰ x rows → Memᴰ x (order_by_id rows)
unfolding order_by_id
Memᴰ-order_by_id x [] m = m
Memᴰ-order_by_id x (r ∷ rows) (Memᴰ.head same) =
    Memᴰ-insert_by_id x r (order_by_id rows) (Memᴰ.head same)
Memᴰ-order_by_id x (r ∷ rows) (Memᴰ.tail m) =
    Memᴰ-insert_by_id x r (order_by_id rows) (Memᴰ.tail (Memᴰ-order_by_id x rows m))

-- A row of an ascending list is among the first, or these are as many and have no greater id.
pub take-cut :
    (n : ℕ) (rows : List OrderRow) (r : OrderRow)
    → IsAscending rows
    → Memᴰ r rows
    → Memᴰ r (take n rows) ⊎ ((length (take n rows) ≡ n) × All (λ s. s.id ≤ r.id) (take n rows))
take-cut zero rows r up m = inr (refl, tt)
take-cut (suc n) [] r up m = elim m [ ]
take-cut (suc n) (s ∷ rows) r up (Memᴰ.head same) = inl (Memᴰ.head same)
take-cut (suc n) (s ∷ rows) r (low, up) (Memᴰ.tail m) = elim (take-cut n rows r up m) [
  | inl early ↦ inl (Memᴰ.tail early)
  | inr (full, below) ↦ inr (ap suc full, (All-Memᴰ (λ x. s.id ≤ x.id) rows low m, below))
]

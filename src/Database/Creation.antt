-- ===== src/Database/Creation.antt =====
-- What `create_order_row` does to the tables, and what it answers.
use langgraph_temporal_agent.Prelude.{
  none, inl, ◌∷◌, inr, some, arith, suc, ℕ, find?, Option, ◌≡◌, Option-cases, All-find?, ◌<◌, ◌⊎◌,
  find?-holds, ◌≤◌, false, refl, leb, List, if◌then◌else◌, Bool-cases, All-map_of, ◌&&◌, ==_iff,
}
use langgraph_temporal_agent.Database.Sql.{
  ok, err, Result, database_connection, is_order, insert_order, select_product, check_violation,
}
use langgraph_temporal_agent.Database.Schema.{Database, Order, pending, Product, Refund}
use langgraph_temporal_agent.Text.{Text}
use langgraph_temporal_agent.Database.Invariant.{IsValid, IsSound, IsBacked}
use langgraph_temporal_agent.Database.Listing.{
  create_known, OrderRow, join_products, order_row, create_order_row,
}

abbrev pub new_order : ℕ → ℕ → Text → Text → ℕ → Order
new_order id now customer_id product_sku quantity = record {
  id = id;
  customer_id = customer_id;
  product_sku = product_sku;
  quantity = quantity;
  status = pending;
  created_at = now;
}

-- In valid tables the next id is free.
pub next_id_is_free :
    (db : Database) → IsValid db → find? (is_order db.next_order_id) db.orders ≡ none
next_id_is_free db v = elim (Option-cases (find? (is_order db.next_order_id) db.orders)) [
  | inl free ↦ free
  | inr (o, taken) ↦
      let sound =
        All-find? (IsSound db.products db.next_order_id) _ db.orders v.orders_sound taken in
      absurd (grind (arith, sound.drawn, find?-holds (is_order db.next_order_id) db.orders taken))
]

out_of_range : (q : ℕ) → (leb 1 q && leb q 10) ≡ false → (q < 1) ⊎ (10 < q)
out_of_range q h = grind arith

-- A new order under a free id hides no order from the refunds.
pub IsBacked-new_order :
    (o : Order) (ps : List Product) (os : List Order) (r : Refund)
    → find? (is_order o.id) os ≡ none
    → IsBacked ps os r
    → IsBacked ps (o ∷ os) r
IsBacked-new_order o ps os r free b = record {
  order = b.order;
  product = b.product;
  found = ground (arith, b.found, free, ==_iff o.id r.order_id);
  stocked = b.stocked;
  closed = b.closed;
  worth = b.worth;
  keyed = b.keyed;
}

module _ (now : ℕ) (customer_id product_sku : Text) (quantity : ℕ) (db : Database) where
  -- The order that a call would write.
  abbrev pub next_order : Order
  next_order = new_order db.next_order_id now customer_id product_sku quantity

  pub data Created : Result (Option OrderRow) × Database → Type 0 where
    unknown_product : select_product product_sku db ≡ none → Created (ok none, db)
    bad_quantity : (quantity < 1) ⊎ (10 < quantity) → Created (err check_violation, db)
    inserted :
        (p : Product)
        → select_product product_sku db ≡ some p
        → 1 ≤ quantity
        → quantity ≤ 10
        → Created (
          ok (some (order_row next_order p)),
          record db { orders = next_order ∷ db.orders; next_order_id = suc db.next_order_id },
        )

  -- The whole result of a call for a known product.
  known_result : Product → Result (Option OrderRow) × Database
  known_result p =
      if leb 1 quantity && leb quantity 10
      then (
        ok (some (order_row next_order p)),
        record db { orders = next_order ∷ db.orders; next_order_id = suc db.next_order_id },
      )
      else (err check_violation, db)

  create_known-some :
      (p : Product)
      → IsValid db
      → select_product product_sku db ≡ some p
      → database_connection (create_known now customer_id product_sku quantity (some p)) db
        ≡ known_result p
  unfolding database_connection create_known insert_order join_products known_result
  create_known-some p v e = ground (arith, e, next_id_is_free db v)

  known_result-Created :
      (p : Product) → select_product product_sku db ≡ some p → Created (known_result p)
  unfolding known_result
  known_result-Created p e = elim (Bool-cases (leb 1 quantity && leb quantity 10)) [
    | inl fits ↦ rw fits (inserted p e (ground arith) (ground arith))
    | inr unfit ↦ rw unfit (bad_quantity (out_of_range quantity unfit))
  ]

  create_known-Created :
      (found : Option Product)
      → IsValid db
      → select_product product_sku db ≡ found
      → Created (database_connection (create_known now customer_id product_sku quantity found) db)
  unfolding database_connection create_known
  create_known-Created none v e = unknown_product e
  create_known-Created (some p) v e = rw (create_known-some p v e) (known_result-Created p e)

  -- In valid tables, creating an order ends in one of three ways: there is no such product; the quantity
  -- is not between 1 and 10, and the CHECK constraint raises; or a pending order is added under the
  -- next id, and its joined row is returned. Only the last writes.
  pub create_order_row-Created :
      IsValid db → Created (create_order_row now customer_id product_sku quantity db)
  unfolding create_order_row
  create_order_row-Created v = create_known-Created (select_product product_sku db) v refl

  Created-IsValid :
      {out : Result (Option OrderRow) × Database} → IsValid db → Created out → IsValid out.1
  Created-IsValid v (unknown_product _) = v
  Created-IsValid v (bad_quantity _) = v
  Created-IsValid v (inserted p known low high) = record {
    priced = v.priced;
    orders_distinct = (next_id_is_free db v, v.orders_distinct);
    refunds_distinct = v.refunds_distinct;
    orders_sound = (
      record { product = p; stocked = known; at_least = low; at_most = high; drawn = omega arith },
      All-map_of db.orders
          (λ o h. record {
            product = h.product;
            stocked = h.stocked;
            at_least = h.at_least;
            at_most = h.at_most;
            drawn = omega (arith, h.drawn);
          })
          v.orders_sound,
    );
    refunds_backed =
        All-map_of db.refunds
          (λ r b. IsBacked-new_order next_order db.products db.orders r (next_id_is_free db v) b)
          v.refunds_backed;
  }

  -- Creating an order keeps valid tables valid.
  pub create_order_row-IsValid :
      IsValid db → IsValid (create_order_row now customer_id product_sku quantity db).1
  create_order_row-IsValid v = Created-IsValid v (create_order_row-Created v)

  -- Creating an order writes no refund.
  pub refunds-create_order_row :
      IsValid db → (create_order_row now customer_id product_sku quantity db).1.refunds ≡ db.refunds
  refunds-create_order_row v = go (create_order_row-Created v)
    where
      go : {out : Result (Option OrderRow) × Database} → Created out → out.1.refunds ≡ db.refunds
      go (unknown_product _) = refl
      go (bad_quantity _) = refl
      go (inserted _ _ _ _) = refl

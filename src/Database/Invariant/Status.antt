-- ===== src/Database/Invariant/Status.antt =====
-- A change of one order's status keeps the tables valid, unless it takes a refunded order back.
use langgraph_temporal_agent.Database.Schema.{
  OrderStatus, Order, Product, Refund, refunded, Database,
}
use langgraph_temporal_agent.Prelude.{
  ℕ, List, update, ◌≡◌, changed, find?-update, arith, refl, find?-holds, some, inr, inl, none,
  find?, ◌⊎◌, ◌≢◌, Option-cases, All, All-find?, All-map_of, All-zip, ==_iff, find?-none,
  IsDistinct-update, All-update,
}
use langgraph_temporal_agent.Database.Sql.{is_order, with_status, select_refund, is_refund_of}
use langgraph_temporal_agent.Database.Invariant.{IsBacked, IsValid, same_id, IsSound}

module _ (s : OrderStatus) (n : ℕ) where
  abbrev pub set_status : List Order → List Order
  set_status = update (is_order n) (with_status s)

  pub IsBacked-set_status :
      (ps : List Product) (os : List Order) (r : Refund)
      → (r.order_id ≡ n → s ≡ refunded)
      → IsBacked ps os r
      → IsBacked ps (set_status os) r
  IsBacked-set_status ps os r keep b = record {
    order = changed (is_order n) (with_status s) b.order;
    product = b.product;
    found =
        rw
          (find?-update (is_order n) (with_status s) (is_order r.order_id) os (λ x. refl), b.found);
    stocked = ground (arith, b.stocked);
    closed = ground (arith, b.closed, keep, find?-holds (is_order r.order_id) os b.found);
    worth = ground (arith, b.worth);
    keyed = b.keyed;
  }

-- An order that is not refunded has no refund.
pub no_refund_of_status :
    (n : ℕ) (db : Database) {o : Order}
    → IsValid db
    → find? (is_order n) db.orders ≡ some o
    → o.status ≢ refunded
    → select_refund n db ≡ none
no_refund_of_status n db {o} v e ne = elim (Option-cases (select_refund n db)) [
  | inl absent ↦ absent
  | inr (r, present) ↦
      let b =
        All-find? (IsBacked db.products db.orders) (is_refund_of n) db.refunds v.refunds_backed
          present in
      let here = find?-holds (is_refund_of n) db.refunds present in
      absurd (ne (ground (arith, b.found, b.closed, here, ==_iff r.order_id n)))
]

-- A status change keeps the invariant if it sets `refunded`, or if the order has no refund.
pub set_status-IsValid :
    (s : OrderStatus) (n : ℕ) (db : Database)
    → IsValid db
    → (s ≡ refunded) ⊎ (select_refund n db ≡ none)
    → IsValid (record db { orders = set_status s n db.orders })
set_status-IsValid s n db v keep = record {
  priced = v.priced;
  orders_distinct =
      IsDistinct-update same_id (is_order n) (with_status s) db.orders (λ x y. refl) (λ x y. refl)
        v.orders_distinct;
  refunds_distinct = v.refunds_distinct;
  orders_sound =
      All-update (IsSound db.products db.next_order_id) (is_order n) (with_status s) db.orders
        (λ o h _. record {
          product = h.product;
          stocked = h.stocked;
          at_least = h.at_least;
          at_most = h.at_most;
          drawn = h.drawn;
        })
        v.orders_sound;
  refunds_backed = kept keep;
}
  where
    kept :
        (s ≡ refunded) ⊎ (select_refund n db ≡ none)
        → All (IsBacked db.products (set_status s n db.orders)) db.refunds
    kept (inl closed) =
        All-map_of db.refunds (λ r. IsBacked-set_status s n db.products db.orders r (λ _. closed))
          v.refunds_backed
    kept (inr absent) =
        All-zip db.refunds
          (λ r other.
            IsBacked-set_status s n db.products db.orders r (λ e. cc ((==_iff r.order_id n).1 e)))
          (find?-none (is_refund_of n) db.refunds absent) v.refunds_backed

-- A status change of one order leaves every other order alone.
pub find?-set_status_other :
    (s : OrderStatus) (n m : ℕ) (db : Database) {o : Order}
    → find? (is_order m) db.orders ≡ some o
    → m ≢ n
    → find? (is_order m) (set_status s n db.orders) ≡ some o
find?-set_status_other s n m db {o} e ne =
    rw (find?-update (is_order n) (with_status s) (is_order m) db.orders (λ x. refl))
      (ground (arith, e, find?-holds (is_order m) db.orders e))

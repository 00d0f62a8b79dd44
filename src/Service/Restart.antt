-- ===== src/Service/Restart.antt =====
-- What a start of the API on tables in use keeps.
use langgraph_temporal_agent.Prelude.{
  ◌≡◌, false, ◌∷◌, refl, [], true, some, Bool, List, find?, ◌&&◌, if◌then◌else◌, some_inj, arith,
}
use langgraph_temporal_agent.Database.Refunds.{select_refund_order}
use langgraph_temporal_agent.Database.Schema.{Database}
use langgraph_temporal_agent.Database.Invariant.{IsValid}
use langgraph_temporal_agent.Database.Seeding.Grows.{Grows}
use langgraph_temporal_agent.Database.Totals.{KeepsTotals}
use langgraph_temporal_agent.Database.Lifecycle.{KeepsOrders, IsLater-refl}
use langgraph_temporal_agent.Database.Refunding.Keeps.{select_refund_order-parts}
use langgraph_temporal_agent.Database.Seeding.{initialize_database}
use langgraph_temporal_agent.Database.Invariant.Lookup.{find?-select_order, select_order-owner}
use langgraph_temporal_agent.Database.Seeding.Startup.{initialize_database-IsStarted}
use langgraph_temporal_agent.Database.Sql.{select_order, is_order}
use langgraph_temporal_agent.Text.{text_eq}
use langgraph_temporal_agent.Text.Equality.{text_eq_iff}

-- A row that passes a test, found by it, is found by a test that it passes as well.
find?-and :
    {A : Type 0} (p q : A → Bool) (xs : List A) (x : A)
    → find? p xs ≡ some x
    → q x ≡ true
    → find? (λ y. p y && q y) xs ≡ some x
find?-and p q [] x e h = cc
find?-and p q (y ∷ xs) x e h = go (find?-and p q xs x) (p y) refl e
  where
    go :
        (find? p xs ≡ some x → q x ≡ true → find? (λ z. p z && q z) xs ≡ some x)
        → (b : Bool) → p y ≡ b
        → (if b then some y else find? p xs) ≡ some x
        → find? (λ z. p z && q z) (y ∷ xs) ≡ some x
    go later true here k = rw (here, some_inj k, h) refl
    go later false not_here k = rw not_here (later k h)

Grows-KeepsTotals : (db db' : Database) → IsValid db → Grows db db' → KeepsTotals db db'
unfolding select_refund_order
Grows-KeepsTotals db db' v grows n customer_id o e =
    let (p, q, present, known, row) = select_refund_order-parts n customer_id db e in
    let here = find?-select_order n customer_id db.orders v.orders_distinct present in
    let owner = (select_order-owner n customer_id db present).1 in
    let present' : select_order n customer_id db' ≡ some p =
      find?-and (is_order n) (λ x. text_eq x.customer_id customer_id) db'.orders p
        (grows.orders n here) ((text_eq_iff p.customer_id customer_id).1 owner) in
    (o, ground (arith, present', grows.products p.product_sku known, row), refl)

pub restart-KeepsTotals : (db : Database) → IsValid db → KeepsTotals db (initialize_database db).1
restart-KeepsTotals db v =
    Grows-KeepsTotals db (initialize_database db).1 v (initialize_database-IsStarted db v).grows

pub restart-KeepsOrders :
    (db : Database) → IsValid db → KeepsOrders db.orders (initialize_database db).1.orders
restart-KeepsOrders db v n o e =
    (o, (initialize_database-IsStarted db v).grows.orders n e, IsLater-refl o)

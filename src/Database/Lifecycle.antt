-- ===== src/Database/Lifecycle.antt =====
-- The life of an order: which statuses the functions of app/database.py lead from where, and what of
-- an order they never change.
pub mod CalledOff
use langgraph_temporal_agent.Prelude.{
  arith, false, refl, true, some, ℕ, ◌≡◌, find?, ◌∙◌, Bool, ◌==◌, Option, if◌then◌else◌,
  find?-holds, ==_iff, changed, find?-update, some_inj, sym, ap, List,
}
use langgraph_temporal_agent.Database.Schema.{delivered, OrderStatus, Order, Database}
use langgraph_temporal_agent.Database.Orders.{is_cancellable, cancel_order_row, CancellationResult}
use langgraph_temporal_agent.Text.{Text}
use langgraph_temporal_agent.Database.Sql.{is_order, Result, with_status}
use langgraph_temporal_agent.Database.Invariant.{IsValid}
use langgraph_temporal_agent.Database.Invariant.Status.{set_status}
use langgraph_temporal_agent.Database.Refunds.{
  refund_order_row, RefundResult, RefundOrder, select_refund_order,
}
use langgraph_temporal_agent.Database.Listing.{create_order_row, OrderRow}
use langgraph_temporal_agent.Database.Cancellation.{
  refused, done, missing, Cancelled, cancel_order_row-Cancelled,
}
use langgraph_temporal_agent.Database.Refunding.Outcome.{
  Refunded, no_order, repeated, not_delivered, kept_out, created,
}
use langgraph_temporal_agent.Database.Creation.{
  Created, unknown_product, bad_quantity, inserted, next_id_is_free, create_order_row-Created,
}
use langgraph_temporal_agent.Database.Invariant.Lookup.{find?-select_order}
use langgraph_temporal_agent.Database.Refunding.Ends.{refund_order_row-Refunded}
use langgraph_temporal_agent.Database.Refunding.Keeps.{order_of_refund_order}
use mathlib.Core.Path.{subst}

-- The moves of a status: none, a cancellation, or the refund of a delivered order.
pub data Life : OrderStatus → OrderStatus → Type 0 where
  stays : (s : OrderStatus) → Life s s
  cancels : (s : OrderStatus) → is_cancellable s ≡ true → Life s OrderStatus.cancelled
  refunds : Life delivered OrderStatus.refunded

-- `cancelled` and `refunded` are final.
Life-trans : {a b c : OrderStatus} → Life a b → Life b c → Life a c
unfolding is_cancellable
Life-trans (stays s) k = k
Life-trans (cancels s h) (stays _) = cancels s h
Life-trans (cancels s h) (cancels _ k) = cc
Life-trans refunds (stays _) = refunds
Life-trans refunds (cancels _ k) = cc

-- The same order, later.
pub record IsLater (o o' : Order) : Type 0 where
  pub id : o'.id ≡ o.id
  pub customer_id : o'.customer_id ≡ o.customer_id
  pub product_sku : o'.product_sku ≡ o.product_sku
  pub quantity : o'.quantity ≡ o.quantity
  pub created_at : o'.created_at ≡ o.created_at
  pub life : Life o.status o'.status

-- Every order is still found, later.
abbrev pub KeepsOrders : List Order → List Order → Type 0
KeepsOrders os os' =
    (n : ℕ) (o : Order)
    → find? (is_order n) os ≡ some o
    → (o' : Order) × (find? (is_order n) os' ≡ some o') × IsLater o o'

pub IsLater-refl : (o : Order) → IsLater o o
IsLater-refl o = record {
  id = refl;
  customer_id = refl;
  product_sku = refl;
  quantity = refl;
  created_at = refl;
  life = stays o.status;
}

pub KeepsOrders-refl : (os : List Order) → KeepsOrders os os
KeepsOrders-refl os n o e = (o, e, IsLater-refl o)

IsLater-trans : {a b c : Order} → IsLater a b → IsLater b c → IsLater a c
IsLater-trans h k = record {
  id = k.id ∙ h.id;
  customer_id = k.customer_id ∙ h.customer_id;
  product_sku = k.product_sku ∙ h.product_sku;
  quantity = k.quantity ∙ h.quantity;
  created_at = k.created_at ∙ h.created_at;
  life = Life-trans h.life k.life;
}

pub KeepsOrders-trans : (a b c : List Order) → KeepsOrders a b → KeepsOrders b c → KeepsOrders a c
KeepsOrders-trans a b c h k n o e =
    let (o', e', later) = h n o e in
    let (o'', e'', later') = k n o' e' in (o'', e'', IsLater-trans later later')

-- A status is set that the order's status may move to.
KeepsOrders-set_status :
    (s : OrderStatus) (m : ℕ) (os : List Order)
    → ((o : Order) → find? (is_order m) os ≡ some o → Life o.status s)
    → KeepsOrders os (set_status s m os)
KeepsOrders-set_status s m os may n o e = (
  changed (is_order m) (with_status s) o,
  rw (find?-update (is_order m) (with_status s) (is_order n) os (λ x. refl), e) refl,
  later (o.id == m) refl,
)
  where
    later : (b : Bool) → (o.id == m) ≡ b → IsLater o (if b then with_status s o else o)
    later true same =
        let here : find? (is_order m) os ≡ some o =
          ground (arith, e, find?-holds (is_order n) os e, ==_iff o.id m, ==_iff o.id n) in
        record {
          id = refl;
          customer_id = refl;
          product_sku = refl;
          quantity = refl;
          created_at = refl;
          life = may o here;
        }
    later false other = IsLater-refl o

pub KeepsOrders-cancel_order_row :
    (m : ℕ) (customer : Text) (db : Database)
    → IsValid db
    → KeepsOrders db.orders (cancel_order_row m customer db).1.orders
KeepsOrders-cancel_order_row m customer db v = go (cancel_order_row-Cancelled m customer db)
  where
    go :
        {out : Result CancellationResult × Database}
        → Cancelled m customer db out
        → KeepsOrders db.orders out.1.orders
    go (missing _ _ _ _) = KeepsOrders-refl db.orders
    go (refused _ _ _ _ _ _ _ _) = KeepsOrders-refl db.orders
    go (done r p present allowed _ _ _) =
        let found = find?-select_order m customer db.orders v.orders_distinct present in
        KeepsOrders-set_status OrderStatus.cancelled m db.orders
          (λ o e. cancels o.status (rw (some_inj (sym found ∙ e)) at allowed))

pub KeepsOrders-refund_order_row :
    (m : ℕ) (customer reason key : Text) (db : Database)
    → IsValid db
    → KeepsOrders db.orders (refund_order_row m customer reason key db).1.orders
KeepsOrders-refund_order_row m customer reason key db v =
    go (refund_order_row-Refunded m customer reason key db)
  where
    go :
        {out : Result (Option RefundResult) × Database}
        → Refunded m customer reason key db out
        → KeepsOrders db.orders out.1.orders
    go (no_order _) = KeepsOrders-refl db.orders
    go (repeated _ _ _ _) = KeepsOrders-refl db.orders
    go (not_delivered _ _ _ _) = KeepsOrders-refl db.orders
    go (kept_out _ _ _ _ _ _) = KeepsOrders-refl db.orders
    go (created row found _ ready _) =
        KeepsOrders-set_status OrderStatus.refunded m db.orders (may row found ready)
      where
        may :
            (row : RefundOrder)
            → select_refund_order m customer db ≡ some row
            → row.status ≡ delivered
            → (o : Order) → find? (is_order m) db.orders ≡ some o
            → Life o.status OrderStatus.refunded
        may row found ready o e =
            let (p, q, here_p, known, total, status) =
              order_of_refund_order m customer db v found in
            let same : o.status ≡ delivered =
              ap (λ (x : Order). x.status) (some_inj (sym e ∙ here_p)) ∙ sym status ∙ ready in
            subst (λ s. Life s OrderStatus.refunded) (sym same) Life.refunds

pub KeepsOrders-create_order_row :
    (now : ℕ) (customer sku : Text) (quantity : ℕ) (db : Database)
    → IsValid db
    → KeepsOrders db.orders (create_order_row now customer sku quantity db).1.orders
KeepsOrders-create_order_row now customer sku quantity db v =
    go (create_order_row-Created now customer sku quantity db v)
  where
    go :
        {out : Result (Option OrderRow) × Database}
        → Created now customer sku quantity db out
        → KeepsOrders db.orders out.1.orders
    go (unknown_product _) = KeepsOrders-refl db.orders
    go (bad_quantity _) = KeepsOrders-refl db.orders
    go (inserted _ _ _ _) = λ n o e.
        (o, ground (arith, e, next_id_is_free db v, ==_iff db.next_order_id n), IsLater-refl o)

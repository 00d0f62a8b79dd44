-- ===== src/Database/Lifecycle/CalledOff.antt =====
-- Which orders are cancelled in the tables, before and after each function of app/database.py.
use langgraph_temporal_agent.Prelude.{
  ◌≡◌, refl, inl, some, inr, false, none, true, List, ℕ, find?, ◌⊎◌, Bool, ◌==◌, Option,
  if◌then◌else◌, ==_iff, ap, ◌∙◌,
}
use langgraph_temporal_agent.Database.Schema.{OrderStatus, Order, Database}
use langgraph_temporal_agent.Text.{Text}
use langgraph_temporal_agent.Database.Invariant.Status.{set_status}
use langgraph_temporal_agent.Database.Sql.{is_order, Result, with_status}
use langgraph_temporal_agent.Database.Invariant.{IsValid}
use langgraph_temporal_agent.Database.Refunds.{refund_order_row, RefundResult}
use langgraph_temporal_agent.Database.Orders.{cancel_order_row, CancellationResult}
use langgraph_temporal_agent.Database.Listing.{create_order_row, OrderRow}
use langgraph_temporal_agent.Database.Cancellation.{
  Cancelled, missing, refused, done, cancel_order_row-Cancelled,
}
use langgraph_temporal_agent.Database.Refunding.Outcome.{
  Refunded, no_order, repeated, not_delivered, kept_out, created,
}
use mathlib.Core.Option
use langgraph_temporal_agent.Database.Refunding.Ends.{refund_order_row-Refunded}
use langgraph_temporal_agent.Database.Invariant.Lookup.{find?-select_order, select_order-owner}
use langgraph_temporal_agent.Prelude.{find?-holds, find?-update, some_inj, changed, sym}
use langgraph_temporal_agent.Database.Creation.{
  Created, unknown_product, bad_quantity, inserted, create_order_row-Created, next_order,
}

-- Order `n`, of a customer, is cancelled.
abbrev pub IsCalledOff : List Order → ℕ → Text → Type 0
IsCalledOff os n customer_id =
    (o : Order) × (find? (is_order n) os ≡ some o)
    × (o.status ≡ OrderStatus.cancelled)
    × (o.customer_id ≡ customer_id)

-- An order that is cancelled after another status was set was cancelled before, or is the one whose
-- status was set.
set_status-back :
    (s : OrderStatus) (m : ℕ) (os : List Order) (n : ℕ) (customer_id : Text)
    → IsCalledOff (set_status s m os) n customer_id
    → IsCalledOff os n customer_id
      ⊎ ((o : Order) × (find? (is_order n) os ≡ some o)
          × (o.id ≡ m)
          × (s ≡ OrderStatus.cancelled)
          × (o.customer_id ≡ customer_id))
set_status-back s m os n customer_id (o', found, status, owner) =
    go (find? (is_order n) os) refl
      (sym (find?-update (is_order m) (with_status s) (is_order n) os (λ x. refl)) ∙ found)
  where
    before :
        (o : Order) (b : Bool)
        → find? (is_order n) os ≡ some o
        → (o.id == m) ≡ b
        → (if b then with_status s o else o) ≡ o'
        → IsCalledOff os n customer_id
          ⊎ ((o : Order) × (find? (is_order n) os ≡ some o)
              × (o.id ≡ m)
              × (s ≡ OrderStatus.cancelled)
              × (o.customer_id ≡ customer_id))
    before o true e same changed_to = inr (
      o,
      e,
      (==_iff o.id m).0 same,
      ap (λ (x : Order). x.status) changed_to ∙ status,
      ap (λ (x : Order). x.customer_id) changed_to ∙ owner,
    )
    before o false e same changed_to = inl (
      o,
      e,
      ap (λ (x : Order). x.status) changed_to ∙ status,
      ap (λ (x : Order). x.customer_id) changed_to ∙ owner,
    )

    go :
        (found_before : Option Order)
        → find? (is_order n) os ≡ found_before
        → Option.map (changed (is_order m) (with_status s)) found_before ≡ some o'
        → IsCalledOff os n customer_id
          ⊎ ((o : Order) × (find? (is_order n) os ≡ some o)
              × (o.id ≡ m)
              × (s ≡ OrderStatus.cancelled)
              × (o.customer_id ≡ customer_id))
    go none e h = cc
    go (some o) e h = before o (o.id == m) e refl (some_inj h)

pub cancel_order_row-back :
    (m : ℕ) (customer : Text) (db : Database) (n : ℕ) (customer_id : Text)
    → IsValid db
    → IsCalledOff (cancel_order_row m customer db).1.orders n customer_id
    → IsCalledOff db.orders n customer_id ⊎ ((n ≡ m) × (customer ≡ customer_id))
cancel_order_row-back m customer db n customer_id v = go (cancel_order_row-Cancelled m customer db)
  where
    go :
        {out : Result CancellationResult × Database}
        → Cancelled m customer db out
        → IsCalledOff out.1.orders n customer_id
        → IsCalledOff db.orders n customer_id ⊎ ((n ≡ m) × (customer ≡ customer_id))
    go (missing _ _ _ _) h = inl h
    go (refused _ _ _ _ _ _ _ _) h = inl h
    go (done r p present allowed _ _ _) h =
        elim (set_status-back OrderStatus.cancelled m db.orders n customer_id h) [
          | inl before ↦ inl before
          | inr (o, found, id, _, owner) ↦ inr (called_off o found id owner)
        ]
      where
        called_off :
            (o : Order)
            → find? (is_order n) db.orders ≡ some o
            → o.id ≡ m
            → o.customer_id ≡ customer_id
            → (n ≡ m) × (customer ≡ customer_id)
        called_off o found id owner =
            let same : n ≡ m =
              sym ((==_iff o.id n).0 (find?-holds (is_order n) db.orders found)) ∙ id in
            let first = find?-select_order m customer db.orders v.orders_distinct present in
            (
              same,
              sym (select_order-owner m customer db present).1
                  ∙ ap (λ (x : Order). x.customer_id) (some_inj (sym first ∙ (rw same at found)))
                  ∙ owner,
            )

pub refund_order_row-back :
    (m : ℕ) (customer reason key : Text) (db : Database) (n : ℕ) (customer_id : Text)
    → IsCalledOff (refund_order_row m customer reason key db).1.orders n customer_id
    → IsCalledOff db.orders n customer_id
refund_order_row-back m customer reason key db n customer_id =
    go (refund_order_row-Refunded m customer reason key db)
  where
    go :
        {out : Result (Option RefundResult) × Database}
        → Refunded m customer reason key db out
        → IsCalledOff out.1.orders n customer_id
        → IsCalledOff db.orders n customer_id
    go (no_order _) h = h
    go (repeated _ _ _ _) h = h
    go (not_delivered _ _ _ _) h = h
    go (kept_out _ _ _ _ _ _) h = h
    go (created _ _ _ _ _) h =
        elim (set_status-back OrderStatus.refunded m db.orders n customer_id h) [
          | inl before ↦ before
          | inr (_, _, _, never, _) ↦ cc
        ]

pub create_order_row-back :
    (now : ℕ) (customer sku : Text) (quantity : ℕ) (db : Database) (n : ℕ) (customer_id : Text)
    → IsValid db
    → IsCalledOff (create_order_row now customer sku quantity db).1.orders n customer_id
    → IsCalledOff db.orders n customer_id
create_order_row-back now customer sku quantity db n customer_id v =
    go (create_order_row-Created now customer sku quantity db v)
  where
    go :
        {out : Result (Option OrderRow) × Database}
        → Created now customer sku quantity db out
        → IsCalledOff out.1.orders n customer_id
        → IsCalledOff db.orders n customer_id
    go (unknown_product _) h = h
    go (bad_quantity _) h = h
    go (inserted _ _ _ _) (o, found, status, owner) =
        old (db.next_order_id == n) o found status owner
      where
        old :
            (b : Bool) (o : Order)
            → (if b
                then some (next_order now customer sku quantity db)
                else find? (is_order n) db.orders)
              ≡ some o
            → o.status ≡ OrderStatus.cancelled
            → o.customer_id ≡ customer_id
            → IsCalledOff db.orders n customer_id
        old true o e status owner =
            let pending_now = ap (λ (x : Order). x.status) (some_inj e) ∙ status in cc
        old false o e status owner = (o, e, status, owner)

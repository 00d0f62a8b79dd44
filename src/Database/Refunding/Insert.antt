-- ===== src/Database/Refunding/Insert.antt =====
-- When the constraints of the refunds table let a row in.
use langgraph_temporal_agent.Prelude.{
  false, arith, none, ◌∷◌, inl, inr, some, ℕ, ◌≡◌, find?, Option-cases, ◌<◌, All-find?, ◌≤◌,
  find?-none, find?-holds, sym, ◌∙◌, ==_iff,
}
use langgraph_temporal_agent.Database.Sql.{
  err, ok, insert_refund, select_refund, DbError, is_order, numeric_limit, is_refund_of,
  numeric_value_out_of_range,
}
use langgraph_temporal_agent.Database.Refunds.{refund_idempotency_key, RefundOrder}
use langgraph_temporal_agent.Database.Schema.{Refund, Database, Order}
use langgraph_temporal_agent.Text.{Text, text_eq}
use langgraph_temporal_agent.Text.Decimal.{decimal_inj}
use langgraph_temporal_agent.Database.Invariant.{IsValid, IsBacked}
use langgraph_temporal_agent.Database.Refunding.Outcome.{new_refund}
use langgraph_temporal_agent.Text.Equality.{text_eq_iff}

-- An insert that succeeds has added the row, and changed nothing else.
pub insert_refund-ok :
    (r : Refund) (db db' : Database) {u : Unit {0}}
    → insert_refund r db ≡ ok (u, db')
    → db' ≡ record db { refunds = r ∷ db.refunds }
unfolding insert_refund
insert_refund-ok r db db' e = ground arith

pub refund_idempotency_key_inj :
    (m n : ℕ) → refund_idempotency_key m ≡ refund_idempotency_key n → m ≡ n
unfolding refund_idempotency_key
refund_idempotency_key_inj m n e = decimal_inj m n (cc)

-- Where the tables are valid, keys derived from order ids clash only if the order ids do.
pub key_is_free :
    (n : ℕ) (db : Database)
    → IsValid db
    → select_refund n db ≡ none
    → find? (λ s. text_eq s.idempotency_key (refund_idempotency_key n)) db.refunds ≡ none
key_is_free n db v absent =
    elim (Option-cases
      (find? (λ s. text_eq s.idempotency_key (refund_idempotency_key n)) db.refunds)) [
        | inl free ↦ free
        | inr (s, taken) ↦
            let b =
              All-find? (IsBacked db.products db.orders) _ db.refunds v.refunds_backed taken in
            let other =
              All-find? (λ r. is_refund_of n r ≡ false) _ db.refunds
                (find?-none (is_refund_of n) db.refunds absent) taken in
            let same = (text_eq_iff s.idempotency_key _).0 (find?-holds _ db.refunds taken) in
            let e = refund_idempotency_key_inj s.order_id n (sym b.keyed ∙ same) in
            cc ((==_iff s.order_id n).1 e)
      ]

-- So a refund of an existing order is let in unless it is too large or worth nothing.
pub insert_refund_accepted :
    (n : ℕ) (reason : Text) (o : RefundOrder) (db : Database) {p : Order}
    → IsValid db
    → find? (is_order n) db.orders ≡ some p
    → select_refund n db ≡ none
    → 0 < o.total
    → o.total < numeric_limit
    → insert_refund (new_refund n reason (refund_idempotency_key n) o) db
      ≡ ok (
        tt,
        record db { refunds = new_refund n reason (refund_idempotency_key n) o ∷ db.refunds },
      )
unfolding insert_refund
insert_refund_accepted n reason o db v e absent pos small =
    ground (arith, e, absent, key_is_free n db v absent)

-- A refund that the constraints keep out is too large for the column, or worth nothing.
pub insert_refund_rejected :
    (n : ℕ) (reason : Text) (o : RefundOrder) (db : Database) {p : Order} {x : DbError}
    → IsValid db
    → find? (is_order n) db.orders ≡ some p
    → select_refund n db ≡ none
    → 0 < o.total
    → insert_refund (new_refund n reason (refund_idempotency_key n) o) db ≡ err x
    → (numeric_limit ≤ o.total) × (x ≡ numeric_value_out_of_range)
unfolding insert_refund
insert_refund_rejected n reason o db v e absent pos fail =
    ground (arith, e, absent, key_is_free n db v absent)

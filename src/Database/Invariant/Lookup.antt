-- ===== src/Database/Invariant/Lookup.antt =====
-- What a query by id and customer finds, where ids are unique.
use langgraph_temporal_agent.Prelude.{
  ℕ, List, IsDistinct, find?, some, and_true, ◌==◌, ◌≡◌, ◌&&◌, find?-holds, ==_iff, ◌∷◌, arith,
  find?-and_none, [],
}
use langgraph_temporal_agent.Text.{Text, text_eq}
use langgraph_temporal_agent.Database.Schema.{Database, Order}
use langgraph_temporal_agent.Database.Sql.{select_order, is_order}
use langgraph_temporal_agent.Database.Invariant.{same_id}
use langgraph_temporal_agent.Text.Equality.{text_eq_iff}

-- The first row with both the id and the customer is the row with the id.
pub find?-select_order :
    (n : ℕ) (customer_id : Text) (os : List Order) {o : Order}
    → IsDistinct same_id os
    → find? (λ x. x.id == n && text_eq x.customer_id customer_id) os ≡ some o
    → find? (is_order n) os ≡ some o
find?-select_order n customer_id [] d e = cc
find?-select_order n customer_id (x ∷ os) {o} d e = ground (
  arith,
  find?-select_order n customer_id os {o = o} d.1,
  find?-and_none (is_order x.id) (λ y. text_eq y.customer_id customer_id) os d.0,
)

pub select_order-owner :
    (n : ℕ) (customer_id : Text) (db : Database) {o : Order}
    → select_order n customer_id db ≡ some o
    → (o.id ≡ n) × (o.customer_id ≡ customer_id)
select_order-owner n customer_id db {o} e =
    let both = and_true _ _ (find?-holds _ db.orders e) in
    ((==_iff o.id n).0 both.0, (text_eq_iff o.customer_id customer_id).0 both.1)

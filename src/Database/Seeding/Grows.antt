-- ===== src/Database/Seeding/Grows.antt =====
-- Tables that grow: what is there stays.
use langgraph_temporal_agent.Prelude.{◌≡◌, true, none, some, refl, ℕ, Option, find?, ◌∙◌}
use langgraph_temporal_agent.Database.Invariant.{IsValid}
use langgraph_temporal_agent.Database.Sql.{ok, Result, is_some, select_product, is_order}
use langgraph_temporal_agent.Database.Schema.{Database, Product, Order}
use langgraph_temporal_agent.Text.{Text}

-- Rows that are found stay the rows that are found.
pub record Grows (db db' : Database) : Type 0 where
  pub products :
      (sku : Text) {p : Product} → select_product sku db ≡ some p → select_product sku db' ≡ some p
  pub orders :
      (n : ℕ) {o : Order}
      → find? (is_order n) db.orders ≡ some o
      → find? (is_order n) db'.orders ≡ some o
  pub refunds : db'.refunds ≡ db.refunds
  pub user_memories : db'.user_memories ≡ db.user_memories

pub Grows-refl : (db : Database) → Grows db db
Grows-refl db = record {
  products = λ sku h. h;
  orders = λ n h. h;
  refunds = refl;
  user_memories = refl;
}

pub Grows-trans : {a b c : Database} → Grows a b → Grows b c → Grows a c
Grows-trans g h = record {
  products = λ sku e. h.products sku (g.products sku e);
  orders = λ n e. h.orders n (g.orders n e);
  refunds = h.refunds ∙ g.refunds;
  user_memories = h.user_memories ∙ g.user_memories;
}

-- Valid apart from the sequence, all ids being below `k`.
abbrev pub IsValidBelow : ℕ → Database → Type 0
IsValidBelow k db = IsValid (record db { next_order_id = k })

-- The statement returns, keeps the tables valid and what is in them, and `P` holds afterwards.
pub record Seeds (k : ℕ) (db : Database) (P : Database → Type 0)
    (out : Result (Unit {0} × Database)) : Type 0 where
  pub after : Database
  pub ran : out ≡ ok (tt, after)
  pub valid : IsValidBelow k after
  pub grows : Grows db after
  pub holds : P after

abbrev pub HasProduct : Product → Database → Type 0
HasProduct p db = is_some (select_product p.sku db) ≡ true

abbrev pub HasOrder : Order → Database → Type 0
HasOrder o db = is_some (find? (is_order o.id) db.orders) ≡ true

pub HasProduct-grows :
    (p : Product) {db db' : Database} → Grows db db' → HasProduct p db → HasProduct p db'
HasProduct-grows p {db} {db'} g h = go (select_product p.sku db) refl h
  where
    go : (r : Option Product) → select_product p.sku db ≡ r → is_some r ≡ true → HasProduct p db'
    go none e k = cc
    go (some q) e k = cc (g.products p.sku e)

pub HasOrder-grows : (o : Order) {db db' : Database} → Grows db db' → HasOrder o db → HasOrder o db'
HasOrder-grows o {db} {db'} g h = go (find? (is_order o.id) db.orders) refl h
  where
    go :
        (r : Option Order) → find? (is_order o.id) db.orders ≡ r → is_some r ≡ true → HasOrder o db'
    go none e k = cc
    go (some q) e k = cc (g.orders o.id e)

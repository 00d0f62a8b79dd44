-- ===== src/Tools/Dispatch/SameRows.antt =====
-- Databases that are the same for one user, and the functions that read and write them.
use langgraph_temporal_agent.Prelude.{
  ◌≡◌, none, some, arith, ◌∷◌, refl, [], ℕ, List, Option, ap, filter, find?, ◌∙◌, update, sym,
}
use langgraph_temporal_agent.Text.{Text, text_eq}
use langgraph_temporal_agent.Database.Memories.{
  save_user_memory, select_memory, upserted, upsert_memory, is_memory, overwritten,
}
use langgraph_temporal_agent.Tools.Actions.{status_of_match, status_answer}
use langgraph_temporal_agent.Database.Schema.{Database, UserMemory}
use langgraph_temporal_agent.Database.Listing.{database_counts}
use langgraph_temporal_agent.Database.Privacy.{orders_of, select_order-orders_of}
use langgraph_temporal_agent.Database.Sql.{select_order, is_order}
use langgraph_temporal_agent.Database.Orders.{get_order_status_row}
use langgraph_temporal_agent.Text.Equality.{text_eq_iff}

-- The preferences of one user.
abbrev pub memories_of : Text → Database → List UserMemory
memories_of user_id db = filter (λ m. text_eq m.user_id user_id) db.user_memories

-- Two databases with the same orders and preferences of a user, and the same numbers of orders and
-- products.
pub record IsSameFor (user_id : Text) (db db' : Database) : Type 0 where
  pub orders : orders_of user_id db ≡ orders_of user_id db'
  pub memories : memories_of user_id db ≡ memories_of user_id db'
  pub counts : database_counts db ≡ database_counts db'

-- The same for the user, and the same outside the database.
abbrev pub SameWorld : {S : Type 0} → Text → Database × S → Database × S → Type 0
SameWorld user_id (db, s) (db', s') = IsSameFor user_id db db' × (s ≡ s')

pub select_memory-memories_of :
    (user_id key : Text) (db : Database)
    → select_memory user_id key db ≡ find? (λ m. text_eq m.memory_key key) (memories_of user_id db)
select_memory-memories_of user_id key db = go db.user_memories
  where
    go :
        (ms : List UserMemory)
        → find? (is_memory user_id key) ms
          ≡ find? (λ m. text_eq m.memory_key key) (filter (λ m. text_eq m.user_id user_id) ms)
    go [] = refl
    go (m ∷ ms) = ground (arith, go ms)

-- What a save makes of the user's own preferences.
pub memories_of-update :
    (now : ℕ) (user_id key value : Text) (ms : List UserMemory)
    → filter
        (λ m. text_eq m.user_id user_id)
        (update (is_memory user_id key) (overwritten now value) ms)
      ≡ update
          (is_memory user_id key)
          (overwritten now value)
          (filter (λ m. text_eq m.user_id user_id) ms)
memories_of-update now user_id key value [] = refl
memories_of-update now user_id key value (m ∷ ms) =
    ground (arith, memories_of-update now user_id key value ms)

pub memories_of-upsert :
    (now : ℕ) (user_id key value : Text) (old : Option UserMemory) (ms : List UserMemory)
    → filter (λ m. text_eq m.user_id user_id) (upsert_memory now user_id key value old ms)
      ≡ upsert_memory now user_id key value old (filter (λ m. text_eq m.user_id user_id) ms)
memories_of-upsert now user_id key value none ms = ground (arith, text_eq_iff user_id user_id)
memories_of-upsert now user_id key value (some _) ms = memories_of-update now user_id key value ms

pub select_memory_same :
    (user_id key : Text) (db db' : Database)
    → IsSameFor user_id db db'
    → select_memory user_id key db ≡ select_memory user_id key db'
select_memory_same user_id key db db' same =
    select_memory-memories_of user_id key db
    ∙ ap (find? (λ m. text_eq m.memory_key key)) same.memories
    ∙ sym (select_memory-memories_of user_id key db')

pub select_order_same :
    (n : ℕ) (user_id : Text) (db db' : Database)
    → IsSameFor user_id db db'
    → select_order n user_id db ≡ select_order n user_id db'
select_order_same n user_id db db' same =
    select_order-orders_of n user_id db
    ∙ ap (find? (is_order n)) same.orders
    ∙ sym (select_order-orders_of n user_id db')

pub save_user_memory_same :
    (now : ℕ) (user_id key value : Text) (db db' : Database)
    → IsSameFor user_id db db'
    → ((save_user_memory now user_id key value db).0
        ≡ (save_user_memory now user_id key value db').0)
      × IsSameFor user_id
          (save_user_memory now user_id key value db).1
          (save_user_memory now user_id key value db').1
unfolding save_user_memory database_counts
save_user_memory_same now user_id key value db db' same =
    let old = select_memory_same user_id key db db' same in
    (
      ap (upserted now user_id key value) old,
      record {
        orders = same.orders;
        memories =
            memories_of-upsert now user_id key value (select_memory user_id key db) db.user_memories
            ∙ ap (λ o. upsert_memory now user_id key value o (memories_of user_id db)) old
            ∙ ap (upsert_memory now user_id key value (select_memory user_id key db')) same.memories
            ∙ sym (
                memories_of-upsert now user_id key value (select_memory user_id key db')
                  db'.user_memories);
        counts = same.counts;
      },
    )

pub status_of_match_same :
    (id : Text) (m : Option ℕ) (user_id : Text) (db db' : Database)
    → IsSameFor user_id db db'
    → status_of_match id m user_id db ≡ status_of_match id m user_id db'
unfolding status_of_match get_order_status_row
status_of_match_same id none user_id db db' same = refl
status_of_match_same id (some n) user_id db db' same =
    ap (status_answer id) (select_order_same n user_id db db' same)

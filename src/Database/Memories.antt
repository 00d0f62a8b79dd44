-- ===== src/Database/Memories.antt =====
-- The preferences that app/database.py keeps: `save_user_memory`, `get_user_memories` and
-- `delete_user_memory`. No constraint but UNIQUE (user_id, memory_key) can be hit, and the upsert
-- handles that one, so these functions do not raise.
pub mod Laws
use langgraph_temporal_agent.Prelude.{
  [], none, some, ◌∷◌, ℕ, Option, Bool, List, find?, ltb, ◌&&◌, update, if◌then◌else◌, map, count,
  filter, not,
}
use langgraph_temporal_agent.Text.{Text, text_eq}
use langgraph_temporal_agent.Database.Schema.{UserMemory, Database}

abbrev pub is_memory : Text → Text → UserMemory → Bool
is_memory user_id memory_key m = text_eq m.user_id user_id && text_eq m.memory_key memory_key

abbrev pub new_memory : ℕ → Text → Text → Text → UserMemory
new_memory now user_id memory_key memory_value = record {
  user_id = user_id;
  memory_key = memory_key;
  memory_value = memory_value;
  created_at = now;
  updated_at = now;
}

-- `SET memory_value = EXCLUDED.memory_value, updated_at = CURRENT_TIMESTAMP`
abbrev pub overwritten : ℕ → Text → UserMemory → UserMemory
overwritten now value m = record m { memory_value = value; updated_at = now }

-- `INSERT … ON CONFLICT (user_id, memory_key) DO UPDATE …`
abbrev pub upsert_memory :
    ℕ → Text → Text → Text → Option UserMemory → List UserMemory → List UserMemory
upsert_memory now user_id key value none ms = new_memory now user_id key value ∷ ms
upsert_memory now user_id key value (some _) ms =
    update (is_memory user_id key) (overwritten now value) ms

-- RETURNING gives the inserted row, or the row after the update.
abbrev pub upserted : ℕ → Text → Text → Text → Option UserMemory → UserMemory
upserted now user_id key value none = new_memory now user_id key value
upserted now user_id key value (some m) = overwritten now value m

abbrev pub select_memory : Text → Text → Database → Option UserMemory
select_memory user_id key db = find? (is_memory user_id key) db.user_memories

unfoldable pub save_user_memory : ℕ → Text → Text → Text → Database → UserMemory × Database
save_user_memory now user_id memory_key memory_value db =
    let old = select_memory user_id memory_key db in
    (
      upserted now user_id memory_key memory_value old,
      record db {
        user_memories = upsert_memory now user_id memory_key memory_value old db.user_memories;
      },
    )

-- `precedes` is the order that the database's collation gives to texts.
module _ (precedes : Text → Text → Bool) where
  insert_by_key : UserMemory → List UserMemory → List UserMemory
  insert_by_key m [] = m ∷ []
  insert_by_key m (x ∷ xs) =
      if precedes m.memory_key x.memory_key then m ∷ x ∷ xs else x ∷ insert_by_key m xs

  -- `ORDER BY memory_key`
  unfoldable pub order_by_key : List UserMemory → List UserMemory
  unfolding insert_by_key
  order_by_key [] = []
  order_by_key (m ∷ ms) = insert_by_key m (order_by_key ms)

  unfoldable pub get_user_memories : Text → Database → List (Text × Text)
  unfolding order_by_key
  get_user_memories user_id db =
      map (λ m. (m.memory_key, m.memory_value))
        (order_by_key (filter (λ m. text_eq m.user_id user_id) db.user_memories))

-- Whether a row was deleted, and the tables after it.
unfoldable pub delete_user_memory : Text → Text → Database → Bool × Database
delete_user_memory user_id memory_key db = (
  ltb 0 (count (is_memory user_id memory_key) db.user_memories),
  record db { user_memories = filter (λ m. not (is_memory user_id memory_key m)) db.user_memories },
)

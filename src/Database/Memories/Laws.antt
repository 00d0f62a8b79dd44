-- ===== src/Database/Memories/Laws.antt =====
-- Preferences as a map from a user and a key to a value.
use mathlib.Core.Option
use langgraph_temporal_agent.Prelude.{
  some, [], none, refl, arith, ◌∷◌, true, Option, ℕ, List, Bool, ◌≡◌, find?, ◌≢◌, ltb, changed,
  if◌then◌else◌, filter, ap, count, ◌&&◌, update, map, not, find?-holds, find?-update, ◌∙◌,
}
use langgraph_temporal_agent.Text.{Text, text_eq}
use langgraph_temporal_agent.Database.Memories.{
  save_user_memory, get_user_memories, delete_user_memory, is_memory, select_memory, upsert_memory,
  overwritten, order_by_key,
}
use langgraph_temporal_agent.Database.Schema.{UserMemory, Database}
use langgraph_temporal_agent.Database.Sql.{is_some}
use langgraph_temporal_agent.Text.Equality.{text_eq_iff}

abbrev value_of : Option UserMemory → Option Text
value_of none = none
value_of (some m) = some m.memory_value

-- The value that is kept for a user under a key.
unfoldable pub preference : Text → Text → Database → Option Text
preference user_id key db = value_of (select_memory user_id key db)

-- One pair of keys at two rows: a row of the second key is of the first only if the keys agree.
is_memory-agree :
    (u k u' k' : Text) (m : UserMemory)
    → is_memory u' k' m ≡ true
    → is_memory u k m ≡ (text_eq u u' && text_eq k k')
is_memory-agree u k u' k' m h = ground (
  arith,
  h,
  text_eq_iff m.user_id u',
  text_eq_iff m.memory_key k',
  text_eq_iff m.user_id u,
  text_eq_iff m.memory_key k,
  text_eq_iff u u',
  text_eq_iff k k',
)

module _ (now : ℕ) (u k value u' k' : Text) (ms : List UserMemory) where
  overwritten_value :
      (m : UserMemory) (found : Option UserMemory)
      → find? (is_memory u k) ms ≡ some m
      → find? (is_memory u' k') ms ≡ found
      → value_of (Option.map (changed (is_memory u k) (overwritten now value)) found)
        ≡ (if text_eq u u' && text_eq k k' then some value else value_of found)
  overwritten_value m none present e =
      ground (arith, present, e, text_eq_iff u u', text_eq_iff k k')
  overwritten_value m (some x) present e =
      ground (arith, is_memory-agree u k u' k' x (find?-holds (is_memory u' k') ms e))

  value_of-upsert_memory :
      (old : Option UserMemory)
      → find? (is_memory u k) ms ≡ old
      → value_of (find? (is_memory u' k') (upsert_memory now u k value old ms)) ≡ (
          if text_eq u u' && text_eq k k'
          then some value
          else value_of (find? (is_memory u' k') ms))
  value_of-upsert_memory none e = ground arith
  value_of-upsert_memory (some m) e =
      rw (find?-update (is_memory u k) (overwritten now value) (is_memory u' k') ms (λ x. refl))
        (overwritten_value m (find? (is_memory u' k') ms) e refl)

-- After a save the key has the new value for this user; every other key, and every other user, has
-- what it had.
pub preference-save_user_memory :
    (now : ℕ) (user_id key value user' key' : Text) (db : Database)
    → preference user' key' (save_user_memory now user_id key value db).1
      ≡ (if text_eq user_id user' && text_eq key key' then some value else preference user' key' db)
unfolding preference save_user_memory
preference-save_user_memory now user_id key value user' key' db =
    value_of-upsert_memory now user_id key value user' key' db.user_memories
      (select_memory user_id key db) refl

rows_of-update :
    (now : ℕ) (u k value u' : Text) (ms : List UserMemory)
    → u ≢ u'
    → filter (λ m. text_eq m.user_id u') (update (is_memory u k) (overwritten now value) ms)
      ≡ filter (λ m. text_eq m.user_id u') ms
rows_of-update now u k value u' [] ne = refl
rows_of-update now u k value u' (m ∷ ms) ne = ground (
  arith,
  rows_of-update now u k value u' ms ne,
  text_eq_iff m.user_id u,
  text_eq_iff m.user_id u',
)

pub rows_of-upsert_memory :
    (now : ℕ) (u k value u' : Text) (old : Option UserMemory) (ms : List UserMemory)
    → u ≢ u'
    → filter (λ m. text_eq m.user_id u') (upsert_memory now u k value old ms)
      ≡ filter (λ m. text_eq m.user_id u') ms
rows_of-upsert_memory now u k value u' none ms ne = ground (arith, text_eq_iff u u')
rows_of-upsert_memory now u k value u' (some _) ms ne = rows_of-update now u k value u' ms ne

-- Saving a preference of one user leaves the list of another user as it was, in any collation.
pub get_user_memories_private :
    (precedes : Text → Text → Bool) (now : ℕ) (user_id key value user' : Text) (db : Database)
    → user_id ≢ user'
    → get_user_memories precedes user' (save_user_memory now user_id key value db).1
      ≡ get_user_memories precedes user' db
unfolding get_user_memories save_user_memory
get_user_memories_private precedes now user_id key value user' db ne =
    ap (λ ms. map (λ m. (m.memory_key, m.memory_value)) (order_by_key precedes ms))
      (rows_of-upsert_memory now user_id key value user' (select_memory user_id key db)
        db.user_memories ne)

value_of-deleted :
    (u k u' k' : Text) (ms : List UserMemory)
    → value_of (find? (is_memory u' k') (filter (λ m. not (is_memory u k m)) ms))
      ≡ (if text_eq u u' && text_eq k k' then none else value_of (find? (is_memory u' k') ms))
value_of-deleted u k u' k' [] = ground arith
value_of-deleted u k u' k' (m ∷ ms) =
    ground (arith, value_of-deleted u k u' k' ms, is_memory-agree u k u' k' m)

any_deleted :
    (p : UserMemory → Bool) (ms : List UserMemory) → ltb 0 (count p ms) ≡ is_some (find? p ms)
any_deleted p [] = refl
any_deleted p (m ∷ ms) = ground (arith, any_deleted p ms)

-- A delete reports whether there was a row, and afterwards the key has no value; every other key,
-- and every other user, has what it had.
pub preference-delete_user_memory :
    (user_id key user' key' : Text) (db : Database)
    → ((delete_user_memory user_id key db).0 ≡ is_some (preference user_id key db))
      × (preference user' key' (delete_user_memory user_id key db).1
          ≡ (if text_eq user_id user' && text_eq key key' then none else preference user' key' db))
unfolding preference delete_user_memory
preference-delete_user_memory user_id key user' key' db = (
  any_deleted (is_memory user_id key) db.user_memories
      ∙ is_some-value_of (select_memory user_id key db),
  value_of-deleted user_id key user' key' db.user_memories,
)
  where
    is_some-value_of : (o : Option UserMemory) → is_some o ≡ is_some (value_of o)
    is_some-value_of none = refl
    is_some-value_of (some _) = refl

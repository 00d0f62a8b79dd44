-- ===== src/Tools/Preferences.antt =====
-- `save_user_preference`, `get_user_preferences` and `get_platform_health`.
use langgraph_temporal_agent.Prelude.{ℕ, Bool, List}
use langgraph_temporal_agent.Text.{Text, lower, strip}
use langgraph_temporal_agent.Database.Schema.{Database}
use langgraph_temporal_agent.Database.Memories.{save_user_memory, get_user_memories}
use langgraph_temporal_agent.Database.Listing.{database_counts}

-- The saved key and value.
unfoldable pub save_user_preference : ℕ → Text → Text → Text → Database → (Text × Text) × Database
unfolding save_user_memory lower strip
save_user_preference now memory_key memory_value user_id db =
    let (row, db') =
      save_user_memory now user_id (lower (strip memory_key)) (strip memory_value) db in
    ((row.memory_key, row.memory_value), db')

-- The items of the dict; a user has a key once, by UNIQUE (user_id, memory_key).
unfoldable pub get_user_preferences : (Text → Text → Bool) → Text → Database → List (Text × Text)
unfolding get_user_memories
get_user_preferences precedes user_id db = get_user_memories precedes user_id db

unfoldable pub get_platform_health : Database → ℕ × ℕ
unfolding database_counts
get_platform_health db = database_counts db

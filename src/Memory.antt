-- ===== src/Memory.antt =====
-- app/conversation_memory.py: which conversations are idle, and what closing them does. The Redis
-- sorted set is a list of members with their scores, each member once; the summary itself, which
-- calls a language model, is a parameter.
pub mod Keys
pub mod Summaries
pub mod Sweep
pub mod Loop
use langgraph_temporal_agent.Prelude.{
  ◌∷◌, [], true, false, suc, some, ◌++◌, List, ℕ, filter, Option, Bool, not, if◌then◌else◌, leb,
}
use langgraph_temporal_agent.Text.{Text, codes, text_eq, partition, is_empty}

-- `f"{customer_id}:{thread_id}"`, the thread of the checkpointer and the member of the sorted set.
unfoldable pub thread_key : Text → Text → Text
thread_key customer_id thread_id = customer_id ++ b':' ∷ thread_id

abbrev pub Activity : Type 0
Activity = List (Text × ℕ)

abbrev pub is_member : Text → Text × ℕ → Bool
is_member key e = text_eq e.0 key

-- ZREM
abbrev pub zrem : Text → Activity → Activity
zrem key z = filter (λ e. not (is_member key e)) z

-- ZADD of one member, which replaces the score of a member that is there.
abbrev pub zadd : Text → ℕ → Activity → Activity
zadd key score z = (key, score) ∷ zrem key z

-- `ZRANGEBYSCORE key 0 cutoff`: the members, in the order of the list.
unfoldable pub zrangebyscore : ℕ → Activity → List Text
zrangebyscore cutoff [] = []
zrangebyscore cutoff (e ∷ z) =
    let rest = zrangebyscore cutoff z in if leb e.1 cutoff then e.0 ∷ rest else rest

unfoldable pub touch : ℕ → Text → Text → Activity → Activity
unfolding thread_key
touch now customer_id thread_id z = zadd (thread_key customer_id thread_id) now z

-- `summarise_and_store` returns whether a summary was stored, or raises (`none`). It changes the
-- world `W`, and the sorted set as far as other requests do so meanwhile.
module _ {W : Type 0}
    (summarise_and_store : Text → Text → Activity → W → Option Bool × Activity × W) where
  -- One round of the loop, with the count of the conversations closed so far.
  close_entry : Text → Text × Bool × Text → ℕ → Activity → W → ℕ × Activity × W
  close_entry entry (customer_id, _, []) closed z w = (closed, zrem entry z, w)
  close_entry entry (customer_id, _, c ∷ thread_id) closed z w =
      let (result, z', w') = summarise_and_store customer_id (c ∷ thread_id) z w in
      (elim result [ some true ↦ suc closed | _ ↦ closed ], zrem entry z', w')

  unfoldable pub sweep : List Text → ℕ → Activity → W → ℕ × Activity × W
  unfolding close_entry partition
  sweep [] closed z w = (closed, z, w)
  sweep (entry ∷ stale) closed z w =
      let (closed', z', w') = close_entry entry (partition b':' entry) closed z w in
      sweep stale closed' z' w'

  -- `cutoff` is the time less IDLE_TIMEOUT_SECONDS.
  unfoldable pub sweep_idle : ℕ → Activity → W → ℕ × Activity × W
  unfolding sweep zrangebyscore
  sweep_idle cutoff z w = sweep (zrangebyscore cutoff z) 0 z w

-- ===== src/Memory/Loop.antt =====
-- `sweep_loop` of app/conversation_memory.py: a sweep after every interval, until the task is
-- cancelled. Between two sweeps the requests of an interval change the sorted set and the world.
use langgraph_temporal_agent.Prelude.{
  ◌≡◌, none, [], some, ◌∷◌, refl, ℕ, Option, Bool, List, ◌-◌, ◌++◌, All, ◌<◌,
}
use langgraph_temporal_agent.Memory.{Activity, sweep_idle}
use langgraph_temporal_agent.Text.{Text}
use langgraph_temporal_agent.Memory.Sweep.{sweep_idle-closes}

-- A round of the loop: what the requests do while it sleeps for SWEEP_INTERVAL_SECONDS, the time of
-- the sweep, and, for a sweep that raises before its end, as with Redis out of reach, what it has
-- done until then. A sweep that raises is logged, and the loop goes on.
pub record Round (W : Type 0) : Type 0 where
  pub requests : Activity × W → Activity × W
  pub now : ℕ
  pub broken : Option (Activity × W → Activity × W)

module _ {W : Type 0}
    (summarise_and_store : Text → Text → Activity → W → Option Bool × Activity × W)
    (idle_timeout : ℕ) where
  -- The time is counted from 1970: it is past `idle_timeout`, IDLE_TIMEOUT_SECONDS.
  swept : Option (Activity × W → Activity × W) → ℕ → Activity × W → Activity × W
  unfolding sweep_idle
  swept (some partly) now s = partly s
  swept none now (z, w) =
      let (closed, z', w') = sweep_idle summarise_and_store (now - idle_timeout) z w in (z', w')

  unfoldable pub sweep_round : Round W → Activity × W → Activity × W
  unfolding swept
  sweep_round r s = swept r.broken r.now (r.requests s)

  -- The rounds before the cancellation.
  unfoldable pub sweep_loop : List (Round W) → Activity × W → Activity × W
  unfolding sweep_round
  sweep_loop [] s = s
  sweep_loop (r ∷ rounds) s = sweep_loop rounds (sweep_round r s)

  sweep_loop-last :
      (rounds : List (Round W)) (r : Round W) (s : Activity × W)
      → sweep_loop (rounds ++ (r ∷ [])) s ≡ sweep_round r (sweep_loop rounds s)
  unfolding sweep_loop
  sweep_loop-last [] r s = refl
  sweep_loop-last (q ∷ rounds) r s = sweep_loop-last rounds r (sweep_round q s)

  -- Whatever the requests did meanwhile and however many sweeps have raised before, after a round
  -- whose sweep does not raise every conversation in the set has been active within the idle timeout
  -- before it, where no request touches a conversation during the sweep itself.
  pub sweep_loop-closes :
      (rounds : List (Round W)) (r : Round W) (s : Activity × W)
      → r.broken ≡ none
      → ((customer_id thread_id : Text) (z : Activity) (w : W)
          → (summarise_and_store customer_id thread_id z w).1 ≡ z)
      → All (λ e. r.now - idle_timeout < e.1) (sweep_loop (rounds ++ (r ∷ [])) s).0
  unfolding sweep_round swept
  sweep_loop-closes rounds r s whole alone =
      let (z, w) = r.requests (sweep_loop rounds s) in
      rw (sweep_loop-last rounds r s)
        (rw whole (sweep_idle-closes summarise_and_store (r.now - idle_timeout) z w alone))

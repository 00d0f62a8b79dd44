-- ===== src/Examples/Threads.antt =====
-- Two conversations of one customer.
use langgraph_temporal_agent.Prelude.{
  ◌≡◌, arith, refl, true, some, suc, [], ◌∷◌, All, ℕ, ◌<◌, Option, Bool, none,
}
use langgraph_temporal_agent.Memory.Keys.{thread_key_inj}
use langgraph_temporal_agent.Text.{codes, Text}
use langgraph_temporal_agent.Memory.{Activity, touch}
use langgraph_temporal_agent.Memory.Loop.{Round, sweep_loop, sweep_loop-closes}

thread_key_inj_example : (codes "C1" ≡ codes "C1") × (codes "t" ≡ codes "t")
thread_key_inj_example =
    thread_key_inj (codes "C1") (codes "C1") (codes "t") (codes "t")
      ((λ e. omega arith), ((λ e. omega arith), tt)) ((λ e. omega arith), ((λ e. omega arith), tt))
      refl

-- A conversation last touched at 10 and one touched at 90.
abbrev two_threads : Activity
two_threads = (codes "C1:a", 10) ∷ (codes "C2:b", 90) ∷ []

-- Every summary is stored; the world counts them.
abbrev stored : Text → Text → Activity → ℕ → Option Bool × Activity × ℕ
stored customer_id thread_id z w = (some true, z, suc w)

-- Nothing happens in a first round, whose sweep raises; the second customer is active again before
-- the second one.
abbrev idle_round : Round ℕ
idle_round = record { requests = λ s. s; now = 300; broken = some (λ s. s) }

abbrev busy_round : Round ℕ
busy_round = record {
  requests = λ s. (touch 355 (codes "C2") (codes "b") s.0, s.1);
  now = 360;
  broken = none;
}

sweep_loop-closes_example :
    All (λ e. 60 < e.1) (sweep_loop stored 300 (idle_round ∷ busy_round ∷ []) (two_threads, 0)).0
sweep_loop-closes_example =
    sweep_loop-closes stored 300 (idle_round ∷ []) busy_round (two_threads, 0) refl
      (λ customer_id thread_id z w. refl)

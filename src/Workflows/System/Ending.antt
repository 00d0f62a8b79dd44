-- ===== src/Workflows/System/Ending.antt =====
-- A refund run is never stuck, and by its own steps it comes to its end.
use langgraph_temporal_agent.Prelude.{
  some, none, arith, zero, inr, false, inl, suc, refl, true, ℕ, Option, Bool, ◌≡◌, ◌<◌, ◌⊎◌, ==_iff,
  some_inj, sym, ap, ◌∙◌,
}
use langgraph_temporal_agent.Workflows.Refund.{
  not_started, RefundAwait, decide, after_load, after_wait, after_execute, RefundWorkflow, finished,
  load, approval, execute,
}
use langgraph_temporal_agent.Workflows.System.Progress.{own, left, own_step-left}
use langgraph_temporal_agent.Workflows.Activities.{ApprovalInput, Attempt, returned, raised}
use langgraph_temporal_agent.Workflows.System.{
  start, System, Step, is_open, set_run, load_attempt, resume, execute_attempt, execute_dropped,
  signal, expire, cancellation, creation,
}
use langgraph_temporal_agent.Database.Refunds.{RefundOrder, RefundResult}

-- A run that has been started.
abbrev is_on : RefundAwait → Bool
is_on not_started = false
is_on _ = true

-- Where a run stands: at its end; at `wait_condition` without an answer; or it can take a step.
abbrev pub CanGoOn : ℕ → Option ApprovalInput → System → Type 0
CanGoOn n answer s =
    ((s.runs n).await ≡ finished)
    ⊎ (((order : RefundOrder) × ((s.runs n).await ≡ approval order) × (answer ≡ none))
        ⊎ ((t : System) × (st : Step s t) × (own st ≡ some n)))

-- Whatever its attempts end with, run `n` reaches such a place, and is never stuck before.
pub data MustEnd (n : ℕ) (answer : Option ApprovalInput) : System → Type 0 where
  must :
      (s : System)
      → CanGoOn n answer s
      → ((t : System) (st : Step s t) → own st ≡ some n → MustEnd n answer t)
      → MustEnd n answer s

-- Started, with an answer to its approval or none.
abbrev IsOn : Option ApprovalInput → RefundWorkflow → Type 0
IsOn answer w = (w.approval ≡ answer) × (is_on w.await ≡ true)

decide-IsOn :
    (answer : Option ApprovalInput) (order : RefundOrder) (w : RefundWorkflow)
    → w.approval ≡ answer
    → IsOn answer (decide order w)
unfolding decide
decide-IsOn answer order w h = (ground (arith, h), ground arith)

after_load-IsOn :
    (answer : Option ApprovalInput) (k : ℕ) (a : Attempt RefundOrder) (w : RefundWorkflow)
    → w.approval ≡ answer
    → IsOn answer (after_load k a w)
unfolding after_load
after_load-IsOn answer k (returned order) w h = decide-IsOn answer order w h
after_load-IsOn answer k (raised e) w h = (ground (arith, h), ground arith)

after_wait-IsOn :
    (answer : Option ApprovalInput) (order : RefundOrder) (a : ApprovalInput) (w : RefundWorkflow)
    → w.approval ≡ answer
    → IsOn answer (after_wait order a w)
unfolding after_wait
after_wait-IsOn answer order a w h = (ground (arith, h), ground arith)

after_execute-IsOn :
    (answer : Option ApprovalInput) (order : RefundOrder) (k : ℕ) (a : Attempt RefundResult)
    (w : RefundWorkflow)
    → w.approval ≡ answer
    → IsOn answer (after_execute order k a w)
unfolding after_execute
after_execute-IsOn answer order k (returned r) w h = (h, refl)
after_execute-IsOn answer order k (raised e) w h = (ground (arith, h), ground arith)

set_run-IsOn :
    (answer : Option ApprovalInput) (m n : ℕ) (w : RefundWorkflow) (runs : ℕ → RefundWorkflow)
    → m ≡ n
    → ((runs m).approval ≡ answer → IsOn answer w)
    → (runs n).approval ≡ answer
    → IsOn answer (set_run m w runs n)
set_run-IsOn answer m n w runs same on h =
    rw ((==_iff n m).1 (sym same)) (on (ap (λ i. (runs i).approval) same ∙ h))

own_step-IsOn :
    {s t : System} (n : ℕ) (answer : Option ApprovalInput) (st : Step s t)
    → own st ≡ some n
    → (s.runs n).approval ≡ answer
    → IsOn answer (t.runs n)
unfolding own
own_step-IsOn {s} n answer (load_attempt m k lost stands) e h =
    set_run-IsOn answer m n _ s.runs (some_inj e) (λ g. after_load-IsOn answer k _ (s.runs m) g) h
own_step-IsOn {s} n answer (resume m order a stands told) e h =
    set_run-IsOn answer m n _ s.runs (some_inj e) (λ g. after_wait-IsOn answer order a (s.runs m) g)
      h
own_step-IsOn {s} n answer (execute_attempt m k order lost stands) e h =
    set_run-IsOn answer m n _ s.runs (some_inj e)
      (λ g. after_execute-IsOn answer order k _ (s.runs m) g) h
own_step-IsOn {s} n answer (execute_dropped m k order stands) e h =
    set_run-IsOn answer m n _ s.runs (some_inj e)
      (λ g. after_execute-IsOn answer order k _ (s.runs m) g) h
own_step-IsOn n answer (start m input same closed) e h = cc
own_step-IsOn n answer (signal m a open_run) e h = cc
own_step-IsOn n answer (expire m) e h = cc
own_step-IsOn n answer (cancellation m customer_id) e h = cc
own_step-IsOn n answer (creation now customer_id sku quantity) e h = cc

can_go_on :
    (s : System) (n : ℕ) (answer : Option ApprovalInput) (await : RefundAwait)
    → (s.runs n).await ≡ await
    → is_on await ≡ true
    → (s.runs n).approval ≡ answer
    → CanGoOn n answer s
unfolding own
can_go_on s n answer not_started stands on told = cc
can_go_on s n answer (load k) stands on told = inr (inr (_, load_attempt n k false stands, refl))
can_go_on s n none (approval order) stands on told = inr (inl (order, stands, refl))
can_go_on s n (some a) (approval order) stands on told =
    inr (inr (_, resume n order a stands told, refl))
can_go_on s n answer (execute order k) stands on told =
    inr (inr (_, execute_attempt n k order false stands, refl))
can_go_on s n answer finished stands on told = inl stands

ends_within :
    (fuel n : ℕ) (answer : Option ApprovalInput) (s : System)
    → IsOn answer (s.runs n)
    → left (s.runs n).await < fuel
    → MustEnd n answer s
ends_within zero n answer s on few = absurd (omega (arith, few))
ends_within (suc fuel) n answer s on few =
    must s (can_go_on s n answer (s.runs n).await refl on.1 on.0) (λ t st e.
      ends_within fuel n answer t (own_step-IsOn n answer st e on.0)
        (omega (arith, few, own_step-left n st e)))

-- A refund run that has been started is never stuck: as long as it has not ended and does not wait
-- for an approval that has not been given, it can take a step of its own, and whatever these steps
-- end with, they lead it to its end or to that wait. A run whose approval has been given ends.
pub run-MustEnd :
    (n : ℕ) (s : System) → is_open (s.runs n).await ≡ true → MustEnd n (s.runs n).approval s
run-MustEnd n s h =
    ends_within (suc (left (s.runs n).await)) n _ s (refl, opened (s.runs n).await h) (omega arith)
  where
    opened : (await : RefundAwait) → is_open await ≡ true → is_on await ≡ true
    opened await h = ground (arith, h)

-- ===== src/Workflows/System/Progress.antt =====
-- A refund run goes on, and comes to its end.
use langgraph_temporal_agent.Workflows.Refund.{
  not_started, load, approval, execute, finished, RefundAwait, decide, after_load, after_wait,
  after_execute, RefundWorkflow, begin, approve,
}
use langgraph_temporal_agent.Workflows.Activities.{
  raised, returned, retries, maximum_attempts, Attempt, ApprovalInput,
}
use langgraph_temporal_agent.Workflows.System.{
  System, Step, Reach, start, load_attempt, signal, resume, execute_attempt, execute_dropped,
  expire, cancellation, creation, here, next, set_run,
}
use langgraph_temporal_agent.Prelude.{
  ◌≡◌, ◌≤◌, ◌<◌, none, some, true, false, arith, Option, ℕ, ◌+◌, ◌-◌, ==_iff, refl, inl, inr,
  if◌then◌else◌, ◌==◌, Bool-cases, ◌*◌, sym, some_inj,
}
use langgraph_temporal_agent.Database.Refunds.{RefundOrder, RefundResult}
use mathlib.Core.Path.{subst}

-- The run that takes a step of its own. A signal, a start and the timeout come from outside.
unfoldable pub own : {s t : System} → Step s t → Option ℕ
own (start n input same closed) = none
own (load_attempt n k lost stands) = some n
own (signal n a open_run) = none
own (resume n order a stands told) = some n
own (execute_attempt n k order lost stands) = some n
own (execute_dropped n k order stands) = some n
own (expire n) = none
own (cancellation n customer_id) = none
own (creation now customer_id sku quantity) = none

unfoldable started : {s t : System} → Step s t → Option ℕ
started (start n input same closed) = some n
started (load_attempt n k lost stands) = none
started (signal n a open_run) = none
started (resume n order a stands told) = none
started (execute_attempt n k order lost stands) = none
started (execute_dropped n k order stands) = none
started (expire n) = none
started (cancellation n customer_id) = none
started (creation now customer_id sku quantity) = none

-- The steps of its own that a run may still take.
abbrev pub left : RefundAwait → ℕ
left not_started = 0
left (load k) = 5 + (maximum_attempts - k)
left (approval order) = 4
left (execute order k) = 1 + (maximum_attempts - k)
left finished = 0

-- One, when the step is run `m`'s.
abbrev count : Option ℕ → ℕ → ℕ
count none m = 0
count (some n) m = if n == m then 1 else 0

==_refl : (n : ℕ) → (n == n) ≡ true
==_refl n = (==_iff n n).1 refl

counted : (n m : ℕ) → n ≡ m → count (some n) m ≡ 1
counted n m same = rw ((==_iff n m).1 same) refl

==_other : (n m : ℕ) → (m == n) ≡ false → (n == m) ≡ false
==_other n m other = elim (Bool-cases (n == m)) [
  | inl same ↦ let e = (==_iff m n).1 (sym ((==_iff n m).0 same)) in cc
  | inr differs ↦ differs
]

decide-left : (order : RefundOrder) (w : RefundWorkflow) → left (decide order w).await ≤ 4
unfolding decide
decide-left order w = ground arith

after_load-left :
    (k : ℕ) (a : Attempt RefundOrder) (w : RefundWorkflow)
    → left (after_load k a w).await < left (load k)
unfolding after_load retries
after_load-left k (returned order) w = omega (arith, decide-left order w)
after_load-left k (raised e) w = ground arith

after_wait-left :
    (order : RefundOrder) (a : ApprovalInput) (w : RefundWorkflow)
    → left (after_wait order a w).await < 4
unfolding after_wait
after_wait-left order a w = ground arith

after_execute-left :
    (order : RefundOrder) (k : ℕ) (a : Attempt RefundResult) (w : RefundWorkflow)
    → left (after_execute order k a w).await < left (execute order k)
unfolding after_execute retries
after_execute-left order k (returned r) w = ground arith
after_execute-left order k (raised e) w = ground arith

≤-more : {a b : ℕ} (c : ℕ) → a ≤ b → a ≤ b + c
≤-more c h = omega (arith, h)

-- One run replaced by one with fewer steps left.
set_run-left :
    (n m : ℕ) (w : RefundWorkflow) (runs : ℕ → RefundWorkflow)
    → left w.await ≤ left (runs n).await
    → left (set_run n w runs m).await ≤ left (runs m).await
set_run-left n m w runs h = ground (arith, h, ==_iff m n)

-- One run replaced after a step of its own.
set_run-counted :
    (n m : ℕ) (w : RefundWorkflow) (runs : ℕ → RefundWorkflow) (await : RefundAwait)
    → (runs n).await ≡ await
    → left w.await < left await
    → count (some n) m + left (set_run n w runs m).await ≤ left (runs m).await
set_run-counted n m w runs await e h = elim (Bool-cases (m == n)) [
  | inl same ↦ rw (same, (==_iff m n).0 same, ==_refl n, e) (omega (arith, h))
  | inr other ↦ rw (other, ==_other n m other) (omega arith)
]

-- A step of run `m`'s own leaves it fewer steps, and another step no more, unless it starts it.
step-left :
    {s t : System} (m : ℕ) (st : Step s t)
    → count (own st) m + left (t.runs m).await ≤ left (s.runs m).await + 7 * count (started st) m
unfolding own started begin approve
step-left {s} m (load_attempt n k lost stands) =
    ≤-more 0 (set_run-counted n m _ s.runs (load k) stands (after_load-left k _ (s.runs n)))
step-left {s} m (resume n order a stands told) =
    ≤-more 0
      (set_run-counted n m _ s.runs (approval order) stands (after_wait-left order a (s.runs n)))
step-left {s} m (execute_attempt n k order lost stands) = ≤-more 0 (
    set_run-counted n m _ s.runs (execute order k) stands (after_execute-left order k _ (s.runs n)))
step-left {s} m (execute_dropped n k order stands) = ≤-more 0 (
    set_run-counted n m _ s.runs (execute order k) stands (after_execute-left order k _ (s.runs n)))
step-left {s} m (start n input same closed) = elim (Bool-cases (m == n)) [
  | inl here_too ↦ rw (here_too, (==_iff m n).0 here_too, ==_refl n) (omega arith)
  | inr other ↦ rw (other, ==_other n m other) (omega arith)
]
step-left {s} m (signal n a open_run) =
    omega (arith, set_run-left n m (approve a (s.runs n)) s.runs (omega arith))
step-left {s} m (expire n) =
    omega (arith, set_run-left n m (record (s.runs n) { await = finished }) s.runs (omega arith))
step-left m (cancellation n customer_id) = omega arith
step-left m (creation now customer_id sku quantity) = omega arith

own_step-counted :
    {s t : System} (m : ℕ) (st : Step s t)
    → own st ≡ some m
    → (count (own st) m ≡ 1) × (count (started st) m ≡ 0)
unfolding own started
own_step-counted m (load_attempt n k lost stands) e = (counted n m (some_inj e), refl)
own_step-counted m (resume n order a stands told) e = (counted n m (some_inj e), refl)
own_step-counted m (execute_attempt n k order lost stands) e = (counted n m (some_inj e), refl)
own_step-counted m (execute_dropped n k order stands) e = (counted n m (some_inj e), refl)
own_step-counted m (start n input same closed) e = cc
own_step-counted m (signal n a open_run) e = cc
own_step-counted m (expire n) e = cc
own_step-counted m (cancellation n customer_id) e = cc
own_step-counted m (creation now customer_id sku quantity) e = cc

-- A step of a run's own leaves it fewer.
pub own_step-left :
    {s t : System} (m : ℕ) (st : Step s t)
    → own st ≡ some m
    → left (t.runs m).await < left (s.runs m).await
own_step-left m st e =
    let (one, none_started) = own_step-counted m st e in
    omega (arith, step-left m st, one, none_started)

-- The steps of its own that run `m` takes on a path.
pub own_steps : {s t : System} → ℕ → Reach s t → ℕ
own_steps m here = 0
own_steps m (next path st) = count (own st) m + own_steps m path

-- How often run `m` is started on a path.
pub starts : {s t : System} → ℕ → Reach s t → ℕ
starts m here = 0
starts m (next path st) = count (started st) m + starts m path

path-left :
    {s t : System} (m : ℕ) (path : Reach s t)
    → own_steps m path + left (t.runs m).await ≤ left (s.runs m).await + 7 * starts m path
unfolding own_steps starts
path-left m here = omega arith
path-left m (next path st) = omega (arith, path-left m path, step-left m st)

-- On every path of the system from a state in which the refund run of order `m` has not been started, that run takes at most seven steps of its own for each time it is started: attempts of its two activities and the answer to an approval, whatever attempts are lost and whatever the other runs and the signals do.
pub own_steps-bounds :
    {s t : System} (m : ℕ) (path : Reach s t)
    → (s.runs m).await ≡ not_started
    → own_steps m path ≤ 7 * starts m path
own_steps-bounds {s} {t} m path fresh =
    let all =
      subst (λ a. own_steps m path + left (t.runs m).await ≤ left a + 7 * starts m path) fresh
        (path-left m path) in
    omega (arith, all)

-- ===== src/Workflows/System.antt =====
-- All refund runs over one database, as a step relation: the runs of different orders, the signals
-- and the other writes of the application interleave in any order, and an attempt of an activity
-- may be lost before it runs or after it has committed (Temporal runs an activity at least once).
-- A run has the workflow id `refund-order-{n}`, so there is one open run for each order at most.
pub mod Invariant
pub mod Runs
pub mod Safety
pub mod Progress
pub mod Ending
pub mod Orders
use langgraph_temporal_agent.Prelude.{
  some, false, ◌∷◌, true, ℕ, Bool, List, if◌then◌else◌, ◌≡◌, ◌==◌,
}
use langgraph_temporal_agent.Database.Schema.{Database}
use langgraph_temporal_agent.Workflows.Refund.{
  RefundAwait, RefundWorkflow, load, after_load, approve, approval, after_wait, execute,
  after_execute, not_started, finished, init, begin, started,
}
use langgraph_temporal_agent.Workflows.Activities.{
  Attempt, OrderActionInput, raised, ApprovalInput, timed_out, load_refund_order_activity,
  execute_refund_activity,
}
use langgraph_temporal_agent.Database.Refunds.{RefundOrder}
use langgraph_temporal_agent.Text.{Text}
use langgraph_temporal_agent.Database.Orders.{cancel_order_row}
use langgraph_temporal_agent.Database.Listing.{create_order_row}

pub record System : Type 0 where
  pub db : Database
  pub runs : ℕ → RefundWorkflow
  -- The approval signals that reached an open run, by order, the newest first.
  pub signals : List (ℕ × ApprovalInput)

abbrev pub is_open : RefundAwait → Bool
is_open not_started = false
is_open finished = false
is_open _ = true

abbrev pub set_run : ℕ → RefundWorkflow → (ℕ → RefundWorkflow) → ℕ → RefundWorkflow
set_run n w runs m = if m == n then w else runs m

-- What the server hears of an attempt: its outcome, or nothing within the timeout.
abbrev pub heard : {A : Type 0} → Bool → Attempt A → Attempt A
heard true a = raised timed_out
heard false a = a

-- `s` with the run of order `n` and the tables replaced.
abbrev pub moved : System → ℕ → RefundWorkflow → Database → System
moved s n w db = record s { db = db; runs = set_run n w s.runs }

pub data Step (s : System) : System → Type 0 where
  -- A start while a run is open is answered with that run; after its end a new run may begin.
  start :
      (n : ℕ) (input : OrderActionInput)
      → input.order_number ≡ n
      → is_open (s.runs n).await ≡ false
      → Step s (moved s n (begin (init input)) s.db)
  load_attempt :
      (n k : ℕ) (lost : Bool)
      → (s.runs n).await ≡ load k
      → Step s (
          moved s n
            (after_load k
              (heard lost (load_refund_order_activity (s.runs n).input s.db))
              (s.runs n))
            s.db)
  signal :
      (n : ℕ) (a : ApprovalInput)
      → is_open (s.runs n).await ≡ true
      → Step s (record s {
        runs = set_run n (approve a (s.runs n)) s.runs;
        signals = (n, a) ∷ s.signals;
      })
  resume :
      (n : ℕ) (order : RefundOrder) (a : ApprovalInput)
      → (s.runs n).await ≡ approval order
      → (s.runs n).approval ≡ some a
      → Step s (moved s n (after_wait order a (s.runs n)) s.db)
  -- The activity runs and commits; its answer may be lost.
  execute_attempt :
      (n k : ℕ) (order : RefundOrder) (lost : Bool)
      → (s.runs n).await ≡ execute order k
      → Step s (
          moved s n
            (after_execute order k
              (heard lost (execute_refund_activity (s.runs n).input s.db).0)
              (s.runs n))
            (execute_refund_activity (s.runs n).input s.db).1)
  -- The worker dies before the activity runs.
  execute_dropped :
      (n k : ℕ) (order : RefundOrder)
      → (s.runs n).await ≡ execute order k
      → Step s (moved s n (after_execute order k (raised timed_out) (s.runs n)) s.db)
  -- The execution timeout of seven days.
  expire : (n : ℕ) → Step s (moved s n (record (s.runs n) { await = finished }) s.db)
  cancellation :
      (n : ℕ) (customer_id : Text)
      → Step s (record s { db = (cancel_order_row n customer_id s.db).1 })
  creation :
      (now : ℕ) (customer_id sku : Text) (quantity : ℕ)
      → Step s (record s { db = (create_order_row now customer_id sku quantity s.db).1 })

pub data Reach (s : System) : System → Type 0 where
  here : Reach s s
  next : {t u : System} → Reach s t → Step t u → Reach s u

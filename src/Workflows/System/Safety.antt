-- ===== src/Workflows/System/Safety.antt =====
-- Every step keeps the invariant, so every reachable state has it.
use langgraph_temporal_agent.Prelude.{
  ℕ, All, ◌≡◌, ◌∷◌, Option, Bool, arith, All-map_of, inl, true, count, ◌≤◌, [], ◌⊎◌,
}
use langgraph_temporal_agent.Workflows.System.{
  System, moved, Step, Reach, set_run, start, next, load_attempt, heard, signal, resume,
  execute_attempt, execute_dropped, expire, cancellation, creation,
}
use langgraph_temporal_agent.Database.Schema.{Database}
use langgraph_temporal_agent.Workflows.Refund.{
  RefundWorkflow, approve, after_execute, refund_approval_threshold,
}
use langgraph_temporal_agent.Workflows.System.Invariant.{
  IsSafe, IsRun, IsCleared, IsRun-keeps, IsPriced, IsReady, IsCleared-more, approved_in,
}
use langgraph_temporal_agent.Database.Invariant.{IsValid}
use langgraph_temporal_agent.Database.Totals.{
  KeepsTotals-refl, KeepsTotals, KeepsTotals-refund_order_row, KeepsTotals-cancel_order_row,
  KeepsTotals-create_order_row,
}
use langgraph_temporal_agent.Workflows.System.Runs.{
  set_run-IsRun, begin-IsRun, after_load-IsRun, after_wait-IsRun, after_execute-IsRun,
  approved_in-more, approve-IsRun,
}
use langgraph_temporal_agent.Workflows.System.{here, next}
use langgraph_temporal_agent.Workflows.Refund.{execute, init}
use langgraph_temporal_agent.Database.Refunds.{RefundOrder, RefundResult, refund_idempotency_key}
use langgraph_temporal_agent.Workflows.Activities.{
  ApprovalInput, execute_refund_activity, OrderActionInput, raised, timed_out,
}
use langgraph_temporal_agent.Database.Sql.{Result, is_refund_of}
use mathlib.Core.Path.{subst}
use langgraph_temporal_agent.Database.Refunding.Outcome.{
  Refunded, no_order, repeated, not_delivered, created, kept_out,
}
use langgraph_temporal_agent.Database.Refunding.Laws.{
  refund_order_row-IsValid, refunds_of_order-le-one,
}
use langgraph_temporal_agent.Database.Refunding.Ends.{refund_order_row-Refunded}
use langgraph_temporal_agent.Database.Cancellation.{
  cancel_order_row-IsValid, refunds-cancel_order_row,
}
use langgraph_temporal_agent.Database.Creation.{create_order_row-IsValid, refunds-create_order_row}

-- The new tables and signals, with one run replaced.
IsSafe-moved :
    (s : System) (n : ℕ) (w : RefundWorkflow) (db : Database)
    → IsSafe s
    → IsValid db
    → All (λ r. IsCleared s.signals r.order_id r.amount) db.refunds
    → KeepsTotals s.db db
    → IsRun db s.signals n w
    → IsSafe (moved s n w db)
IsSafe-moved s n w db safe valid settled keeps run = record {
  valid = valid;
  settled = settled;
  runs =
      set_run-IsRun db s.signals n w s.runs run
        (λ m. IsRun-keeps s.db db s.signals s.signals m keeps (λ _ h. h) (s.runs m) (safe.runs m));
}

-- One run replaced, over the same tables.
IsSafe-run :
    (s : System) (n : ℕ) (w : RefundWorkflow)
    → IsSafe s
    → IsRun s.db s.signals n w
    → IsSafe (moved s n w s.db)
IsSafe-run s n w safe run =
    IsSafe-moved s n w s.db safe safe.valid safe.settled (KeepsTotals-refl s.db) run

-- Tables replaced, under the same runs.
pub IsSafe-db :
    (s : System) (db : Database)
    → IsSafe s
    → IsValid db
    → db.refunds ≡ s.db.refunds
    → KeepsTotals s.db db
    → IsSafe (record s { db = db })
IsSafe-db s db safe valid same keeps = record {
  valid = valid;
  settled = rw same safe.settled;
  runs = λ m. IsRun-keeps s.db db s.signals s.signals m keeps (λ _ h. h) (s.runs m) (safe.runs m);
}

module _ (s : System) (n : ℕ) (order : RefundOrder) (k : ℕ) (safe : IsSafe s)
    (stands : (s.runs n).await ≡ execute order k) where
  -- The row that the activity may add is worth what was loaded, and that was cleared.
  settled_after_execute :
      {out : Result (Option RefundResult) × Database} (input : OrderActionInput)
      → (input.order_number ≡ n) × IsPriced s.db input order × IsCleared s.signals n order.total
      → Refunded input.order_number input.requested_by input.reason
          (refund_idempotency_key input.order_number)
          s.db
          out
      → All (λ r. IsCleared s.signals r.order_id r.amount) out.1.refunds
  settled_after_execute input ready (no_order _) = safe.settled
  settled_after_execute input ready (repeated _ _ _ _) = safe.settled
  settled_after_execute input ready (not_delivered _ _ _ _) = safe.settled
  settled_after_execute input ready (kept_out _ _ _ _ _ _) = safe.settled
  settled_after_execute input (same, (o', found', worth), cleared) (created o found _ _ _) =
      let total : o.total ≡ order.total = ground (arith, found, found', worth) in
      (rw (same, total) cleared, safe.settled)

  IsSafe-execute :
      (lost : Bool)
      → IsSafe (
          moved s n
            (after_execute order k
              (heard lost (execute_refund_activity (s.runs n).input s.db).0)
              (s.runs n))
            (execute_refund_activity (s.runs n).input s.db).1)
  unfolding execute_refund_activity
  IsSafe-execute lost =
      let w = s.runs n in
      let run = safe.runs n in
      let ready = subst (IsReady s.db s.signals n w.input) stands run.ready in
      IsSafe-moved s n _ _ safe
        (refund_order_row-IsValid w.input.order_number w.input.requested_by w.input.reason s.db
          safe.valid)
        (settled_after_execute w.input ready
          (refund_order_row-Refunded w.input.order_number _ _ _ s.db))
        (KeepsTotals-refund_order_row w.input.order_number _ _ _ s.db)
        (after_execute-IsRun _ s.signals n w
          (IsRun-keeps s.db _ s.signals s.signals n
            (KeepsTotals-refund_order_row w.input.order_number _ _ _ s.db) (λ _ h. h) w run)
          order k _ stands)

-- One more signal in the log.
IsSafe-signal :
    (s : System) (n : ℕ) (a : ApprovalInput)
    → IsSafe s
    → IsSafe
        (record s { runs = set_run n (approve a (s.runs n)) s.runs; signals = (n, a) ∷ s.signals })
IsSafe-signal s n a safe =
    let signals = (n, a) ∷ s.signals in
    let more = approved_in-more n a s.signals in
    record {
      valid = safe.valid;
      settled =
          All-map_of s.db.refunds
            (λ r.
              IsCleared-more s.db s.db s.signals signals n (KeepsTotals-refl s.db) more r.order_id
                r.amount)
            safe.settled;
      runs =
          set_run-IsRun s.db signals n (approve a (s.runs n)) s.runs
            (approve-IsRun s.db s.signals n a (s.runs n) (safe.runs n))
            (λ m.
              IsRun-keeps s.db s.db s.signals signals m (KeepsTotals-refl s.db) more (s.runs m)
                (safe.runs m));
    }

-- Every step keeps the tables valid, every refund cleared, and every run ready for what it awaits.
pub Step-IsSafe : {s t : System} → Step s t → IsSafe s → IsSafe t
Step-IsSafe {s} (start n input same closed) safe =
    IsSafe-run s n _ safe (begin-IsRun s.db s.signals n (s.runs n) (safe.runs n) input same)
Step-IsSafe {s} (load_attempt n k lost stands) safe =
    IsSafe-run s n _ safe (after_load-IsRun s.db s.signals n (s.runs n) (safe.runs n) k lost stands)
Step-IsSafe {s} (signal n a open_run) safe = IsSafe-signal s n a safe
Step-IsSafe {s} (resume n order a stands told) safe =
    IsSafe-run s n _ safe
      (after_wait-IsRun s.db s.signals n (s.runs n) (safe.runs n) order a stands told)
Step-IsSafe {s} (execute_attempt n k order lost stands) safe =
    IsSafe-execute s n order k safe stands lost
Step-IsSafe {s} (execute_dropped n k order stands) safe = IsSafe-run s n _ safe (
    after_execute-IsRun s.db s.signals n (s.runs n) (safe.runs n) order k (raised timed_out) stands)
Step-IsSafe {s} (expire n) safe =
    IsSafe-run s n _ safe (record { ready = tt; told = (safe.runs n).told })
Step-IsSafe {s} (cancellation n customer_id) safe =
    IsSafe-db s _ safe (cancel_order_row-IsValid n customer_id s.db safe.valid)
      (refunds-cancel_order_row n customer_id s.db)
      (KeepsTotals-cancel_order_row n customer_id s.db)
Step-IsSafe {s} (creation now customer_id sku quantity) safe =
    IsSafe-db s _ safe (create_order_row-IsValid now customer_id sku quantity s.db safe.valid)
      (refunds-create_order_row now customer_id sku quantity s.db safe.valid)
      (KeepsTotals-create_order_row now customer_id sku quantity s.db safe.valid)

pub Reach-IsSafe : {s t : System} → Reach s t → IsSafe s → IsSafe t
Reach-IsSafe here safe = safe
Reach-IsSafe (next r st) safe = Step-IsSafe st (Reach-IsSafe r safe)

-- Tables over which no run has begun and no signal has been sent.
abbrev pub idle : Database → System
idle db = record {
  db = db;
  runs = λ n. init (record { order_number = n; requested_by = []; reason = [] });
  signals = [];
}

pub idle-IsSafe :
    (db : Database)
    → IsValid db
    → All (λ r. r.amount ≤ refund_approval_threshold) db.refunds
    → IsSafe (idle db)
unfolding init
idle-IsSafe db v small = record {
  valid = v;
  settled = All-map_of db.refunds (λ r h. inl h) small;
  runs = λ n. record { ready = tt; told = λ a e. cc };
}

-- Starting from valid tables in which no refund is above the threshold, every refund that is ever in
-- the tables is at most the threshold, or an approving signal has reached the workflow of its
-- order; and no order has two refunds. This holds whatever attempts are lost or repeated and
-- whatever is cancelled or ordered meanwhile.
pub refund_needs_approval :
    (db : Database) (t : System)
    → IsValid db
    → All (λ r. r.amount ≤ refund_approval_threshold) db.refunds
    → Reach (idle db) t
    → All
        (λ r. (r.amount ≤ refund_approval_threshold) ⊎ (approved_in r.order_id t.signals ≡ true))
        t.db.refunds
      × ((n : ℕ) → count (is_refund_of n) t.db.refunds ≤ 1)
refund_needs_approval db t v small path =
    let end = Reach-IsSafe path (idle-IsSafe db v small) in
    (end.settled, λ n. refunds_of_order-le-one n t.db end.valid)

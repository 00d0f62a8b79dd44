-- ===== src/Workflows/Cancel/Run.antt =====
-- `CancelOrderWorkflow.run` from its start to its end, where any attempt of the activity may be lost.
use langgraph_temporal_agent.Database.Cancellation.{refused, cancel_order_row-Cancelled}
use langgraph_temporal_agent.Prelude.{
  ◌≡◌, ◌⊎◌, zero, inr, refl, inl, suc, ℕ, ap, ◌+◌, ◌∙◌, false, true, arith, ltb, sym,
}
use langgraph_temporal_agent.Workflows.Cancel.{
  CancelStatus, CancelOrderWorkflow, init, begin, after_cancel, cancel, finished, completed, failed,
  cancelling,
}
use langgraph_temporal_agent.Workflows.Activities.{
  raised, retries, is_retryable, cancel_order_activity, OrderActionInput, Attempt, maximum_attempts,
  timed_out,
}
use langgraph_temporal_agent.Database.Sql.{ok, Result}
use langgraph_temporal_agent.Database.Schema.{Database}
use langgraph_temporal_agent.Database.Orders.{cancel_order_row, CancellationResult}
use langgraph_temporal_agent.Database.Cancellation.{
  Cancelled, missing, cancel_order_row_again, done,
}
use mathlib.Core.Path.{subst}

-- What befalls an attempt: its answer arrives, or the activity commits and the answer is lost, or the
-- worker dies before the activity runs.
pub data Fate : Type 0 where
  answered lost dropped : Fate

unfoldable pub attempt_cancel :
    Fate → OrderActionInput → Database → Attempt CancellationResult × Database
unfolding cancel_order_activity
attempt_cancel answered input db = cancel_order_activity input db
attempt_cancel lost input db = (raised timed_out, (cancel_order_activity input db).1)
attempt_cancel dropped input db = (raised timed_out, db)

-- The rest of a run: its n-th attempt has the fate `fates n`.
unfoldable pub continue_cancel :
    ℕ
    → OrderActionInput
    → (ℕ → Fate)
    → Database
    → CancelOrderWorkflow
    → CancelOrderWorkflow × Database
unfolding attempt_cancel after_cancel
continue_cancel zero input fates db w = (w, db)
continue_cancel (suc fuel) input fates db w = elim w.await [
  | cancel k ↦
      let (a, db') = attempt_cancel (fates k) input db in
      continue_cancel fuel input fates db' (after_cancel k a w)
  | _ ↦ (w, db)
]

unfoldable pub run_cancel :
    OrderActionInput → (ℕ → Fate) → Database → CancelOrderWorkflow × Database
unfolding continue_cancel begin init
run_cancel input fates db = continue_cancel maximum_attempts input fates db (begin init)

-- The tables after one cancellation.
abbrev pub cancelled_db : OrderActionInput → Database → Database
cancelled_db input db = (cancel_order_row input.order_number input.requested_by db).1

pub data CancelEnds (input : OrderActionInput) (db : Database)
    : CancelOrderWorkflow × Database → Type 0 where
  completed_once :
      (r : CancellationResult)
      → CancelEnds input db
          (record { status = completed r; await = finished }, cancelled_db input db)
  gave_up :
      (db' : Database)
      → (db' ≡ db) ⊎ (db' ≡ cancelled_db input db)
      → CancelEnds input db (record { status = failed; await = finished }, db')

activity_answer :
    (input : OrderActionInput) (db : Database) {out : Result CancellationResult × Database}
    → Cancelled input.order_number input.requested_by db out
    → (r : CancellationResult) × (out.0 ≡ ok r)
activity_answer input db (missing r _ _ _) = (r, refl)
activity_answer input db (refused r _ _ _ _ _ _ _) = (r, refl)
activity_answer input db (done r _ _ _ _ _ _) = (r, refl)

-- A run that has ended stays as it is, whatever fuel is left.
continue_cancel-finished :
    (input : OrderActionInput) (fates : ℕ → Fate) (fuel : ℕ) (db : Database) (s : CancelStatus)
    → continue_cancel fuel input fates db (record { status = s; await = finished })
      ≡ (record { status = s; await = finished }, db)
unfolding continue_cancel
continue_cancel-finished input fates zero db s = refl
continue_cancel-finished input fates (suc fuel) db s = refl

module _ (input : OrderActionInput) (fates : ℕ → Fate) (fuel k : ℕ) (db : Database)
    (s : CancelStatus) where
  abbrev trying : ℕ → CancelOrderWorkflow
  trying n = record { status = s; await = cancel n }

  after_fate :
      (fate : Fate)
      → fates k ≡ fate
      → continue_cancel (suc (suc fuel)) input fates db (trying k)
        ≡ continue_cancel
            (suc fuel)
            input
            fates
            (attempt_cancel fate input db).1
            (after_cancel k (attempt_cancel fate input db).0 (trying k))
  unfolding continue_cancel
  after_fate fate e =
      ap
        (λ f.
          continue_cancel (suc fuel) input fates (attempt_cancel f input db).1
            (after_cancel k (attempt_cancel f input db).0 (trying k)))
        e

  tried_again :
      ltb k maximum_attempts ≡ true → after_cancel k (raised timed_out) (trying k) ≡ trying (suc k)
  unfolding after_cancel retries is_retryable
  tried_again more = rw more

  -- An attempt that may be repeated is, over the tables that it leaves.
  lost_again :
      fates k ≡ lost
      → ltb k maximum_attempts ≡ true
      → continue_cancel (suc (suc fuel)) input fates db (trying k)
        ≡ continue_cancel (suc fuel) input fates (cancelled_db input db) (trying (suc k))
  unfolding attempt_cancel cancel_order_activity
  lost_again e more =
      after_fate lost e
      ∙ ap (continue_cancel (suc fuel) input fates (cancelled_db input db)) (tried_again more)

  dropped_again :
      fates k ≡ dropped
      → ltb k maximum_attempts ≡ true
      → continue_cancel (suc (suc fuel)) input fates db (trying k)
        ≡ continue_cancel (suc fuel) input fates db (trying (suc k))
  unfolding attempt_cancel
  dropped_again e more =
      after_fate dropped e ∙ ap (continue_cancel (suc fuel) input fates db) (tried_again more)

module _ (input : OrderActionInput) (fates : ℕ → Fate) (db : Database) where
  -- A database in which nothing, or the one cancellation, has happened.
  abbrev IsOnce : Database → Type 0
  IsOnce db' = (db' ≡ db) ⊎ (db' ≡ cancelled_db input db)

  cancelled-IsOnce : (db' : Database) → IsOnce db' → cancelled_db input db' ≡ cancelled_db input db
  cancelled-IsOnce db' (inl same) = ap (cancelled_db input) same
  cancelled-IsOnce db' (inr once) =
      ap (cancelled_db input) once
      ∙ (cancel_order_row_again input.order_number input.requested_by db).0

  continue-CancelEnds :
      (fuel k : ℕ) (db' : Database) (s : CancelStatus) (fate : Fate)
      → fates k ≡ fate
      → k + fuel ≡ maximum_attempts
      → IsOnce db'
      → CancelEnds input db
          (continue_cancel (suc fuel) input fates db' (record { status = s; await = cancel k }))
  unfolding continue_cancel attempt_cancel after_cancel retries is_retryable cancel_order_activity
  continue-CancelEnds fuel k db' s answered e left once =
      let (r, ran) =
        activity_answer input db'
          (cancel_order_row-Cancelled input.order_number input.requested_by db') in
      rw
        (
          e,
          ran,
          continue_cancel-finished input fates fuel (cancelled_db input db') (completed r),
          cancelled-IsOnce db' once,
        )
        (completed_once r)
  continue-CancelEnds zero k db' s lost e left once =
      let over : ltb k maximum_attempts ≡ false = ground arith in
      rw (e, over) (gave_up (cancelled_db input db') (inr (cancelled-IsOnce db' once)))
  continue-CancelEnds zero k db' s dropped e left once =
      let over : ltb k maximum_attempts ≡ false = ground arith in rw (e, over) (gave_up db' once)
  continue-CancelEnds (suc fuel) k db' s lost e left once =
      subst (CancelEnds input db) (sym (lost_again input fates fuel k db' s e (ground arith))) (
        continue-CancelEnds fuel (suc k) (cancelled_db input db') s (fates (suc k)) refl
          (omega arith) (inr (cancelled-IsOnce db' once)))
  continue-CancelEnds (suc fuel) k db' s dropped e left once =
      subst (CancelEnds input db) (sym (dropped_again input fates fuel k db' s e (ground arith)))
        (continue-CancelEnds fuel (suc k) db' s (fates (suc k)) refl (omega arith) once)

  -- Whatever befalls its attempts, a cancellation run ends, after three attempts at most. It completes
  -- with the tables as one cancellation leaves them, however often the activity has run; or it fails,
  -- with the tables untouched or as one cancellation leaves them.
  pub run_cancel-CancelEnds : CancelEnds input db (run_cancel input fates db)
  unfolding run_cancel begin init
  run_cancel-CancelEnds = continue-CancelEnds 2 1 db cancelling (fates 1) refl refl (inl refl)

-- ===== src/Workflows/Cancel.antt =====
-- `CancelOrderWorkflow`: where its `run` is suspended, and what it does when it goes on.
pub mod Run
use langgraph_temporal_agent.Prelude.{suc, ℕ, if◌then◌else◌}
use langgraph_temporal_agent.Database.Orders.{CancellationResult}
use langgraph_temporal_agent.Workflows.Activities.{Attempt, returned, raised, retries}

pub data CancelStatus : Type 0 where
  started cancelling failed : CancelStatus
  completed : CancellationResult → CancelStatus

-- Where `run` stands: before its first line, at its activity's n-th attempt, or at its end.
pub data CancelAwait : Type 0 where
  not_started : CancelAwait
  cancel : (attempt : ℕ) → CancelAwait
  finished : CancelAwait

pub record CancelOrderWorkflow : Type 0 where
  pub status : CancelStatus
  pub await : CancelAwait

unfoldable pub init : CancelOrderWorkflow
init = record { status = started; await = not_started }

-- Up to the await of the activity.
unfoldable pub begin : CancelOrderWorkflow → CancelOrderWorkflow
begin w = record { status = cancelling; await = cancel 1 }

-- What an attempt's outcome does to the run: another attempt, the `except` branch, or the end.
unfoldable pub after_cancel :
    ℕ → Attempt CancellationResult → CancelOrderWorkflow → CancelOrderWorkflow
after_cancel attempt (returned r) w = record { status = completed r; await = finished }
after_cancel attempt (raised e) w =
    if retries e attempt
    then record w { await = cancel (suc attempt) }
    else record { status = failed; await = finished }

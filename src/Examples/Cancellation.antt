-- ===== src/Examples/Cancellation.antt =====
-- A cancellation run whose first answer is lost.
use langgraph_temporal_agent.Workflows.Cancel.Run.{
  Fate, answered, lost, run_cancel, CancelEnds, run_cancel-CancelEnds,
}
use langgraph_temporal_agent.Examples.Sample.{alice, shop}
use langgraph_temporal_agent.Prelude.{[], ℕ, if◌then◌else◌, ◌==◌}
use langgraph_temporal_agent.Workflows.Activities.{OrderActionInput}

abbrev cancel_input : OrderActionInput
cancel_input = record { order_number = 3; requested_by = alice; reason = [] }

abbrev first_lost : ℕ → Fate
first_lost k = if k == 1 then lost else answered

run_cancel-CancelEnds_example :
    CancelEnds cancel_input shop (run_cancel cancel_input first_lost shop)
run_cancel-CancelEnds_example = run_cancel-CancelEnds cancel_input first_lost shop

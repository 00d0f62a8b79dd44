-- ===== src/Examples/Refunds.antt =====
-- Refunds of the sample database, alone and through their workflows.
use langgraph_temporal_agent.Prelude.{
  ℕ, [], ◌∷◌, some, true, false, refl, arith, ◌≡◌, ◌≤◌, All, ◌⊎◌, count, ◌*◌,
}
use langgraph_temporal_agent.Text.{Text, codes, text_eq, decimal}
use langgraph_temporal_agent.Database.Schema.{
  Database, OrderStatus, delivered, OrderStatus-discrete, Product, laptop,
}
use langgraph_temporal_agent.Database.Sql.{numeric_limit, numeric_value_out_of_range, is_refund_of}
use langgraph_temporal_agent.Database.Invariant.{IsValid}
use langgraph_temporal_agent.Database.Refunds.{
  RefundOrder, refund_order_row, refund_idempotency_key, select_refund_order, already_refunded,
  get_refund_order_row,
}
use langgraph_temporal_agent.Database.Refunding.Outcome.{Refunded, answer}
use langgraph_temporal_agent.Database.Refunding.Ends.{refund_order_row-Refunded}
use langgraph_temporal_agent.Database.Refunding.Laws.{
  refund_order_row-IsValid, refund_order_row-err,
}
use langgraph_temporal_agent.Database.Refunding.Again.{refund_order_row_again}
use langgraph_temporal_agent.Workflows.Activities.{
  OrderActionInput, ApprovalInput, load_refund_order_activity, execute_refund_activity,
}
use langgraph_temporal_agent.Workflows.Refund.{
  begin, after_load, after_wait, init, approve, after_execute, decide, refund_approval_threshold,
}
use langgraph_temporal_agent.Workflows.Refund.Run.{EndsBy, verdict, run_refund, refund_policy}
use langgraph_temporal_agent.Workflows.System.{
  System, moved, heard, set_run, Reach, next, here, start, load_attempt, signal, resume,
  execute_attempt,
}
use langgraph_temporal_agent.Workflows.System.Safety.{idle, refund_needs_approval}
use langgraph_temporal_agent.Examples.Sample.{alice, shop, shop-IsValid, order_of}
use langgraph_temporal_agent.Workflows.System.Invariant.{approved_in}
use langgraph_temporal_agent.Workflows.System.Progress.{own_steps, starts, own_steps-bounds}
use langgraph_temporal_agent.Workflows.System.Ending.{MustEnd, run-MustEnd}

abbrev broken : Text
broken = codes "broken"

abbrev key : ℕ → Text
key = refund_idempotency_key

abbrev small_order : RefundOrder
small_order = record { id = 1; status = delivered; total = 14900 }

abbrev large_order : RefundOrder
large_order = record { id = 2; status = delivered; total = 74900 }

refund_order_row-Refunded_example :
    Refunded 1 alice broken (key 1) shop (refund_order_row 1 alice broken (key 1) shop)
refund_order_row-Refunded_example = refund_order_row-Refunded 1 alice broken (key 1) shop

refund_order_row-IsValid_example : IsValid (refund_order_row 1 alice broken (key 1) shop).1
refund_order_row-IsValid_example = refund_order_row-IsValid 1 alice broken shop shop-IsValid

refund_order_row_again_example :
    let after = (refund_order_row 1 alice broken (key 1) shop).1 in
    refund_order_row 1 alice (codes "again") (key 1) after
    ≡ (answer 1 OrderStatus.refunded 14900 false (some already_refunded), after)
unfolding shop refund_order_row text_eq OrderStatus-discrete refund_idempotency_key decimal
refund_order_row_again_example =
    refund_order_row_again 1 alice broken (key 1) (codes "again") (key 1) shop 14900 refl

abbrev refund_input : OrderActionInput
refund_input = record { order_number = 2; requested_by = alice; reason = broken }

abbrev yes_by_mia : ApprovalInput
yes_by_mia = record { approved = true; approved_by = codes "mia" }

refund_policy_example :
    EndsBy refund_input large_order shop
      (verdict delivered 74900 true)
      (run_refund refund_input yes_by_mia shop)
unfolding shop select_refund_order text_eq
refund_policy_example =
    refund_policy refund_input yes_by_mia shop large_order shop-IsValid refl (omega arith)

-- An order whose total does not fit NUMERIC(10, 2).
abbrev server_hall : Product
server_hall = record { sku = codes "LAP-009"; name = []; category = laptop; price = numeric_limit }

unfoldable dear_shop : Database
dear_shop = record {
  products = server_hall ∷ [];
  orders = order_of 1 alice server_hall delivered ∷ [];
  user_memories = [];
  refunds = [];
  next_order_id = 2;
}

dear_shop-IsValid : IsValid dear_shop
unfolding dear_shop text_eq
dear_shop-IsValid = record {
  priced = (omega arith, tt);
  orders_distinct = (refl, tt);
  refunds_distinct = tt;
  orders_sound = (
    record {
      product = server_hall;
      stocked = refl;
      at_least = omega arith;
      at_most = omega arith;
      drawn = omega arith;
    },
    tt,
  );
  refunds_backed = tt;
}

refund_order_row-err_example :
    (numeric_value_out_of_range ≡ numeric_value_out_of_range)
    × ((o : RefundOrder) × (select_refund_order 1 alice dear_shop ≡ some o)
        × (numeric_limit ≤ o.total))
unfolding dear_shop refund_order_row text_eq OrderStatus-discrete
refund_order_row-err_example =
    refund_order_row-err 1 alice broken dear_shop numeric_value_out_of_range dear_shop-IsValid refl

-- Alice's large order: started, loaded, approved, resumed, and refunded with the answer lost.
abbrev started_at : System
started_at = moved (idle shop) 2 (begin (init refund_input)) shop

abbrev loaded_at : System
loaded_at =
    moved started_at 2
      (after_load 1
        (heard false (load_refund_order_activity (started_at.runs 2).input started_at.db))
        (started_at.runs 2))
      started_at.db

abbrev approved_at : System
approved_at = record loaded_at {
  runs = set_run 2 (approve yes_by_mia (loaded_at.runs 2)) loaded_at.runs;
  signals = (2, yes_by_mia) ∷ loaded_at.signals;
}

abbrev resumed_at : System
resumed_at =
    moved approved_at 2 (after_wait large_order yes_by_mia (approved_at.runs 2)) approved_at.db

abbrev paid_at : System
paid_at =
    moved resumed_at 2
      (after_execute large_order 1
        (heard true (execute_refund_activity (resumed_at.runs 2).input resumed_at.db).0)
        (resumed_at.runs 2))
      (execute_refund_activity (resumed_at.runs 2).input resumed_at.db).1

paid_path : Reach (idle shop) paid_at
unfolding shop init begin after_load decide load_refund_order_activity get_refund_order_row
    select_refund_order approve after_wait text_eq OrderStatus-discrete
paid_path =
    let s1 : Reach (idle shop) started_at = next here (start 2 refund_input refl refl) in
    let s2 : Reach (idle shop) loaded_at = next s1 (load_attempt 2 1 false refl) in
    let s3 : Reach (idle shop) approved_at = next s2 (signal 2 yes_by_mia refl) in
    let s4 : Reach (idle shop) resumed_at = next s3 (resume 2 large_order yes_by_mia refl refl) in
    next s4 (execute_attempt 2 1 large_order true refl)

refund_needs_approval_example :
    All
      (λ r.
        (r.amount ≤ refund_approval_threshold) ⊎ (approved_in r.order_id paid_at.signals ≡ true))
      paid_at.db.refunds
    × ((n : ℕ) → count (is_refund_of n) paid_at.db.refunds ≤ 1)
unfolding shop
refund_needs_approval_example =
    refund_needs_approval shop paid_at shop-IsValid (omega arith, tt) paid_path

own_steps-bounds_example : own_steps 2 paid_path ≤ 7 * starts 2 paid_path
unfolding init
own_steps-bounds_example = own_steps-bounds 2 paid_path refl

run-MustEnd_example : MustEnd 2 (some yes_by_mia) approved_at
unfolding shop init begin after_load decide load_refund_order_activity get_refund_order_row
    select_refund_order approve text_eq OrderStatus-discrete
run-MustEnd_example = run-MustEnd 2 approved_at refl

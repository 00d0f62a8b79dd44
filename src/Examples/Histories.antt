-- ===== src/Examples/Histories.antt =====
-- A customer asks the agents for a refund and for a cancellation, and the server does both.
use langgraph_temporal_agent.Prelude.{
  ◌≡◌, refl, false, ◌∷◌, [], some, List, All, Bool, length, leb, ◌⊎◌, Memᴰ,
}
use langgraph_temporal_agent.Database.Schema.{
  delivered, Database, OrderStatus-discrete, OrderStatus,
}
use langgraph_temporal_agent.Examples.Sample.{shop, alice, shop-IsValid, order_of, home_printer}
use langgraph_temporal_agent.Text.{Text, codes, text_eq}
use langgraph_temporal_agent.Agent.{ToolCall}
use langgraph_temporal_agent.Workflows.Activities.{
  OrderActionInput, load_refund_order_activity, execute_refund_activity,
}
use langgraph_temporal_agent.Service.{
  Service, StartRequest, after_call, IsServed, History, then_event, none_yet, tool, serve,
}
use langgraph_temporal_agent.Database.Refunds.{
  RefundOrder, get_refund_order_row, select_refund_order,
}
use langgraph_temporal_agent.Database.Lifecycle.CalledOff.{IsCalledOff}
use langgraph_temporal_agent.Database.Lifecycle.{KeepsOrders}
use langgraph_temporal_agent.Database.Invariant.{IsValid}
use langgraph_temporal_agent.Workflows.System.{
  start, moved, heard, next, here, cancellation, load_attempt, execute_attempt,
}
use langgraph_temporal_agent.Tools.Dispatch.{call_tool, tool_named, cancel_order_tool}
use langgraph_temporal_agent.Service.Refunds.{IsExplained, opened, refunds-IsExplained}
use langgraph_temporal_agent.Database.Orders.{cancel_order_row}
use langgraph_temporal_agent.Workflows.System.Orders.{orders-KeepsOrders}
use langgraph_temporal_agent.Workflows.Refund.{begin, init, after_load, after_execute, decide}
use langgraph_temporal_agent.Workflows.System.Safety.{idle}
use langgraph_temporal_agent.Service.Cancellations.{cancellations-IsCalled, IsCalledSeed}

unfoldable unpaid : Database
unfolding shop
unpaid = record shop { refunds = [] }

unpaid-IsValid : IsValid unpaid
unfolding unpaid shop
unpaid-IsValid = record {
  priced = shop-IsValid.priced;
  orders_distinct = shop-IsValid.orders_distinct;
  refunds_distinct = tt;
  orders_sound = shop-IsValid.orders_sound;
  refunds_backed = tt;
}

-- The id of a run is the number of requests so far.
abbrev run_ids : List StartRequest → Text
run_ids rs = length rs ∷ []

abbrev shorter : Text → Text → Bool
shorter a b = leb (length a) (length b)

abbrev refund_call : ToolCall
refund_call = record {
  name = codes "request_refund";
  args = (codes "order_id", codes "ORD-001") ∷ (codes "reason", codes "broken") ∷ [];
}

abbrev cancel_call : ToolCall
cancel_call = record {
  name = codes "cancel_order";
  args = (codes "order_id", codes "ord-003") ∷ [];
}

abbrev refund_asked : OrderActionInput
refund_asked = record { order_number = 1; requested_by = alice; reason = codes "broken" }

abbrev asked_at : Service
asked_at = after_call run_ids shorter 9 alice refund_call (opened unpaid)

abbrev started_at : Service
started_at = record asked_at {
  system = moved asked_at.system 1 (begin (init refund_asked)) asked_at.system.db;
}

abbrev loaded_at : Service
loaded_at = record started_at {
  system =
      moved started_at.system 1
        (after_load 1
          (heard false
            (load_refund_order_activity (started_at.system.runs 1).input started_at.system.db))
          (started_at.system.runs 1))
        started_at.system.db;
}

abbrev small_order : RefundOrder
small_order = record { id = 1; status = delivered; total = 14900 }

abbrev refunded_at : Service
refunded_at = record loaded_at {
  system =
      moved loaded_at.system 1
        (after_execute small_order 1
          (heard false
            (execute_refund_activity (loaded_at.system.runs 1).input loaded_at.system.db).0)
          (loaded_at.system.runs 1))
        (execute_refund_activity (loaded_at.system.runs 1).input loaded_at.system.db).1;
}

refunded_path : History run_ids shorter (opened unpaid) refunded_at
unfolding unpaid shop call_tool IsServed init begin after_load decide load_refund_order_activity
    get_refund_order_row select_refund_order text_eq OrderStatus-discrete
refunded_path =
    let s1 : History run_ids shorter (opened unpaid) asked_at =
      then_event none_yet (tool 9 alice refund_call) in
    let s2 : History run_ids shorter (opened unpaid) started_at =
      then_event s1 (serve (start 1 refund_asked refl refl) (Memᴰ.head refl)) in
    let s3 : History run_ids shorter (opened unpaid) loaded_at =
      then_event s2 (serve (load_attempt 1 1 false refl) tt) in
    then_event s3 (serve (execute_attempt 1 1 small_order false refl) tt)

refunds-IsExplained_example : All (IsExplained refunded_at) refunded_at.system.db.refunds
unfolding unpaid
refunds-IsExplained_example =
    refunds-IsExplained run_ids shorter unpaid refunded_at unpaid-IsValid refl refunded_path

abbrev to_cancel_at : Service
to_cancel_at = after_call run_ids shorter 9 alice cancel_call (opened unpaid)

abbrev cancelled_at : Service
cancelled_at = record to_cancel_at {
  system = record to_cancel_at.system { db = (cancel_order_row 3 alice to_cancel_at.system.db).1 };
}

cancelled_path : History run_ids shorter (opened unpaid) cancelled_at
unfolding unpaid shop call_tool IsServed
cancelled_path =
    let s1 : History run_ids shorter (opened unpaid) to_cancel_at =
      then_event none_yet (tool 9 alice cancel_call) in
    then_event s1 (serve (cancellation 3 alice) (Memᴰ.head refl))

third_order : IsCalledOff cancelled_at.system.db.orders 3 alice
unfolding unpaid shop call_tool cancel_order_row text_eq OrderStatus-discrete
third_order = (order_of 3 alice home_printer OrderStatus.cancelled, refl, refl, refl)

cancellations-IsCalled_example :
    IsCalledOff unpaid.orders 3 alice
    ⊎ IsCalledSeed 3 alice
    ⊎ ((call : ToolCall) × Memᴰ (alice, call) cancelled_at.calls
        × (tool_named call.name ≡ some cancel_order_tool))
cancellations-IsCalled_example =
    cancellations-IsCalled run_ids shorter unpaid cancelled_at unpaid-IsValid cancelled_path 3 alice
      third_order

orders-KeepsOrders_example : KeepsOrders unpaid.orders cancelled_at.system.db.orders
unfolding unpaid call_tool
orders-KeepsOrders_example =
    orders-KeepsOrders {s = idle unpaid} {t = cancelled_at.system}
      (next here (cancellation 3 alice)) unpaid-IsValid

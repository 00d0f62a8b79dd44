-- ===== src/Workflows/System/Orders.antt =====
-- What becomes of the orders while runs, cancellations and new orders interleave.
use langgraph_temporal_agent.Workflows.Activities.{execute_refund_activity, OrderActionInput}
use langgraph_temporal_agent.Workflows.System.{
  start, here, System, Step, Reach, next, load_attempt, signal, resume, execute_attempt,
  execute_dropped, expire, cancellation, creation,
}
use langgraph_temporal_agent.Database.Schema.{Database}
use langgraph_temporal_agent.Database.Invariant.{IsValid}
use langgraph_temporal_agent.Database.Lifecycle.{
  KeepsOrders, KeepsOrders-refund_order_row, KeepsOrders-refl, KeepsOrders-trans,
  KeepsOrders-cancel_order_row, KeepsOrders-create_order_row,
}
use langgraph_temporal_agent.Database.Refunding.Laws.{refund_order_row-IsValid}
use langgraph_temporal_agent.Database.Cancellation.{cancel_order_row-IsValid}
use langgraph_temporal_agent.Database.Creation.{create_order_row-IsValid}

execute-KeepsOrders :
    (input : OrderActionInput) (db : Database)
    → IsValid db
    → KeepsOrders db.orders (execute_refund_activity input db).1.orders
unfolding execute_refund_activity
execute-KeepsOrders input db v =
    KeepsOrders-refund_order_row input.order_number input.requested_by input.reason _ db v

execute-IsValid :
    (input : OrderActionInput) (db : Database)
    → IsValid db
    → IsValid (execute_refund_activity input db).1
unfolding execute_refund_activity
execute-IsValid input db v =
    refund_order_row-IsValid input.order_number input.requested_by input.reason db v

pub Step-IsValid : {s t : System} → Step s t → IsValid s.db → IsValid t.db
Step-IsValid (start n input same closed) v = v
Step-IsValid (load_attempt n k lost stands) v = v
Step-IsValid (signal n a open_run) v = v
Step-IsValid (resume n order a stands told) v = v
Step-IsValid {s} (execute_attempt n k order lost stands) v = execute-IsValid (s.runs n).input s.db v
Step-IsValid (execute_dropped n k order stands) v = v
Step-IsValid (expire n) v = v
Step-IsValid {s} (cancellation n customer_id) v = cancel_order_row-IsValid n customer_id s.db v
Step-IsValid {s} (creation now customer_id sku quantity) v =
    create_order_row-IsValid now customer_id sku quantity s.db v

pub Step-KeepsOrders :
    {s t : System} → Step s t → IsValid s.db → KeepsOrders s.db.orders t.db.orders
Step-KeepsOrders {s} (start n input same closed) v = KeepsOrders-refl s.db.orders
Step-KeepsOrders {s} (load_attempt n k lost stands) v = KeepsOrders-refl s.db.orders
Step-KeepsOrders {s} (signal n a open_run) v = KeepsOrders-refl s.db.orders
Step-KeepsOrders {s} (resume n order a stands told) v = KeepsOrders-refl s.db.orders
Step-KeepsOrders {s} (execute_attempt n k order lost stands) v =
    execute-KeepsOrders (s.runs n).input s.db v
Step-KeepsOrders {s} (execute_dropped n k order stands) v = KeepsOrders-refl s.db.orders
Step-KeepsOrders {s} (expire n) v = KeepsOrders-refl s.db.orders
Step-KeepsOrders {s} (cancellation n customer_id) v =
    KeepsOrders-cancel_order_row n customer_id s.db v
Step-KeepsOrders {s} (creation now customer_id sku quantity) v =
    KeepsOrders-create_order_row now customer_id sku quantity s.db v

pub Reach-IsValid : {s t : System} → Reach s t → IsValid s.db → IsValid t.db
Reach-IsValid here v = v
Reach-IsValid (next path st) v = Step-IsValid st (Reach-IsValid path v)

-- From valid tables, whatever runs, signals, lost attempts, cancellations and new orders follow in
-- any order, every order is still there with its customer, product, quantity and time, and its
-- status is the same, or `cancelled` where it could be cancelled, or `refunded` where it was
-- delivered: `cancelled` and `refunded` are final.
pub orders-KeepsOrders :
    {s t : System} → Reach s t → IsValid s.db → KeepsOrders s.db.orders t.db.orders
orders-KeepsOrders {s} here v = KeepsOrders-refl s.db.orders
orders-KeepsOrders {s} (next {t} {u} path st) v =
    KeepsOrders-trans s.db.orders t.db.orders u.db.orders (orders-KeepsOrders path v)
      (Step-KeepsOrders st (Reach-IsValid path v))

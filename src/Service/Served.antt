-- ===== src/Service/Served.antt =====
-- A step of the server keeps what holds of the application.
use langgraph_temporal_agent.Database.Schema.{Database}
use langgraph_temporal_agent.Prelude.{refl, true, ℕ, ◌≡◌, Bool, All, Memᴰ}
use langgraph_temporal_agent.Service.{
  Service, IsServed, execute_attempt, load_attempt, signal, resume, execute_dropped, cancellation,
  creation,
}
use langgraph_temporal_agent.Service.Genuine.{
  IsGenuine, IsAsked, refunds-IsOwned, runs-IsAsked, IsOwned, after_execute-input,
  refund_order_row-IsOwned, set_run-IsAsked, after_load-input, after_wait-input,
}
use langgraph_temporal_agent.Workflows.System.{start, System, Step, moved, is_open, heard, expire}
use langgraph_temporal_agent.Workflows.Activities.{execute_refund_activity}
use langgraph_temporal_agent.Workflows.Refund.{
  finished, RefundWorkflow, begin, RefundAwait, init, execute, approve, after_execute, load,
  approval,
}
use langgraph_temporal_agent.Database.Refunds.{RefundOrder, refund_idempotency_key}
use langgraph_temporal_agent.Workflows.System.Orders.{Step-KeepsOrders}
use langgraph_temporal_agent.Workflows.System.Safety.{Step-IsSafe}
use langgraph_temporal_agent.Database.Refunding.Ends.{refund_order_row-Refunded}
use langgraph_temporal_agent.Database.Lifecycle.{KeepsOrders-refund_order_row}
use langgraph_temporal_agent.Tools.Actions.{refund_workflow_id}
use langgraph_temporal_agent.Database.Cancellation.{refunds-cancel_order_row}
use langgraph_temporal_agent.Database.Creation.{refunds-create_order_row}

module _ (v : Service) (g : IsGenuine v) where
  -- A step that keeps the runs' requests.
  served :
      {t : System} (st : Step v.system t)
      → ((n : ℕ) → IsAsked v.requests (t.runs n))
      → All (λ e. Memᴰ (refund_workflow_id e.0, e.1) v.approvals) t.signals
      → All (λ r. IsOwned t.db.orders v.requests r.order_id) t.db.refunds
      → IsGenuine (record v { system = t })
  served {t} st asked reached owned = record {
    safe = Step-IsSafe st g.safe;
    asked = asked;
    signalled = reached;
    requested = g.requested;
    approved = g.approved;
    owned = owned;
  }

  -- A step of one run that writes nothing.
  served_run :
      (n : ℕ) (w : RefundWorkflow) (await : RefundAwait)
      (st : Step v.system (moved v.system n w v.system.db))
      → (v.system.runs n).await ≡ await
      → is_open await ≡ true
      → w.input ≡ (v.system.runs n).input
      → IsGenuine (record v { system = moved v.system n w v.system.db })
  served_run n w await st stands open_await same =
      served st (runs-IsAsked v g n w await stands open_await same) g.signalled g.owned

  -- A step that writes to the tables beside the runs.
  served_db :
      (db : Database) (st : Step v.system (record v.system { db = db }))
      → db.refunds ≡ v.system.db.refunds
      → IsGenuine (record v { system = record v.system { db = db } })
  served_db db st same =
      served st g.asked g.signalled
        (rw same (refunds-IsOwned v g db.orders (Step-KeepsOrders st g.safe.valid)))

  served_execute :
      (n k : ℕ) (order : RefundOrder) (lost : Bool)
      (stands : (v.system.runs n).await ≡ execute order k)
      → IsGenuine (record v {
        system =
            moved v.system n
              (after_execute order k
                (heard lost (execute_refund_activity (v.system.runs n).input v.system.db).0)
                (v.system.runs n))
              (execute_refund_activity (v.system.runs n).input v.system.db).1;
      })
  unfolding execute_refund_activity
  served_execute n k order lost stands =
      let input = (v.system.runs n).input in
      served (execute_attempt n k order lost stands)
        (runs-IsAsked v g n _ (execute order k) stands refl
          (after_execute-input order k _ (v.system.runs n)))
        g.signalled
        (refund_order_row-IsOwned v g input (refund_idempotency_key input.order_number)
          (g.asked n (rw stands refl))
          (refund_order_row-Refunded input.order_number input.requested_by input.reason _
            v.system.db)
          (KeepsOrders-refund_order_row input.order_number input.requested_by input.reason _
            v.system.db g.safe.valid))

  pub served-IsGenuine :
      {t : System} (st : Step v.system t) → IsServed v st → IsGenuine (record v { system = t })
  unfolding IsServed begin init approve
  served-IsGenuine (start n input same closed) made =
      served (start n input same closed)
        (λ m. set_run-IsAsked v.requests n m (begin (init input)) v.system.runs (λ _. made) g.asked)
        g.signalled g.owned
  served-IsGenuine (load_attempt n k lost stands) made =
      served_run n _ (load k) (load_attempt n k lost stands) stands refl
        (after_load-input k _ (v.system.runs n))
  served-IsGenuine (signal n a open_run) made =
      served (signal n a open_run)
        (λ m.
          set_run-IsAsked v.requests n m (approve a (v.system.runs n)) v.system.runs (g.asked n)
            g.asked)
        (made, g.signalled) g.owned
  served-IsGenuine (resume n order a stands told) made =
      served_run n _ (approval order) (resume n order a stands told) stands refl
        (after_wait-input order a (v.system.runs n))
  served-IsGenuine (execute_attempt n k order lost stands) made =
      served_execute n k order lost stands
  served-IsGenuine (execute_dropped n k order stands) made =
      served_run n _ (execute order k) (execute_dropped n k order stands) stands refl
        (after_execute-input order k _ (v.system.runs n))
  served-IsGenuine (expire n) made =
      served (expire n)
        (λ m.
          set_run-IsAsked v.requests n m (record (v.system.runs n) { await = finished })
            v.system.runs (λ e. cc) g.asked)
        g.signalled g.owned
  served-IsGenuine (cancellation n customer_id) made =
      served_db _ (cancellation n customer_id) (refunds-cancel_order_row n customer_id v.system.db)
  served-IsGenuine (creation now customer_id sku quantity) made =
      served_db _ (creation now customer_id sku quantity)
        (refunds-create_order_row now customer_id sku quantity v.system.db g.safe.valid)

-- ===== src/Service/Cancellations.antt =====
-- What stands behind every cancelled order of the application.
use langgraph_temporal_agent.Prelude.{
  ◌≡◌, ◌∷◌, inr, some, inl, List, All, Bool, ℕ, ◌⊎◌, Memᴰ, All-Memᴰ, ap, ==_iff, find?-holds,
}
use langgraph_temporal_agent.Database.Schema.{Database, UserMemory, Order, OrderStatus}
use langgraph_temporal_agent.Service.{
  restart, IsServed, Service, StartRequest, ServiceEvent, History, tool, then_event,
  cancellation_start, note_start, approve_request, serve,
}
use langgraph_temporal_agent.Workflows.Activities.{execute_refund_activity}
use langgraph_temporal_agent.Database.Invariant.{IsValid}
use langgraph_temporal_agent.Workflows.System.{
  System, Step, start, load_attempt, signal, resume, execute_attempt, execute_dropped, expire,
  cancellation, creation,
}
use langgraph_temporal_agent.Text.{Text}
use langgraph_temporal_agent.Service.Genuine.{IsRequest}
use langgraph_temporal_agent.Agent.{ToolCall}
use langgraph_temporal_agent.Database.Lifecycle.CalledOff.{
  IsCalledOff, refund_order_row-back, cancel_order_row-back, create_order_row-back,
}
use langgraph_temporal_agent.Service.Refunds.{opened}
use langgraph_temporal_agent.Service.Requests.{Asks, call_tool-Asks, asks, nothing}
use langgraph_temporal_agent.Tools.Dispatch.Kept.{call_tool-Writes}
use langgraph_temporal_agent.Service.Histories.{with_memories, IsValid-memories, requested_later}
use langgraph_temporal_agent.Tools.Dispatch.{tool_named, cancel_order_tool}
use langgraph_temporal_agent.Service.{none_yet}
use langgraph_temporal_agent.Workflows.System.Orders.{Step-IsValid}
use langgraph_temporal_agent.Database.Refunds.{refund_idempotency_key}
use langgraph_temporal_agent.Database.Seeding.{initialize_database, seed_orders}
use langgraph_temporal_agent.Database.Seeding.Startup.{initialize_database-IsStarted}
use langgraph_temporal_agent.Database.Seeding.Origin.{initialize_database-orders}
use langgraph_temporal_agent.Database.Sql.{is_order}

-- An order among the seeds, cancelled from the first.
abbrev pub IsCalledSeed : ℕ → Text → Type 0
IsCalledSeed n customer_id =
    (o : Order) × Memᴰ o seed_orders
    × (o.id ≡ n)
    × (o.status ≡ OrderStatus.cancelled)
    × (o.customer_id ≡ customer_id)

-- A start of the API cancels no order, but may add seeds that are cancelled.
restart_back :
    (db : Database) (n : ℕ) (customer_id : Text)
    → IsCalledOff (initialize_database db).1.orders n customer_id
    → IsCalledOff db.orders n customer_id ⊎ IsCalledSeed n customer_id
restart_back db n customer_id (o, found, status, owner) =
    elim (initialize_database-orders db n o found) [
      | inl before ↦ inl (o, before, status, owner)
      | inr seeded ↦ inr (
        o,
        seeded,
        (==_iff o.id n).0 (find?-holds (is_order n) (initialize_database db).1.orders found),
        status,
        owner,
      )
    ]

-- What holds of every state: the tables are valid, every request was made by a call, and an order
-- that is cancelled was so from the first or was to be cancelled by request.
record IsCalled (first : Database) (v : Service) : Type 0 where
  valid : IsValid v.system.db
  requested : All (IsRequest v.calls) v.requests
  called_off :
      (n : ℕ) (customer_id : Text)
      → IsCalledOff v.system.db.orders n customer_id
      → (IsCalledOff first.orders n customer_id ⊎ IsCalledSeed n customer_id)
        ⊎ Memᴰ (cancellation_start n customer_id) v.requests

-- A served step cancels no order but at a request for its customer.
served_back :
    (v : Service) {t : System} (st : Step v.system t)
    → IsValid v.system.db
    → IsServed v st
    → (n : ℕ) (customer_id : Text) → IsCalledOff t.db.orders n customer_id
    → IsCalledOff v.system.db.orders n customer_id
      ⊎ Memᴰ (cancellation_start n customer_id) v.requests
unfolding IsServed execute_refund_activity
served_back v (start _ _ _ _) valid made n customer_id h = inl h
served_back v (load_attempt _ _ _ _) valid made n customer_id h = inl h
served_back v (signal _ _ _) valid made n customer_id h = inl h
served_back v (resume _ _ _ _ _) valid made n customer_id h = inl h
served_back v (execute_attempt m _ _ _ _) valid made n customer_id h =
    let input = (v.system.runs m).input in
    inl (
      refund_order_row-back input.order_number input.requested_by input.reason
        (refund_idempotency_key input.order_number) v.system.db n customer_id h)
served_back v (execute_dropped _ _ _ _) valid made n customer_id h = inl h
served_back v (expire _) valid made n customer_id h = inl h
served_back v (cancellation m customer) valid made n customer_id h =
    elim (cancel_order_row-back m customer v.system.db n customer_id valid h) [
      | inl before ↦ inl before
      | inr (same, owner) ↦ inr (rw same (rw owner at made))
    ]
served_back v (creation now customer sku quantity) valid made n customer_id h =
    inl (create_order_row-back now customer sku quantity v.system.db n customer_id valid h)

module _ (run_id : List StartRequest → Text) (precedes : Text → Text → Bool) (first : Database)
    (v : Service) (g : IsCalled first v) where
  -- One call more, and the same requests or one more.
  call-IsCalled :
      (entry : Text × ToolCall) (ms : List UserMemory) (requests : List StartRequest)
      → ((r : StartRequest) → Memᴰ r v.requests → Memᴰ r requests)
      → All (IsRequest (entry ∷ v.calls)) requests
      → IsCalled first (record v {
        system = record v.system { db = with_memories ms v.system.db };
        requests = requests;
        calls = entry ∷ v.calls;
      })
  call-IsCalled entry ms requests more all = record {
    valid = IsValid-memories ms v.system.db g.valid;
    requested = all;
    called_off = λ n customer_id h. elim (g.called_off n customer_id h) [
      | inl from_first ↦ inl from_first
      | inr made ↦ inr (more _ made)
    ];
  }

  Asks-IsCalled :
      (now : ℕ) (user_id : Text) (call : ToolCall) (ms : List UserMemory) {out : List StartRequest}
      → Asks run_id precedes now user_id v.system.db v.requests (tool_named call.name) out
      → IsCalled first (record v {
        system = record v.system { db = with_memories ms v.system.db };
        requests = out;
        calls = (user_id, call) ∷ v.calls;
      })
  Asks-IsCalled now user_id call ms nothing =
      call-IsCalled (user_id, call) ms v.requests (λ r m. m)
        (requested_later (user_id, call) v.calls v.requests g.requested)
  Asks-IsCalled now user_id call ms (asks r owner named) =
      call-IsCalled (user_id, call) ms (r ∷ v.requests) (λ x m. Memᴰ.tail m)
        (
          (call, Memᴰ.head (ap (λ (u : Text). (u, call)) owner), named),
          requested_later (user_id, call) v.calls v.requests g.requested,
        )

  event-IsCalled : {w : Service} → ServiceEvent run_id precedes v w → IsCalled first w
  event-IsCalled (tool now user_id call) =
      let (ms, same) =
        call_tool-Writes (note_start run_id) precedes now user_id call v.system.db v.requests in
      rw same (
        Asks-IsCalled now user_id call ms
          (call_tool-Asks run_id precedes now user_id v.system.db v.requests call))
  event-IsCalled (approve_request required approved workflow_id user) = record {
    valid = g.valid;
    requested = g.requested;
    called_off = g.called_off;
  }
  event-IsCalled restart = record {
    valid = (initialize_database-IsStarted v.system.db g.valid).valid;
    requested = g.requested;
    called_off = λ n customer_id h. elim (restart_back v.system.db n customer_id h) [
      | inl before ↦ g.called_off n customer_id before
      | inr seeded ↦ inl (inr seeded)
    ];
  }
  event-IsCalled (serve st made) = record {
    valid = Step-IsValid st g.valid;
    requested = g.requested;
    called_off = λ n customer_id h. elim (served_back v st g.valid made n customer_id h) [
      | inl before ↦ g.called_off n customer_id before
      | inr requested_now ↦ inr requested_now
    ];
  }

History-IsCalled :
    (run_id : List StartRequest → Text) (precedes : Text → Text → Bool) (first : Database)
    {v w : Service}
    → History run_id precedes v w
    → IsCalled first v
    → IsCalled first w
History-IsCalled run_id precedes first none_yet g = g
History-IsCalled run_id precedes first (then_event {u} path e) g =
    event-IsCalled run_id precedes first u (History-IsCalled run_id precedes first path g) e

-- From valid tables, over every history of tool calls, approvals, steps of the server and starts of
-- the API in any order: an order that is cancelled in the end was cancelled in the first tables
-- already, for the same customer, or is a seed that is cancelled from the first, or the tool that
-- cancels orders was called for the order's customer.
pub cancellations-IsCalled :
    (run_id : List StartRequest → Text) (precedes : Text → Text → Bool) (db : Database)
    (v : Service)
    → IsValid db
    → History run_id precedes (opened db) v
    → (n : ℕ) (customer_id : Text) → IsCalledOff v.system.db.orders n customer_id
    → IsCalledOff db.orders n customer_id
      ⊎ IsCalledSeed n customer_id
      ⊎ ((call : ToolCall) × Memᴰ (customer_id, call) v.calls
          × (tool_named call.name ≡ some cancel_order_tool))
cancellations-IsCalled run_id precedes db v valid path n customer_id h =
    let opening : IsCalled db (opened db) = record {
      valid = valid;
      requested = tt;
      called_off = λ m c k. inl (inl k);
    } in
    let g = History-IsCalled run_id precedes db path opening in
    elim (g.called_off n customer_id h) [
      | inl (inl from_first) ↦ inl from_first
      | inl (inr seeded) ↦ inr (inl seeded)
      | inr made ↦ inr (inr (All-Memᴰ (IsRequest v.calls) v.requests g.requested made))
    ]

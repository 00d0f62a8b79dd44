-- ===== src/Service/Histories.antt =====
-- What every history of the application keeps.
use langgraph_temporal_agent.Prelude.{
  refl, ◌∷◌, List, ℕ, Bool, Memᴰ, Option, All, All-map_of, ap, sym,
}
use langgraph_temporal_agent.Database.Refunds.{select_refund_order}
use langgraph_temporal_agent.Database.Schema.{Database, UserMemory}
use langgraph_temporal_agent.Service.{
  restart, none_yet, Service, StartRequest, ServiceEvent, History, after_call, tool, then_event,
  approve_request, note_start, note_approval, serve,
}
use langgraph_temporal_agent.Workflows.System.Safety.{IsSafe-db}
use langgraph_temporal_agent.Database.Invariant.{IsValid}
use langgraph_temporal_agent.Workflows.Activities.{ApprovalInput}
use langgraph_temporal_agent.Service.Genuine.{IsGenuine, IsRequest, IsOwned-later, refunds-IsOwned}
use langgraph_temporal_agent.Database.Totals.{KeepsTotals}
use langgraph_temporal_agent.Workflows.System.{System}
use langgraph_temporal_agent.Text.{Text}
use langgraph_temporal_agent.Workflows.System.Invariant.{IsSafe}
use langgraph_temporal_agent.Auth.{CurrentUser}
use langgraph_temporal_agent.Agent.{ToolCall}
use langgraph_temporal_agent.Service.Requests.{nothing, Asks, asks, call_tool-Asks}
use langgraph_temporal_agent.Auth.Http.{Response}
use langgraph_temporal_agent.Tools.Dispatch.{tool_named}
use langgraph_temporal_agent.Tools.Dispatch.Kept.{call_tool-Writes}
use langgraph_temporal_agent.Chat.Endpoints.Callers.{
  denied, sent, Approves, workflow_approval-Approves, sent,
}
use langgraph_temporal_agent.Database.Lifecycle.{KeepsOrders-refl}
use langgraph_temporal_agent.Service.Served.{served-IsGenuine}
use langgraph_temporal_agent.Database.Seeding.{initialize_database}
use langgraph_temporal_agent.Database.Seeding.Startup.{initialize_database-IsStarted}
use langgraph_temporal_agent.Service.Restart.{restart-KeepsTotals, restart-KeepsOrders}

-- The tables with other preferences.
abbrev pub with_memories : List UserMemory → Database → Database
with_memories ms db = record db { user_memories = ms }

pub IsValid-memories :
    (ms : List UserMemory) (db : Database) → IsValid db → IsValid (with_memories ms db)
IsValid-memories ms db v = record {
  priced = v.priced;
  orders_distinct = v.orders_distinct;
  refunds_distinct = v.refunds_distinct;
  orders_sound = v.orders_sound;
  refunds_backed = v.refunds_backed;
}

KeepsTotals-memories : (ms : List UserMemory) (db : Database) → KeepsTotals db (with_memories ms db)
unfolding select_refund_order
KeepsTotals-memories ms db n customer_id o e = (o, e, refl)

-- The requests after one call more.
pub requested_later :
    (entry : Text × ToolCall) (calls : List (Text × ToolCall)) (requests : List StartRequest)
    → All (IsRequest calls) requests
    → All (IsRequest (entry ∷ calls)) requests
requested_later entry calls requests all =
    All-map_of requests (λ r (call, made, named). (call, Memᴰ.tail made, named)) all

IsSafe-memories :
    (ms : List UserMemory) (s : System)
    → IsSafe s
    → IsSafe (record s { db = with_memories ms s.db })
IsSafe-memories ms s safe =
    IsSafe-db s (with_memories ms s.db) safe (IsValid-memories ms s.db safe.valid) refl
      (KeepsTotals-memories ms s.db)

module _ (run_id : List StartRequest → Text) (precedes : Text → Text → Bool) (v : Service)
    (g : IsGenuine v) where
  -- More calls and more requests, and other preferences.
  call-IsGenuine :
      (entry : Text × ToolCall) (ms : List UserMemory) (requests : List StartRequest)
      → ((r : StartRequest) → Memᴰ r v.requests → Memᴰ r requests)
      → All (IsRequest (entry ∷ v.calls)) requests
      → IsGenuine (record v {
        system = record v.system { db = with_memories ms v.system.db };
        requests = requests;
        calls = entry ∷ v.calls;
      })
  call-IsGenuine entry ms requests more all = record {
    safe = IsSafe-memories ms v.system g.safe;
    asked = λ n open_now. more _ (g.asked n open_now);
    signalled = g.signalled;
    requested = all;
    approved = g.approved;
    owned =
        All-map_of v.system.db.refunds
          (λ r h.
            IsOwned-later v.system.db.orders v.system.db.orders v.requests requests r.order_id
              (KeepsOrders-refl v.system.db.orders) more h)
          g.owned;
  }

  old_requests : (entry : Text × ToolCall) → All (IsRequest (entry ∷ v.calls)) v.requests
  old_requests entry = requested_later entry v.calls v.requests g.requested

  Asks-IsGenuine :
      (now : ℕ) (user_id : Text) (call : ToolCall) (ms : List UserMemory) {out : List StartRequest}
      → Asks run_id precedes now user_id v.system.db v.requests (tool_named call.name) out
      → IsGenuine (record v {
        system = record v.system { db = with_memories ms v.system.db };
        requests = out;
        calls = (user_id, call) ∷ v.calls;
      })
  Asks-IsGenuine now user_id call ms nothing =
      call-IsGenuine (user_id, call) ms v.requests (λ r m. m) (old_requests (user_id, call))
  Asks-IsGenuine now user_id call ms (asks r owner named) =
      call-IsGenuine (user_id, call) ms (r ∷ v.requests) (λ x m. Memᴰ.tail m)
        (
          (call, Memᴰ.head (ap (λ (u : Text). (u, call)) owner), named),
          old_requests (user_id, call),
        )

  tool-IsGenuine :
      (now : ℕ) (user_id : Text) (call : ToolCall)
      → IsGenuine (after_call run_id precedes now user_id call v)
  tool-IsGenuine now user_id call =
      let (ms, same) =
        call_tool-Writes (note_start run_id) precedes now user_id call v.system.db v.requests in
      rw same (
        Asks-IsGenuine now user_id call ms
          (call_tool-Asks run_id precedes now user_id v.system.db v.requests call))

  approval-IsGenuine :
      (required approved : Bool) (workflow_id : Text) (user : Option CurrentUser)
      {out : Response Text × List (Text × ApprovalInput)}
      → Approves note_approval required approved workflow_id user v.approvals out
      → IsGenuine (record v { approvals = out.1; approvers = user ∷ v.approvers })
  approval-IsGenuine required approved workflow_id user (denied _ _ _) = record {
    safe = g.safe;
    asked = g.asked;
    signalled = g.signalled;
    requested = g.requested;
    approved =
        All-map_of v.approvals (λ e (u, called, staff, named). (u, Memᴰ.tail called, staff, named))
          g.approved;
    owned = g.owned;
  }
  approval-IsGenuine required approved workflow_id user (sent u same staff) = record {
    safe = g.safe;
    asked = g.asked;
    signalled = All-map_of v.system.signals (λ e m. Memᴰ.tail m) g.signalled;
    requested = g.requested;
    approved = (
      (u, Memᴰ.head (sym same), staff, refl),
      All-map_of v.approvals
          (λ e (u', called, staff', named). (u', Memᴰ.tail called, staff', named)) g.approved,
    );
    owned = g.owned;
  }

  restart-IsGenuine :
      IsGenuine (record v { system = record v.system { db = (initialize_database v.system.db).1 } })
  restart-IsGenuine =
      let started = initialize_database-IsStarted v.system.db g.safe.valid in
      record {
        safe =
            IsSafe-db v.system (initialize_database v.system.db).1 g.safe started.valid
              started.grows.refunds (restart-KeepsTotals v.system.db g.safe.valid);
        asked = g.asked;
        signalled = g.signalled;
        requested = g.requested;
        approved = g.approved;
        owned = rw started.grows.refunds (
            refunds-IsOwned v g (initialize_database v.system.db).1.orders
              (restart-KeepsOrders v.system.db g.safe.valid));
      }

  event-IsGenuine : {w : Service} → ServiceEvent run_id precedes v w → IsGenuine w
  event-IsGenuine (tool now user_id call) = tool-IsGenuine now user_id call
  event-IsGenuine (approve_request required approved workflow_id user) =
      approval-IsGenuine required approved workflow_id user
        (workflow_approval-Approves note_approval required approved workflow_id user v.approvals)
  event-IsGenuine restart = restart-IsGenuine
  event-IsGenuine (serve st asked) = served-IsGenuine v g st asked

pub History-IsGenuine :
    (run_id : List StartRequest → Text) (precedes : Text → Text → Bool) {v w : Service}
    → History run_id precedes v w
    → IsGenuine v
    → IsGenuine w
History-IsGenuine run_id precedes none_yet g = g
History-IsGenuine run_id precedes (then_event {u} path e) g =
    event-IsGenuine run_id precedes u (History-IsGenuine run_id precedes path g) e

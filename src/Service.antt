-- ===== src/Service.antt =====
-- The application as a whole: the agents' tools, the approval endpoint, and the workflows over one
-- database. A call of a tool asks the Temporal server for a workflow, the endpoint sends it a signal,
-- and the server starts runs and delivers signals as it was asked, in any order and any number of
-- times; between these, the runs take their steps, and the API is started anew.
pub mod Restart
pub mod Requests
pub mod Genuine
pub mod Served
pub mod Histories
pub mod Refunds
pub mod Cancellations
use langgraph_temporal_agent.Prelude.{[], ◌∷◌, ℕ, List, Bool, Option, Memᴰ}
use langgraph_temporal_agent.Tools.Actions.{
  WorkflowKind, refund_workflow, cancel_order_workflow, refund_workflow_id,
  cancellation_workflow_id,
}
use langgraph_temporal_agent.Workflows.System.{
  start, System, Step, signal, cancellation, load_attempt, resume, execute_attempt, execute_dropped,
  expire, creation,
}
use langgraph_temporal_agent.Workflows.Activities.{OrderActionInput, ApprovalInput}
use langgraph_temporal_agent.Text.{Text}
use langgraph_temporal_agent.Agent.{ToolCall}
use langgraph_temporal_agent.Auth.{CurrentUser}
use langgraph_temporal_agent.Tools.Dispatch.{call_tool}
use langgraph_temporal_agent.Chat.Endpoints.{workflow_approval}
use langgraph_temporal_agent.Database.Seeding.{initialize_database}

-- A call of `start_workflow`: the workflow, its input and its id.
pub record StartRequest : Type 0 where
  pub kind : WorkflowKind
  pub input : OrderActionInput
  pub workflow_id : Text

pub record Service : Type 0 where
  pub system : System
  pub requests : List StartRequest
  -- Signals "approve" that were sent, with the ids of their workflows.
  pub approvals : List (Text × ApprovalInput)
  -- The calls of tools, with the user for whom each was made.
  pub calls : List (Text × ToolCall)
  -- Who has called the approval endpoint.
  pub approvers : List (Option CurrentUser)

abbrev pub refund_start : OrderActionInput → StartRequest
refund_start input = record {
  kind = refund_workflow;
  input = input;
  workflow_id = refund_workflow_id input.order_number;
}

abbrev pub cancellation_start : ℕ → Text → StartRequest
cancellation_start n customer_id = record {
  kind = cancel_order_workflow;
  input = record { order_number = n; requested_by = customer_id; reason = [] };
  workflow_id = cancellation_workflow_id n;
}

-- The server notes a request, and answers with a run id.
abbrev pub note_start :
    (List StartRequest → Text)
    → WorkflowKind
    → OrderActionInput
    → Text
    → List StartRequest
    → Text × List StartRequest
note_start run_id kind input workflow_id rs =
    (run_id rs, record { kind = kind; input = input; workflow_id = workflow_id } ∷ rs)

abbrev pub note_approval :
    Text → ApprovalInput → List (Text × ApprovalInput) → List (Text × ApprovalInput)
note_approval workflow_id a sent = (workflow_id, a) ∷ sent

-- A run is started, signalled and cancelled for only as it was asked; its other steps are its own.
unfoldable pub IsServed : (v : Service) {t : System} → Step v.system t → Type 0
IsServed v (start n input same closed) = Memᴰ (refund_start input) v.requests
IsServed v (signal n a open_run) = Memᴰ (refund_workflow_id n, a) v.approvals
IsServed v (cancellation n customer_id) = Memᴰ (cancellation_start n customer_id) v.requests
IsServed v (load_attempt n k lost stands) = Unit
IsServed v (resume n order a stands told) = Unit
IsServed v (execute_attempt n k order lost stands) = Unit
IsServed v (execute_dropped n k order stands) = Unit
IsServed v (expire n) = Unit
IsServed v (creation now customer_id sku quantity) = Unit

module _ (run_id : List StartRequest → Text) (precedes : Text → Text → Bool) where
  abbrev pub after_call : ℕ → Text → ToolCall → Service → Service
  after_call now user_id call v =
      let out = call_tool (note_start run_id) precedes now user_id call (v.system.db, v.requests) in
      record v {
        system = record v.system { db = out.1.0 };
        requests = out.1.1;
        calls = (user_id, call) ∷ v.calls;
      }

  abbrev pub after_approval : Bool → Text → Bool → Option CurrentUser → Service → Service
  after_approval required workflow_id approved user v = record v {
    approvals = (workflow_approval note_approval required workflow_id approved user v.approvals).1;
    approvers = user ∷ v.approvers;
  }

  pub data ServiceEvent (v : Service) : Service → Type 0 where
    tool :
        (now : ℕ) (user_id : Text) (call : ToolCall)
        → ServiceEvent v (after_call now user_id call v)
    approve_request :
        (required approved : Bool) (workflow_id : Text) (user : Option CurrentUser)
        → ServiceEvent v (after_approval required workflow_id approved user v)
    -- A start of the API, whose lifespan begins with `initialize_database`.
    restart :
        ServiceEvent v
          (record v { system = record v.system { db = (initialize_database v.system.db).1 } })
    serve :
        {t : System} (st : Step v.system t)
        → IsServed v st
        → ServiceEvent v (record v { system = t })

  pub data History (v : Service) : Service → Type 0 where
    none_yet : History v v
    then_event : {u w : Service} → History v u → ServiceEvent u w → History v w

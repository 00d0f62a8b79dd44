-- ===== src/Service/Genuine.antt =====
-- What holds of every state that the application reaches.
use langgraph_temporal_agent.Database.Schema.{Order, Database}
use langgraph_temporal_agent.Prelude.{
  inr, refl, true, some, inl, arith, List, Option, ℕ, find?, All, Memᴰ, ◌≡◌, All-map_of, Bool-cases,
  ◌==◌, ◌∙◌,
}
use langgraph_temporal_agent.Service.{Service, StartRequest, refund_start}
use langgraph_temporal_agent.Workflows.Refund.{
  decide, after_load, after_wait, after_execute, RefundWorkflow, RefundAwait,
}
use langgraph_temporal_agent.Text.{Text}
use langgraph_temporal_agent.Workflows.System.Invariant.{IsSafe}
use langgraph_temporal_agent.Database.Refunds.{RefundOrder, RefundResult}
use langgraph_temporal_agent.Database.Sql.{Result, is_order}
use langgraph_temporal_agent.Agent.{ToolCall}
use langgraph_temporal_agent.Auth.{CurrentUser, is_staff}
use langgraph_temporal_agent.Database.Lifecycle.{KeepsOrders}
use langgraph_temporal_agent.Workflows.Activities.{
  Attempt, ApprovalInput, returned, OrderActionInput, raised,
}
use langgraph_temporal_agent.Workflows.System.{is_open, set_run}
use langgraph_temporal_agent.Tools.Dispatch.{tool_named}
use langgraph_temporal_agent.Tools.Actions.{refund_workflow_id}
use langgraph_temporal_agent.Service.Requests.{tool_of}
use langgraph_temporal_agent.Database.Refunding.Outcome.{
  Refunded, no_order, repeated, not_delivered, kept_out, created,
}
use langgraph_temporal_agent.Database.Refunding.Keeps.{select_refund_order-parts}
use langgraph_temporal_agent.Database.Invariant.Lookup.{find?-select_order, select_order-owner}

-- A request was made by a call of the tool for it, for the user in whose name it is made.
abbrev pub IsRequest : List (Text × ToolCall) → StartRequest → Type 0
IsRequest calls r =
    (call : ToolCall) × Memᴰ (r.input.requested_by, call) calls
    × (tool_named call.name ≡ some (tool_of r.kind))

-- A signal was sent by a member of the staff, who is named in it.
abbrev pub IsApproval : List (Option CurrentUser) → Text × ApprovalInput → Type 0
IsApproval approvers sent =
    (u : CurrentUser) × Memᴰ (some u) approvers
    × (is_staff u ≡ true)
    × (sent.1.approved_by ≡ u.user_id)

-- The refund of order `n` was requested for the order's customer.
abbrev pub IsOwned : List Order → List StartRequest → ℕ → Type 0
IsOwned orders requests n =
    (o : Order) × (reason : Text) × (find? (is_order n) orders ≡ some o)
    × Memᴰ
        (refund_start (record { order_number = n; requested_by = o.customer_id; reason = reason }))
        requests

-- An open run was requested.
abbrev pub IsAsked : List StartRequest → RefundWorkflow → Type 0
IsAsked requests w = is_open w.await ≡ true → Memᴰ (refund_start w.input) requests

pub record IsGenuine (v : Service) : Type 0 where
  pub safe : IsSafe v.system
  pub asked : (n : ℕ) → IsAsked v.requests (v.system.runs n)
  pub signalled : All (λ e. Memᴰ (refund_workflow_id e.0, e.1) v.approvals) v.system.signals
  pub requested : All (IsRequest v.calls) v.requests
  pub approved : All (IsApproval v.approvers) v.approvals
  pub owned : All (λ r. IsOwned v.system.db.orders v.requests r.order_id) v.system.db.refunds

-- A request stays requested when orders live on and more is requested.
pub IsOwned-later :
    (orders orders' : List Order) (requests requests' : List StartRequest) (n : ℕ)
    → KeepsOrders orders orders'
    → ((r : StartRequest) → Memᴰ r requests → Memᴰ r requests')
    → IsOwned orders requests n
    → IsOwned orders' requests' n
IsOwned-later orders orders' requests requests' n keeps more (o, reason, found, made) =
    let (o', found', later) = keeps n o found in
    (o', reason, found', more _ (rw later.customer_id made))

pub set_run-IsAsked :
    (requests : List StartRequest) (n m : ℕ) (w : RefundWorkflow) (runs : ℕ → RefundWorkflow)
    → IsAsked requests w
    → ((k : ℕ) → IsAsked requests (runs k))
    → IsAsked requests (set_run n w runs m)
set_run-IsAsked requests n m w runs new all = elim (Bool-cases (m == n)) [
  | inl same ↦ rw same new
  | inr other ↦ rw other (all m)
]

decide-input : (order : RefundOrder) (w : RefundWorkflow) → (decide order w).input ≡ w.input
unfolding decide
decide-input order w = ground arith

pub after_load-input :
    (k : ℕ) (a : Attempt RefundOrder) (w : RefundWorkflow) → (after_load k a w).input ≡ w.input
unfolding after_load
after_load-input k (returned order) w = decide-input order w
after_load-input k (raised e) w = ground arith

pub after_wait-input :
    (order : RefundOrder) (a : ApprovalInput) (w : RefundWorkflow)
    → (after_wait order a w).input ≡ w.input
unfolding after_wait
after_wait-input order a w = ground arith

pub after_execute-input :
    (order : RefundOrder) (k : ℕ) (a : Attempt RefundResult) (w : RefundWorkflow)
    → (after_execute order k a w).input ≡ w.input
unfolding after_execute
after_execute-input order k (returned r) w = refl
after_execute-input order k (raised e) w = ground arith

-- A run that was open, with the same input.
IsAsked-open :
    (requests : List StartRequest) (w w' : RefundWorkflow) (await : RefundAwait)
    → IsAsked requests w
    → w.await ≡ await
    → is_open await ≡ true
    → w'.input ≡ w.input
    → IsAsked requests w'
IsAsked-open requests w w' await asked stands open_await same open_now =
    rw same (asked (rw stands open_await))

module _ (v : Service) (g : IsGenuine v) where
  -- Every run after one run's step.
  pub runs-IsAsked :
      (n : ℕ) (w : RefundWorkflow) (await : RefundAwait)
      → (v.system.runs n).await ≡ await
      → is_open await ≡ true
      → w.input ≡ (v.system.runs n).input
      → (m : ℕ) → IsAsked v.requests (set_run n w v.system.runs m)
  runs-IsAsked n w await stands open_await same m =
      set_run-IsAsked v.requests n m w v.system.runs
        (IsAsked-open v.requests (v.system.runs n) w await (g.asked n) stands open_await same)
        g.asked

  -- The refunds after orders have lived on.
  pub refunds-IsOwned :
      (orders : List Order)
      → KeepsOrders v.system.db.orders orders
      → All (λ r. IsOwned orders v.requests r.order_id) v.system.db.refunds
  refunds-IsOwned orders keeps =
      All-map_of v.system.db.refunds
        (λ r h.
          IsOwned-later v.system.db.orders orders v.requests v.requests r.order_id keeps (λ x m. m)
            h)
        g.owned

  -- The row that the activity may add was requested for the order's customer.
  pub refund_order_row-IsOwned :
      {out : Result (Option RefundResult) × Database} (input : OrderActionInput) (key : Text)
      → Memᴰ (refund_start input) v.requests
      → Refunded input.order_number input.requested_by input.reason key v.system.db out
      → KeepsOrders v.system.db.orders out.1.orders
      → All (λ r. IsOwned out.1.orders v.requests r.order_id) out.1.refunds
  refund_order_row-IsOwned input key made (no_order _) keeps = g.owned
  refund_order_row-IsOwned input key made (repeated _ _ _ _) keeps = g.owned
  refund_order_row-IsOwned input key made (not_delivered _ _ _ _) keeps = g.owned
  refund_order_row-IsOwned input key made (kept_out _ _ _ _ _ _) keeps = g.owned
  refund_order_row-IsOwned input key made (created row found absent ready added) keeps =
      let (p, q, present, known, same) =
        select_refund_order-parts input.order_number input.requested_by v.system.db found in
      let here =
        find?-select_order input.order_number input.requested_by v.system.db.orders
          g.safe.valid.orders_distinct present in
      let (id, owner) =
        select_order-owner input.order_number input.requested_by v.system.db present in
      let (p', present', later) = keeps input.order_number p here in
      ((p', input.reason, present', rw (later.customer_id ∙ owner) made), refunds-IsOwned _ keeps)

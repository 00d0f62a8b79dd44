-- ===== src/Service/Refunds.antt =====
-- What stands behind every refund of the application.
use langgraph_temporal_agent.Service.Histories.{History-IsGenuine}
use langgraph_temporal_agent.Prelude.{
  inl, inr, true, ◌∷◌, [], some, arith, ℕ, List, ◌≡◌, find?, Memᴰ, Bool, Bool-cases, All-Memᴰ, ◌==◌,
  All, ◌&&◌, All-zip, and_true, ◌≤◌, ap, sym, ◌⊎◌, ==_iff,
}
use langgraph_temporal_agent.Database.Schema.{Database, Refund, Order}
use langgraph_temporal_agent.Workflows.Refund.{init, refund_approval_threshold}
use langgraph_temporal_agent.Service.{Service, StartRequest, History}
use langgraph_temporal_agent.Workflows.System.Safety.{idle, idle-IsSafe}
use langgraph_temporal_agent.Database.Invariant.{IsValid}
use langgraph_temporal_agent.Workflows.Activities.{ApprovalInput}
use langgraph_temporal_agent.Service.Genuine.{IsGenuine, IsOwned, IsRequest, IsApproval}
use langgraph_temporal_agent.Workflows.System.Invariant.{approved_in, IsCleared}
use langgraph_temporal_agent.Text.{Text}
use langgraph_temporal_agent.Auth.{CurrentUser, is_staff}
use langgraph_temporal_agent.Database.Sql.{is_order}
use langgraph_temporal_agent.Tools.Actions.{refund_workflow_id}
use langgraph_temporal_agent.Agent.{ToolCall}
use langgraph_temporal_agent.Tools.Dispatch.{tool_named, request_refund_tool}

-- The application before its first request.
abbrev pub opened : Database → Service
opened db = record { system = idle db; requests = []; approvals = []; calls = []; approvers = [] }

opened-IsGenuine : (db : Database) → IsValid db → db.refunds ≡ [] → IsGenuine (opened db)
unfolding init
opened-IsGenuine db v none_paid = record {
  safe = idle-IsSafe db v (rw none_paid tt);
  asked = λ n e. cc;
  signalled = tt;
  requested = tt;
  approved = tt;
  owned = rw none_paid tt;
}

-- What stands behind a refund: its order, a call of the refund tool for the customer of the order,
-- and for an amount above the threshold an approval that a member of the staff has sent.
abbrev pub IsExplained : Service → Refund → Type 0
IsExplained v r =
    ((o : Order) × (find? (is_order r.order_id) v.system.db.orders ≡ some o)
      × ((call : ToolCall) × Memᴰ (o.customer_id, call) v.calls
          × (tool_named call.name ≡ some request_refund_tool)))
    × ((r.amount ≤ refund_approval_threshold)
        ⊎ ((a : ApprovalInput) × (u : CurrentUser) × Memᴰ (refund_workflow_id r.order_id, a)
              v.approvals
            × (a.approved ≡ true)
            × Memᴰ (some u) v.approvers
            × (is_staff u ≡ true)
            × (a.approved_by ≡ u.user_id)))

approving_signal :
    (n : ℕ) (signals : List (ℕ × ApprovalInput))
    → approved_in n signals ≡ true
    → (a : ApprovalInput) × (a.approved ≡ true) × Memᴰ (n, a) signals
approving_signal n [] h = cc
approving_signal n ((m, a) ∷ signals) h = elim (Bool-cases (m == n && a.approved)) [
  | inl here_too ↦
      let (same, granted) = and_true _ _ here_too in
      (a, granted, Memᴰ.head (ap (λ (k : ℕ). (k, a)) (sym ((==_iff m n).0 same))))
  | inr other ↦
      let (a', granted, found) = approving_signal n signals (ground (arith, other, h)) in
      (a', granted, Memᴰ.tail found)
]

module _ (v : Service) (g : IsGenuine v) where
  cleared-approved :
      (r : Refund)
      → approved_in r.order_id v.system.signals ≡ true
      → (a : ApprovalInput) × (u : CurrentUser) × Memᴰ
          (refund_workflow_id r.order_id, a)
          v.approvals
        × (a.approved ≡ true)
        × Memᴰ (some u) v.approvers
        × (is_staff u ≡ true)
        × (a.approved_by ≡ u.user_id)
  cleared-approved r h =
      let (a, granted, found) = approving_signal r.order_id v.system.signals h in
      let sent_a =
        All-Memᴰ (λ e. Memᴰ (refund_workflow_id e.0, e.1) v.approvals) v.system.signals g.signalled
          found in
      let (u, called, staff, named) =
        All-Memᴰ (IsApproval v.approvers) v.approvals g.approved sent_a in
      (a, u, sent_a, granted, called, staff, named)

  explained :
      (r : Refund)
      → IsCleared v.system.signals r.order_id r.amount
      → IsOwned v.system.db.orders v.requests r.order_id
      → IsExplained v r
  explained r cleared (o, reason, found, made) = (
    (o, found, All-Memᴰ (IsRequest v.calls) v.requests g.requested made),
    elim cleared [ inl small ↦ inl small | inr granted ↦ inr (cleared-approved r granted) ],
  )

-- From valid tables without refunds, over every history of tool calls, approvals, steps of the
-- server and starts of the API in any order: every refund in the tables belongs to an order whose
-- customer is the user of some call of the refund tool, and is at most 200.00 or was approved by a
-- signal to the workflow of its order that a member of the staff has sent under the member's own id.
pub refunds-IsExplained :
    (run_id : List StartRequest → Text) (precedes : Text → Text → Bool) (db : Database)
    (v : Service)
    → IsValid db
    → db.refunds ≡ []
    → History run_id precedes (opened db) v
    → All (IsExplained v) v.system.db.refunds
refunds-IsExplained run_id precedes db v valid none_paid path =
    let g = History-IsGenuine run_id precedes path (opened-IsGenuine db valid none_paid) in
    All-zip v.system.db.refunds (λ r cleared made. explained v g r cleared made) g.safe.settled
      g.owned

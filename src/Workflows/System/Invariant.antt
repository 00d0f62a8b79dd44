-- ===== src/Workflows/System/Invariant.antt =====
-- What holds of every reachable state of the system.
use langgraph_temporal_agent.Prelude.{
  some, inl, inr, true, ℕ, List, Bool, ◌≤◌, All, any, ◌≡◌, ◌==◌, ◌⊎◌, ◌∙◌, ◌&&◌,
}
use langgraph_temporal_agent.Database.Schema.{Database}
use langgraph_temporal_agent.Workflows.System.{System}
use langgraph_temporal_agent.Workflows.Activities.{ApprovalInput, OrderActionInput}
use langgraph_temporal_agent.Database.Invariant.{IsValid}
use langgraph_temporal_agent.Database.Refunds.{RefundOrder, select_refund_order}
use langgraph_temporal_agent.Workflows.Refund.{
  RefundAwait, RefundWorkflow, refund_approval_threshold, load, approval, execute, not_started,
  finished,
}
use langgraph_temporal_agent.Database.Totals.{KeepsTotals}

-- An approving signal has reached the run of order `n`.
abbrev pub approved_in : ℕ → List (ℕ × ApprovalInput) → Bool
approved_in n = any (λ e. e.0 == n && e.1.approved)

-- An amount that may be refunded: small, or approved.
abbrev pub IsCleared : List (ℕ × ApprovalInput) → ℕ → ℕ → Type 0
IsCleared signals n amount = (amount ≤ refund_approval_threshold) ⊎ (approved_in n signals ≡ true)

-- The order that a run has loaded still has the total that was loaded.
abbrev pub IsPriced : Database → OrderActionInput → RefundOrder → Type 0
IsPriced db input order =
    (o : RefundOrder) × (select_refund_order input.order_number input.requested_by db ≡ some o)
    × (o.total ≡ order.total)

abbrev pub IsReady :
    Database → List (ℕ × ApprovalInput) → ℕ → OrderActionInput → RefundAwait → Type 0
IsReady db signals n input not_started = Unit
IsReady db signals n input (load k) = input.order_number ≡ n
IsReady db signals n input (approval order) = (input.order_number ≡ n) × IsPriced db input order
IsReady db signals n input (execute order k) =
    (input.order_number ≡ n) × IsPriced db input order × IsCleared signals n order.total
IsReady db signals n input finished = Unit

pub record IsRun (db : Database) (signals : List (ℕ × ApprovalInput)) (n : ℕ) (w : RefundWorkflow)
    : Type 0 where
  pub ready : IsReady db signals n w.input w.await
  pub told :
      (a : ApprovalInput) → w.approval ≡ some a → a.approved ≡ true → approved_in n signals ≡ true

pub record IsSafe (s : System) : Type 0 where
  pub valid : IsValid s.db
  pub settled : All (λ r. IsCleared s.signals r.order_id r.amount) s.db.refunds
  pub runs : (n : ℕ) → IsRun s.db s.signals n (s.runs n)

-- What a run relies on survives every write and every further signal.
module _ (db db' : Database) (signals signals' : List (ℕ × ApprovalInput)) (n : ℕ)
    (keeps : KeepsTotals db db')
    (more : (m : ℕ) → approved_in m signals ≡ true → approved_in m signals' ≡ true) where
  IsPriced-keeps :
      (input : OrderActionInput) (order : RefundOrder)
      → IsPriced db input order
      → IsPriced db' input order
  IsPriced-keeps input order (o, found, same) =
      let (o', found', same') = keeps input.order_number input.requested_by o found in
      (o', found', same' ∙ same)

  pub IsCleared-more : (m amount : ℕ) → IsCleared signals m amount → IsCleared signals' m amount
  IsCleared-more m amount (inl small) = inl small
  IsCleared-more m amount (inr granted) = inr (more m granted)

  IsReady-keeps :
      (input : OrderActionInput) (await : RefundAwait)
      → IsReady db signals n input await
      → IsReady db' signals' n input await
  IsReady-keeps input not_started h = tt
  IsReady-keeps input (load k) h = h
  IsReady-keeps input (approval order) (same, priced) = (same, IsPriced-keeps input order priced)
  IsReady-keeps input (execute order k) (same, priced, cleared) =
      (same, IsPriced-keeps input order priced, IsCleared-more n order.total cleared)
  IsReady-keeps input finished h = tt

  pub IsRun-keeps : (w : RefundWorkflow) → IsRun db signals n w → IsRun db' signals' n w
  IsRun-keeps w h = record {
    ready = IsReady-keeps w.input w.await h.ready;
    told = λ a e granted. more n (h.told a e granted);
  }

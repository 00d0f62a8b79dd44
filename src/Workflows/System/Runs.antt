-- ===== src/Workflows/System/Runs.antt =====
-- What each piece of `RefundWorkflow.run` leaves the run ready for.
use langgraph_temporal_agent.Workflows.Refund.{
  completed, begin, init, rejected, order_not_delivered, failed, load, execute, approval,
  RefundWorkflow, RefundStatus, decide, after_load, after_wait, after_execute, finish,
  start_refunding, approval_denied, completed_already_refunded, refund_approval_threshold, approve,
}
use langgraph_temporal_agent.Prelude.{
  some, inr, inl, arith, List, ℕ, Bool-cases, ◌≡◌, ◌==◌, sym, Bool, ==_iff, ltb, false, true, none,
  refl, Option, ◌∷◌,
}
use langgraph_temporal_agent.Database.Schema.{Database, OrderStatus-discrete, refunded, delivered}
use langgraph_temporal_agent.Workflows.Activities.{
  ApprovalInput, OrderActionInput, load_refund_order_activity, Attempt, returned, raised, retries,
  loaded,
}
use langgraph_temporal_agent.Workflows.System.Invariant.{
  IsRun, IsPriced, IsCleared, IsReady, approved_in, IsRun-keeps,
}
use langgraph_temporal_agent.Workflows.System.{set_run, heard}
use langgraph_temporal_agent.Database.Refunds.{RefundOrder, get_refund_order_row, RefundResult}
use mathlib.Core.Path.{subst}
use mathlib.Core.Logic.{if_pos, if_neg}
use langgraph_temporal_agent.Database.Totals.{KeepsTotals-refl}

pub set_run-IsRun :
    (db : Database) (signals : List (ℕ × ApprovalInput)) (n : ℕ) (w : RefundWorkflow)
    (runs : ℕ → RefundWorkflow)
    → IsRun db signals n w
    → ((m : ℕ) → IsRun db signals m (runs m))
    → (m : ℕ) → IsRun db signals m (set_run n w runs m)
set_run-IsRun db signals n w runs run all m = elim (Bool-cases (m == n)) [
  | inl same ↦ rw same (subst (λ k. IsRun db signals k w) (sym ((==_iff m n).0 same)) run)
  | inr other ↦ rw other (all m)
]

found_of_returned :
    (lost : Bool) (found : Option RefundOrder) (order : RefundOrder)
    → heard lost (loaded found) ≡ returned order
    → found ≡ some order
found_of_returned true found order e = cc
found_of_returned false none order e = cc
found_of_returned false (some o) order e = cc

module _ (db : Database) (signals : List (ℕ × ApprovalInput)) (n : ℕ) (w : RefundWorkflow)
    (run : IsRun db signals n w) where
  pub begin-IsRun :
      (input : OrderActionInput) → input.order_number ≡ n → IsRun db signals n (begin (init input))
  unfolding begin init
  begin-IsRun input same = record { ready = same; told = λ a e. cc }

  pub finish-IsRun : (status : RefundStatus) → IsRun db signals n (finish status w)
  finish-IsRun status = record { ready = tt; told = run.told }

  start_refunding-IsRun :
      (order : RefundOrder)
      → w.input.order_number ≡ n
      → IsPriced db w.input order
      → IsCleared signals n order.total
      → IsRun db signals n (start_refunding order w)
  start_refunding-IsRun order same priced cleared = record {
    ready = (same, priced, cleared);
    told = run.told;
  }

  decide-IsRun :
      (order : RefundOrder)
      → w.input.order_number ≡ n
      → IsPriced db w.input order
      → IsRun db signals n (decide order w)
  unfolding decide
  decide-IsRun order same priced = elim (OrderStatus-discrete order.status refunded) [
    | yes closed ↦ rw (if_pos _ closed) (finish-IsRun completed_already_refunded)
    | no open_order ↦ rw (if_neg _ open_order) (elim (OrderStatus-discrete order.status delivered) [
      | yes ready ↦
          rw (if_pos _ ready) (elim (Bool-cases (ltb refund_approval_threshold order.total)) [
            | inl large ↦ rw large (record { ready = (same, priced); told = run.told })
            | inr small ↦ rw small (start_refunding-IsRun order same priced (inl (ground arith)))
          ])
      | no other ↦ rw (if_neg _ other) (finish-IsRun (rejected order_not_delivered))
    ])
  ]

  after_load_outcome-IsRun :
      (k : ℕ) (outcome : Attempt RefundOrder)
      → ((order : RefundOrder) → outcome ≡ returned order → IsPriced db w.input order)
      → w.await ≡ load k
      → IsRun db signals n (after_load k outcome w)
  unfolding after_load
  after_load_outcome-IsRun k (returned order) priced here =
      decide-IsRun order (subst (IsReady db signals n w.input) here run.ready) (priced order refl)
  after_load_outcome-IsRun k (raised e) priced here = elim (Bool-cases (retries e k)) [
    | inl again ↦
        rw again
          (record { ready = subst (IsReady db signals n w.input) here run.ready; told = run.told })
    | inr over ↦ rw over (finish-IsRun failed)
  ]

  pub after_load-IsRun :
      (k : ℕ) (lost : Bool)
      → w.await ≡ load k
      → IsRun db signals n (after_load k (heard lost (load_refund_order_activity w.input db)) w)
  unfolding load_refund_order_activity get_refund_order_row
  after_load-IsRun k lost here =
      after_load_outcome-IsRun k _ (λ order e. (order, found_of_returned lost _ order e, refl)) here

  pub after_wait-IsRun :
      (order : RefundOrder) (a : ApprovalInput)
      → w.await ≡ approval order
      → w.approval ≡ some a
      → IsRun db signals n (after_wait order a w)
  unfolding after_wait
  after_wait-IsRun order a here heard_a =
      let (same, priced) = subst (IsReady db signals n w.input) here run.ready in
      elim (Bool-cases a.approved) [
        | inl granted ↦
            rw granted (start_refunding-IsRun order same priced (inr (run.told a heard_a granted)))
        | inr denied ↦ rw denied (finish-IsRun (rejected approval_denied))
      ]

  pub after_execute-IsRun :
      (order : RefundOrder) (k : ℕ) (outcome : Attempt RefundResult)
      → w.await ≡ execute order k
      → IsRun db signals n (after_execute order k outcome w)
  unfolding after_execute
  after_execute-IsRun order k (returned r) here = finish-IsRun (completed r)
  after_execute-IsRun order k (raised e) here = elim (Bool-cases (retries e k)) [
    | inl again ↦
        rw again
          (record { ready = subst (IsReady db signals n w.input) here run.ready; told = run.told })
    | inr over ↦ rw over (finish-IsRun failed)
  ]

pub approved_in-more :
    (n : ℕ) (a : ApprovalInput) (signals : List (ℕ × ApprovalInput)) (m : ℕ)
    → approved_in m signals ≡ true
    → approved_in m ((n, a) ∷ signals) ≡ true
approved_in-more n a signals m h = ground (arith, h)

approved_in-now :
    (n : ℕ) (a b : ApprovalInput) (signals : List (ℕ × ApprovalInput))
    → some a ≡ some b
    → b.approved ≡ true
    → approved_in n ((n, a) ∷ signals) ≡ true
approved_in-now n a b signals same granted = ground (arith, same, granted)

pub approve-IsRun :
    (db : Database) (signals : List (ℕ × ApprovalInput)) (n : ℕ) (a : ApprovalInput)
    (w : RefundWorkflow)
    → IsRun db signals n w
    → IsRun db ((n, a) ∷ signals) n (approve a w)
unfolding approve
approve-IsRun db signals n a w run = record {
  ready =
      (IsRun-keeps db db signals ((n, a) ∷ signals) n (KeepsTotals-refl db)
        (approved_in-more n a signals) w run).ready;
  told = λ b same granted. approved_in-now n a b signals same granted;
}

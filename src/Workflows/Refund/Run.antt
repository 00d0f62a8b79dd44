-- ===== src/Workflows/Refund/Run.antt =====
-- `RefundWorkflow.run` from its start to its end, where every activity answers at its first attempt
-- and an approval is answered with `a`.
use langgraph_temporal_agent.Prelude.{
  refl, some, ℕ, Bool, if◌then◌else◌, ◌||◌, ◌≡◌, leb, ◌<◌, inl, inr, Bool-cases, ltb, true, arith,
  false,
}
use langgraph_temporal_agent.Workflows.Activities.{
  ApprovalInput, OrderActionInput, execute_refund_activity, load_refund_order_activity,
}
use langgraph_temporal_agent.Database.Schema.{
  Database, OrderStatus, delivered, refunded, OrderStatus-discrete,
}
use langgraph_temporal_agent.Workflows.Refund.{
  RefundAwait, RefundWorkflow, approve, RefundStatus, approval, execute, after_load,
  completed_already_refunded, after_wait, rejected, after_execute, order_not_delivered,
  approval_denied, begin, completed, finished, init, decide, refund_approval_threshold,
}
use langgraph_temporal_agent.Database.Refunds.{
  RefundOrder, refund_idempotency_key, select_refund_order, get_refund_order_row,
}
use langgraph_temporal_agent.Text.{Text}
use langgraph_temporal_agent.Database.Refunding.Outcome.{refunded_db, success}
use langgraph_temporal_agent.Database.Invariant.{IsValid}
use langgraph_temporal_agent.Database.Sql.{numeric_limit}
use langgraph_temporal_agent.Database.Refunding.First.{refund_order_row_first}

-- A run that waits for its approval is sent `a`, and goes on.
attend : ApprovalInput → RefundAwait → RefundWorkflow → RefundWorkflow
attend a (approval order) w = after_wait order a (approve a w)
attend a _ w = w

execute_now : Database → RefundAwait → RefundWorkflow → RefundWorkflow × Database
execute_now db (execute order k) w =
    let (answer, db') = execute_refund_activity w.input db in (after_execute order k answer w, db')
execute_now db _ w = (w, db)

-- The rest of a run that has loaded its order.
conclude : ApprovalInput → Database → RefundWorkflow → RefundWorkflow × Database
unfolding attend execute_now approve after_wait after_execute
conclude a db w = let w' = attend a w.await w in execute_now db w'.await w'

unfoldable pub run_refund : OrderActionInput → ApprovalInput → Database → RefundWorkflow × Database
unfolding conclude begin init after_load load_refund_order_activity
run_refund input a db =
    conclude a db (after_load 1 (load_refund_order_activity input db) (begin (init input)))

-- Who is refunded and who is asked, by the status, the amount and the approval. Of the conditions of
-- policies/refund-policy.md a report of damage is not among these: the code asks for none.
pub data Verdict : Type 0 where
  already not_eligible denied pay : Verdict

pub verdict : OrderStatus → ℕ → Bool → Verdict
verdict refunded total approved = already
verdict delivered total approved = if approved || leb total 20000 then pay else denied
verdict _ total approved = not_eligible

-- How a run ends, by the verdict.
pub final_status : ℕ → RefundOrder → Verdict → RefundStatus
final_status n o already = completed_already_refunded
final_status n o not_eligible = rejected order_not_delivered
final_status n o denied = rejected approval_denied
final_status n o pay = completed (success n o)

pub final_db : ℕ → Text → RefundOrder → Verdict → Database → Database
final_db n reason o pay db = refunded_db n reason (refund_idempotency_key n) o db
final_db n reason o _ db = db

abbrev pub EndsBy :
    OrderActionInput → RefundOrder → Database → Verdict → RefundWorkflow × Database → Type 0
EndsBy input o db v (w, db') =
    (w.await ≡ finished)
    × (w.status ≡ final_status input.order_number o v)
    × (db' ≡ final_db input.order_number input.reason o v db)

pay-EndsBy :
    (input : OrderActionInput) (db : Database) (o : RefundOrder) (k : ℕ) (w : RefundWorkflow)
    → IsValid db
    → select_refund_order input.order_number input.requested_by db ≡ some o
    → o.total < numeric_limit
    → w.input ≡ input
    → o.status ≡ delivered
    → EndsBy input o db pay (execute_now db (execute o k) w)
unfolding execute_now after_execute execute_refund_activity final_status final_db
pay-EndsBy input db o k w valid found small same ready =
    let first =
      refund_order_row_first input.order_number input.requested_by input.reason db o valid found
        ready small in
    rw (same, first) (refl, refl, refl)

module _ (input : OrderActionInput) (a : ApprovalInput) (db : Database) (o : RefundOrder)
    (valid : IsValid db)
    (found : select_refund_order input.order_number input.requested_by db ≡ some o)
    (small : o.total < numeric_limit) where
  delivered-EndsBy :
      o.status ≡ delivered
      → EndsBy input o db
          (verdict delivered o.total a.approved)
          (conclude a db (decide o (begin (init input))))
  unfolding conclude decide begin init verdict final_status final_db OrderStatus-discrete
  delivered-EndsBy e =
      let found' = rw e at found in
      elim (Bool-cases (leb o.total 20000)) [
        | inl moderate ↦
            let under : ltb refund_approval_threshold o.total ≡ false = ground arith in
            let paid : (a.approved || leb o.total 20000) ≡ true = ground arith in
            rw (paid, e, under)
              (pay-EndsBy input db (record o { status = delivered }) 1 _ valid found' small refl
                refl)
        | inr large ↦
            let over : ltb refund_approval_threshold o.total ≡ true = ground arith in
            elim (Bool-cases a.approved) [
              | inl granted ↦
                  rw (granted, e, over)
                    (pay-EndsBy input db (record o { status = delivered }) 1 _ valid found' small
                      refl refl)
              | inr refused ↦ rw (refused, large, e, over) (refl, refl, refl)
            ]
      ]

  decided-EndsBy :
      (s : OrderStatus)
      → o.status ≡ s
      → EndsBy input o db
          (verdict s o.total a.approved)
          (conclude a db (decide o (begin (init input))))
  unfolding conclude decide begin init verdict final_status final_db OrderStatus-discrete
  decided-EndsBy delivered e = delivered-EndsBy e
  decided-EndsBy refunded e = rw e (refl, refl, refl)
  decided-EndsBy _ e = rw e (refl, refl, refl)

  -- In valid tables, where the requester has the order and its total fits the amount column, a run of
  -- which no attempt fails ends by the order's status and amount, whatever its reason: an order that is
  -- refunded completes without a refund, one that is not delivered is rejected, a delivered one above
  -- 200.00 is rejected if its approval is denied, and any other is refunded in full. Only the last
  -- writes to the tables.
  pub refund_policy :
      EndsBy input o db (verdict o.status o.total a.approved) (run_refund input a db)
  unfolding run_refund load_refund_order_activity get_refund_order_row
  refund_policy = rw found (decided-EndsBy o.status refl)

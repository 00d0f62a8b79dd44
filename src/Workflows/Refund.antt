-- ===== src/Workflows/Refund.antt =====
-- `RefundWorkflow`: where its `run` is suspended, and what it does when it goes on.
pub mod Run
use langgraph_temporal_agent.Prelude.{some, suc, none, ℕ, Option, if◌then◌else◌, ltb}
use langgraph_temporal_agent.Workflows.Activities.{
  OrderActionInput, ApprovalInput, Attempt, returned, raised, retries,
}
use langgraph_temporal_agent.Database.Refunds.{RefundOrder, RefundResult}
use mathlib.Core.Logic.{ite}
use langgraph_temporal_agent.Database.Schema.{OrderStatus-discrete, refunded, delivered}

-- REFUND_APPROVAL_THRESHOLD, in cents.
abbrev pub refund_approval_threshold : ℕ
refund_approval_threshold = 20000

pub data RejectionReason : Type 0 where
  order_not_delivered approval_denied : RejectionReason

-- The dict that the `status` query returns.
pub data RefundStatus : Type 0 where
  started checking_order failed : RefundStatus
  completed_already_refunded : RefundStatus
  rejected : RejectionReason → RefundStatus
  waiting_for_approval refunding : (amount : ℕ) → RefundStatus
  completed : RefundResult → RefundStatus

-- Where `run` stands: before its first line, at the n-th attempt of an activity, at
-- `wait_condition`, or at its end.
pub data RefundAwait : Type 0 where
  not_started : RefundAwait
  load : (attempt : ℕ) → RefundAwait
  approval : RefundOrder → RefundAwait
  execute : RefundOrder → (attempt : ℕ) → RefundAwait
  finished : RefundAwait

pub record RefundWorkflow : Type 0 where
  pub input : OrderActionInput
  pub status : RefundStatus
  pub approval : Option ApprovalInput
  pub await : RefundAwait

-- `__init__`
unfoldable pub init : OrderActionInput → RefundWorkflow
init input = record { input = input; status = started; approval = none; await = not_started }

-- Up to the await of the first activity.
unfoldable pub begin : RefundWorkflow → RefundWorkflow
begin w = record w { status = checking_order; await = load 1 }

abbrev pub finish : RefundStatus → RefundWorkflow → RefundWorkflow
finish s w = record w { status = s; await = finished }

-- The `except` branch, which raises again.
abbrev pub fail : RefundWorkflow → RefundWorkflow
fail = finish failed

-- From the last status before the refund to the await of its activity.
abbrev pub start_refunding : RefundOrder → RefundWorkflow → RefundWorkflow
start_refunding order w = record w { status = refunding order.total; await = execute order 1 }

-- From the loaded order to the next await.
unfoldable pub decide : RefundOrder → RefundWorkflow → RefundWorkflow
decide order w =
    ite (OrderStatus-discrete order.status refunded) (finish completed_already_refunded w) (
      ite (OrderStatus-discrete order.status delivered)
        (if ltb refund_approval_threshold order.total
          then record w { status = waiting_for_approval order.total; await = approval order }
          else start_refunding order w)
        (finish (rejected order_not_delivered) w))

unfoldable pub after_load : ℕ → Attempt RefundOrder → RefundWorkflow → RefundWorkflow
unfolding decide
after_load attempt (returned order) w = decide order w
after_load attempt (raised e) w =
    if retries e attempt then record w { await = load (suc attempt) } else fail w

-- Once `self._approval is not None`.
unfoldable pub after_wait : RefundOrder → ApprovalInput → RefundWorkflow → RefundWorkflow
after_wait order a w =
    if a.approved then start_refunding order w else finish (rejected approval_denied) w

unfoldable pub after_execute :
    RefundOrder → ℕ → Attempt RefundResult → RefundWorkflow → RefundWorkflow
after_execute order attempt (returned r) w = finish (completed r) w
after_execute order attempt (raised e) w =
    if retries e attempt then record w { await = execute order (suc attempt) } else fail w

-- The signal handler.
unfoldable pub approve : ApprovalInput → RefundWorkflow → RefundWorkflow
approve a w = record w { approval = some a }

-- ===== src/Tools/Actions/Guarded.antt =====
-- What the cancel tool starts, and what it answers without starting anything.
use langgraph_temporal_agent.Prelude.{
  ℕ, ◌≡◌, false, refl, true, none, some, inr, inl, Option, Bool-cases, [], ◌++◌,
}
use langgraph_temporal_agent.Tools.Actions.{
  refused, accepted, WorkflowKind, ActionAnswer, cancel_existing, cancel_of_match, cancel_order,
  start_cancellation, cancel_order_workflow, start, cancellation_workflow_id,
}
use langgraph_temporal_agent.Workflows.Activities.{OrderActionInput}
use langgraph_temporal_agent.Text.{Text, codes, decimal}
use langgraph_temporal_agent.Database.Schema.{Database, Order}
use langgraph_temporal_agent.Tools.OrderId.{match_order_id, normalized}
use langgraph_temporal_agent.Database.Orders.{
  get_order_status_row, is_cancellable, rejection_reason,
}
use langgraph_temporal_agent.Database.Sql.{select_order}

module _ {S : Type 0} (start_workflow : WorkflowKind → OrderActionInput → Text → S → Text × S)
    (order_id user_id : Text) (db : Database) (s : S) where
  -- The call of the workflow server that cancels order `n` for this user.
  abbrev called : ℕ → Text × S
  called n =
      start_workflow cancel_order_workflow
        (record { order_number = n; requested_by = user_id; reason = [] })
        (codes "cancel-order-" ++ decimal n) s

  -- The cancel tool starts a workflow only for an order of this customer that can be cancelled, under
  -- the customer's own name; otherwise the server is not called.
  pub data Asked : ActionAnswer × S → Type 0 where
    unreadable :
        match_order_id (normalized order_id) ≡ none
        → Asked (ActionAnswer.invalid_order_id (normalized order_id), s)
    unknown :
        (n : ℕ)
        → match_order_id (normalized order_id) ≡ some n
        → select_order n user_id db ≡ none
        → Asked (ActionAnswer.not_found (normalized order_id), s)
    closed :
        (n : ℕ) (o : Order)
        → match_order_id (normalized order_id) ≡ some n
        → select_order n user_id db ≡ some o
        → is_cancellable o.status ≡ false
        → Asked (refused (normalized order_id) o.status (rejection_reason o.status), s)
    asked :
        (n : ℕ) (o : Order)
        → match_order_id (normalized order_id) ≡ some n
        → select_order n user_id db ≡ some o
        → is_cancellable o.status ≡ true
        → Asked (
          accepted
              (record { workflow_id = codes "cancel-order-" ++ decimal n; run_id = (called n).0 })
              (normalized order_id),
          (called n).1,
        )

  row_lem :
      (n : ℕ)
      → match_order_id (normalized order_id) ≡ some n
      → (row : Option Order) → select_order n user_id db ≡ row
      → Asked (cancel_existing start_workflow (normalized order_id) n user_id row s)
  unfolding cancel_existing start_cancellation start cancellation_workflow_id
  row_lem n e none e' = unknown n e e'
  row_lem n e (some o) e' = elim (Bool-cases (is_cancellable o.status)) [
    | inl allowed ↦ rw allowed (asked n o e e' allowed)
    | inr refused_status ↦ rw refused_status (closed n o e e' refused_status)
  ]

  match_lem :
      (m : Option ℕ)
      → match_order_id (normalized order_id) ≡ m
      → Asked (cancel_of_match start_workflow (normalized order_id) m user_id db s)
  unfolding cancel_of_match get_order_status_row
  match_lem none e = unreadable e
  match_lem (some n) e = row_lem n e (select_order n user_id db) refl

  -- Whatever text and user come in, the cancel tool ends in one of four ways: a text that is no order
  -- id, an order that this user does not have and an order whose status forbids it are answered
  -- without a call of the workflow server; an order of this user that can be cancelled is answered
  -- after one call of the server, which asks for the workflow "cancel-order-" with the order's number,
  -- for this number, requested by this user.
  pub cancel_order-Asked : Asked (cancel_order start_workflow order_id user_id db s)
  unfolding cancel_order
  cancel_order-Asked = match_lem (match_order_id (normalized order_id)) refl

-- ===== src/Memory/Summaries/Laws.antt =====
-- What a search for summaries finds.
use langgraph_temporal_agent.Prelude.{
  ℕ, List, ◌≡◌, ◌≤◌, All, length, filter, All-take, All-map_of, All-filter,
}
use langgraph_temporal_agent.Memory.Summaries.{
  Summary, search_conversation_summaries, is_summary_of,
}
use langgraph_temporal_agent.Text.{Text}
use langgraph_temporal_agent.Text.Equality.{text_eq_iff}
use langgraph_temporal_agent.Database.Listing.Laws.{length-take-le}

-- A search finds the customer's own summaries only, and no more of them than its limit.
pub search_conversation_summaries_lem :
    {V : Type 0} (nearest : V → List (Summary V) → List (Summary V)) (q : V) (customer_id : Text)
    (limit : ℕ) (rows : List (Summary V))
    → All
        (λ r. r.customer_id ≡ customer_id)
        (search_conversation_summaries nearest customer_id q limit rows)
      × (length (search_conversation_summaries nearest customer_id q limit rows) ≤ limit)
unfolding search_conversation_summaries
search_conversation_summaries_lem nearest q customer_id limit rows =
    let found = filter (is_summary_of customer_id) (nearest q rows) in
    (
      All-take (λ r. r.customer_id ≡ customer_id) limit found
          (All-map_of found (λ r e. (text_eq_iff r.customer_id customer_id).0 e)
            (All-filter (is_summary_of customer_id) (nearest q rows))),
      length-take-le limit found,
    )

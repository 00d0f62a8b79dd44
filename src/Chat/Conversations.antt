-- ===== src/Chat/Conversations.antt =====
-- `end_conversation`, `conversation_search` and `_customer_scope`, with `search` of
-- app/conversation_memory.py.
pub mod Bounds
use langgraph_temporal_agent.Chat.Endpoints.{claimed}
use langgraph_temporal_agent.Prelude.{
  ℕ, Bool, Option, none, some, List, [], ◌∷◌, if◌then◌else◌, leb,
}
use langgraph_temporal_agent.Auth.Http.{
  Response, returns, raises, ◌>>=◌, no_customer_claim, database_failure, internal_error,
}
use langgraph_temporal_agent.Memory.Summaries.{
  Summary, search_conversation_summaries, summarise_and_store, SummaryAnswer,
}
use langgraph_temporal_agent.Auth.{CurrentUser, require_user}
use langgraph_temporal_agent.Text.{Text}
use langgraph_temporal_agent.Agent.{Message}

-- A Python `int` that a query parameter gives.
pub data ℤ : Type 0 where
  pos negsuc : (n : ℕ) → ℤ

-- `min(limit, 20)`
abbrev pub at_most_20 : ℤ → ℤ
at_most_20 (pos n) = if leb n 20 then pos n else pos 20
at_most_20 (negsuc n) = negsuc n

unfoldable pub customer_scope : CurrentUser → Response Text
customer_scope user = claimed user.customer_id

-- The dependency `require_user`, then `_customer_scope`.
unfoldable pub conversation_customer : Bool → Option CurrentUser → Response Text
unfolding customer_scope
conversation_customer required user = do u ← require_user required user; customer_scope u

-- PostgreSQL refuses a negative LIMIT.
unfoldable pub limited :
    {V : Type 0}
    → (V → List (Summary V) → List (Summary V))
    → Text
    → V
    → ℤ
    → List (Summary V)
    → Response (List (Summary V))
unfolding search_conversation_summaries
limited nearest customer_id q (pos n) rows =
    returns (search_conversation_summaries nearest customer_id q n rows)
limited nearest customer_id q (negsuc n) rows = raises 500 database_failure

-- An exception of the embedding service is a response with status 500.
unfoldable pub search :
    {V : Type 0}
    → (V → List (Summary V) → List (Summary V))
    → Text
    → Option V
    → ℤ
    → List (Summary V)
    → Response (List (Summary V))
unfolding limited
search nearest customer_id none limit rows = raises 500 internal_error
search nearest customer_id (some q) limit rows = limited nearest customer_id q limit rows

unfoldable pub search_for :
    {V W : Type 0}
    → (V → List (Summary V) → List (Summary V))
    → (Text → W → Option V × W)
    → Response Text
    → Text
    → ℤ
    → List (Summary V)
    → W
    → Response (List (Summary V)) × W
unfolding search
search_for nearest embed (raises code detail) q limit rows w = (raises code detail, w)
search_for nearest embed (returns customer_id) q limit rows w =
    let (vector, w') = embed q w in (search nearest customer_id vector (at_most_20 limit) rows, w')

unfoldable pub conversation_search :
    {V W : Type 0}
    → (V → List (Summary V) → List (Summary V))
    → (Text → W → Option V × W)
    → Bool
    → Option CurrentUser
    → Text
    → ℤ
    → List (Summary V)
    → W
    → Response (List (Summary V)) × W
unfolding search_for conversation_customer
conversation_search nearest embed required user q limit rows w =
    search_for nearest embed (conversation_customer required user) q limit rows w

abbrev pub answered : Option SummaryAnswer → Response SummaryAnswer
answered none = raises 500 internal_error
answered (some a) = returns a

module _ {V W : Type 0} (aget_state : Text → W → List Message)
    (reply : Text → W → Option (Option Text) × W) (embed : Text → W → Option V × W) (now : ℕ) where
  unfoldable pub end_for :
      Response Text → Text → List (Summary V) → W → Response SummaryAnswer × List (Summary V) × W
  unfolding summarise_and_store
  end_for (raises code detail) thread_id rows w = (raises code detail, rows, w)
  end_for (returns customer_id) thread_id rows w =
      let (answer, rows', w') =
        summarise_and_store aget_state reply embed now customer_id thread_id rows w in
      (answered answer, rows', w')

  unfoldable pub end_conversation :
      Bool
      → Option CurrentUser
      → Text
      → List (Summary V)
      → W
      → Response SummaryAnswer × List (Summary V) × W
  unfolding end_for conversation_customer
  end_conversation required user = end_for (conversation_customer required user)

-- ===== src/Memory/Summaries.antt =====
-- The table conversation_summaries: `save_conversation_summary` and `search_conversation_summaries` of
-- app/database.py, and `_transcript`, `summarise_and_store` and `search` of
-- app/conversation_memory.py. No other function reads or writes the table, so it is kept apart from
-- the other tables. Embeddings are of any type `V`, and `nearest q` is the scan of the index for
-- `ORDER BY embedding <=> q`: an approximate index (HNSW) gives some rows of the table, in its order.
pub mod Laws
pub mod Kept
use langgraph_temporal_agent.Prelude.{
  ℕ, suc, Bool, true, false, Option, none, some, List, [], ◌∷◌, ◌++◌, ◌&&◌, find?, update, filter,
  take, length, leb, if◌then◌else◌,
}
use langgraph_temporal_agent.Text.{Text, codes, text_eq, strip, is_empty}
use langgraph_temporal_agent.Database.Sql.{is_some}
use langgraph_temporal_agent.Agent.{Message, human, tool_result, ai}
use langgraph_temporal_agent.Memory.{thread_key}

pub record Summary (V : Type 0) : Type 0 where
  pub customer_id : Text
  pub thread_id : Text
  pub summary : Text
  pub embedding : V
  pub message_count : ℕ
  pub created_at : ℕ

abbrev pub is_summary : {V : Type 0} → Text → Text → Summary V → Bool
is_summary customer_id thread_id r =
    text_eq r.customer_id customer_id && text_eq r.thread_id thread_id

abbrev pub is_summary_of : {V : Type 0} → Text → Summary V → Bool
is_summary_of customer_id r = text_eq r.customer_id customer_id

module _ {V : Type 0} where
  -- `INSERT … ON CONFLICT (customer_id, thread_id) DO UPDATE …`
  unfoldable pub save_conversation_summary : Summary V → List (Summary V) → List (Summary V)
  save_conversation_summary new rows =
      if is_some (find? (is_summary new.customer_id new.thread_id) rows)
      then update (is_summary new.customer_id new.thread_id)
          (λ r. record r {
            summary = new.summary;
            embedding = new.embedding;
            message_count = new.message_count;
            created_at = new.created_at;
          })
          rows
      else new ∷ rows

  -- The index is scanned before the clause on the customer filters what it gives.
  unfoldable pub search_conversation_summaries :
      (V → List (Summary V) → List (Summary V)) → Text → V → ℕ → List (Summary V) → List (Summary V)
  search_conversation_summaries nearest customer_id q limit rows =
      take limit (filter (is_summary_of customer_id) (nearest q rows))

abbrev pub role_line : Text → Text → List Text → List Text
role_line role [] lines = lines
role_line role (c ∷ text) lines = (role ++ (codes ": " ++ c ∷ text)) ∷ lines

-- The lines of `_transcript`.
unfoldable pub transcript_lines : List Message → List Text
unfolding strip
transcript_lines [] = []
transcript_lines (human content ∷ ms) =
    role_line (codes "Customer") (strip content) (transcript_lines ms)
transcript_lines (ai m ∷ ms) = role_line (codes "Agent") (strip m.content) (transcript_lines ms)
transcript_lines (tool_result _ ∷ ms) = transcript_lines ms

-- `"\n".join(lines)`
unfoldable pub join_lines : List Text → Text
join_lines [] = []
join_lines (line ∷ []) = line
join_lines (line ∷ l ∷ lines) = line ++ (10 ∷ join_lines (l ∷ lines))

unfoldable pub transcript : List Message → Text × ℕ
unfolding transcript_lines join_lines
transcript messages = (join_lines (transcript_lines messages), length (transcript_lines messages))

-- The dict of `summarise_and_store`.
pub data SummaryAnswer : Type 0 where
  empty_conversation empty_summary : SummaryAnswer
  stored : (thread_id summary : Text) (message_count : ℕ) → SummaryAnswer

-- `aget_state` gives the messages of a thread. The model's reply is a `str` or not (`some none`), or
-- an exception (`none`); the embedding service may raise too.
module _ {V W : Type 0} (aget_state : Text → W → List Message)
    (reply : Text → W → Option (Option Text) × W) (embed : Text → W → Option V × W) (now : ℕ)
    (customer_id thread_id : Text) where
  unfoldable pub after_embed :
      Text → ℕ → Option V × W → List (Summary V) → Option SummaryAnswer × List (Summary V) × W
  unfolding save_conversation_summary
  after_embed summary count (none, w) rows = (none, rows, w)
  after_embed summary count (some vector, w) rows = (
    some (stored thread_id summary count),
    save_conversation_summary
        (record {
          customer_id = customer_id;
          thread_id = thread_id;
          summary = summary;
          embedding = vector;
          message_count = count;
          created_at = now;
        })
        rows,
    w,
  )

  unfoldable pub after_summary :
      Text → ℕ → W → List (Summary V) → Option SummaryAnswer × List (Summary V) × W
  unfolding after_embed
  after_summary [] count w rows = (some empty_summary, rows, w)
  after_summary (c ∷ summary) count w rows =
      after_embed (c ∷ summary) count (embed (c ∷ summary) w) rows

  unfoldable pub after_reply :
      ℕ → Option (Option Text) × W → List (Summary V) → Option SummaryAnswer × List (Summary V) × W
  unfolding after_summary strip
  after_reply count (none, w) rows = (none, rows, w)
  after_reply count (some none, w) rows = after_summary [] count w rows
  after_reply count (some (some content), w) rows = after_summary (strip content) count w rows

  unfoldable pub after_transcript :
      Text × ℕ → List (Summary V) → W → Option SummaryAnswer × List (Summary V) × W
  unfolding after_reply
  after_transcript ([], count) rows w = (some empty_conversation, rows, w)
  after_transcript (c ∷ text, count) rows w = after_reply count (reply (c ∷ text) w) rows

  unfoldable pub summarise_and_store :
      List (Summary V) → W → Option SummaryAnswer × List (Summary V) × W
  unfolding after_transcript transcript thread_key
  summarise_and_store rows w =
      after_transcript (transcript (aget_state (thread_key customer_id thread_id) w)) rows w

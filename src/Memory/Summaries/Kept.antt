-- ===== src/Memory/Summaries/Kept.antt =====
-- The table of summaries as a map from a customer and a thread to a summary and its length.
use mathlib.Core.Option
use langgraph_temporal_agent.Prelude.{
  ◌∷◌, none, arith, some, refl, true, Option, ℕ, List, find?, ◌≡◌, Bool, if◌then◌else◌, ◌&&◌,
  update, find?-update, [], changed, find?-holds,
}
use langgraph_temporal_agent.Text.{Text, text_eq, strip}
use langgraph_temporal_agent.Memory.Summaries.{
  empty_conversation, empty_summary, stored, Summary, is_summary, save_conversation_summary,
  SummaryAnswer, stored, after_embed, after_summary, after_reply, after_transcript,
  summarise_and_store, transcript,
}
use langgraph_temporal_agent.Database.Sql.{is_some}
use langgraph_temporal_agent.Text.Equality.{text_eq_iff}
use langgraph_temporal_agent.Agent.{Message}
use langgraph_temporal_agent.Memory.{thread_key}

module _ {V : Type 0} where
  abbrev content_of : Option (Summary V) → Option (Text × ℕ)
  content_of none = none
  content_of (some r) = some (r.summary, r.message_count)

  -- The summary that is kept of a conversation, with the number of its messages.
  unfoldable pub summary_at : Text → Text → List (Summary V) → Option (Text × ℕ)
  summary_at customer_id thread_id rows = content_of (find? (is_summary customer_id thread_id) rows)

  -- The row of the conversation, overwritten.
  abbrev replaced : Summary V → Summary V → Summary V
  replaced new r = record r {
    summary = new.summary;
    embedding = new.embedding;
    message_count = new.message_count;
    created_at = new.created_at;
  }

  -- One pair of keys at two rows: a row of the second key is of the first only if the keys agree.
  is_summary-agree :
      (c t c' t' : Text) (r : Summary V)
      → is_summary c' t' r ≡ true
      → is_summary c t r ≡ (text_eq c c' && text_eq t t')
  is_summary-agree c t c' t' r h = ground (
    arith,
    h,
    text_eq_iff r.customer_id c',
    text_eq_iff r.thread_id t',
    text_eq_iff r.customer_id c,
    text_eq_iff r.thread_id t,
    text_eq_iff c c',
    text_eq_iff t t',
  )

  module _ (new : Summary V) (c' t' : Text) (rows : List (Summary V)) where
    abbrev of_new : Bool
    of_new = text_eq new.customer_id c' && text_eq new.thread_id t'

    replaced_content :
        (m : Summary V) (found : Option (Summary V))
        → find? (is_summary new.customer_id new.thread_id) rows ≡ some m
        → find? (is_summary c' t') rows ≡ found
        → content_of
            (Option.map (changed (is_summary new.customer_id new.thread_id) (replaced new)) found)
          ≡ (if of_new then some (new.summary, new.message_count) else content_of found)
    replaced_content m none present e =
        ground (arith, present, e, text_eq_iff new.customer_id c', text_eq_iff new.thread_id t')
    replaced_content m (some x) present e = ground (
      arith,
      is_summary-agree new.customer_id new.thread_id c' t' x
          (find?-holds (is_summary c' t') rows e),
    )

    saved :
        (old : Option (Summary V))
        → find? (is_summary new.customer_id new.thread_id) rows ≡ old
        → content_of (
            find? (is_summary c' t') (
              if is_some old
              then update (is_summary new.customer_id new.thread_id) (replaced new) rows
              else new ∷ rows))
          ≡ (if of_new then some (new.summary, new.message_count) else summary_at c' t' rows)
    unfolding summary_at
    saved none e = ground arith
    saved (some m) e =
        rw
          (find?-update (is_summary new.customer_id new.thread_id) (replaced new) (is_summary c' t')
            rows (λ x. refl))
          (replaced_content m (find? (is_summary c' t') rows) e refl)

    summary_at-save :
        summary_at c' t' (save_conversation_summary new rows)
        ≡ (if of_new then some (new.summary, new.message_count) else summary_at c' t' rows)
    unfolding save_conversation_summary summary_at
    summary_at-save = saved (find? (is_summary new.customer_id new.thread_id) rows) refl

-- What an answer says was stored.
abbrev stored_in : Option SummaryAnswer → Option (Text × ℕ)
stored_in (some (stored thread_id summary count)) = some (summary, count)
stored_in (some empty_conversation) = none
stored_in (some empty_summary) = none
stored_in none = none

-- The new one where there is one.
abbrev or_else : Option (Text × ℕ) → Option (Text × ℕ) → Option (Text × ℕ)
or_else none old = old
or_else (some new) old = some new

module _ {V W : Type 0} (aget_state : Text → W → List Message)
    (reply : Text → W → Option (Option Text) × W) (embed : Text → W → Option V × W) (now : ℕ)
    (customer_id thread_id c' t' : Text) (rows : List (Summary V)) where
  -- Each conversation has afterwards what the answer says or, if it is another one, what it had.
  abbrev pub KeepsAt : Option SummaryAnswer × List (Summary V) × W → Type 0
  KeepsAt out = summary_at c' t' out.1 ≡ (
      if text_eq customer_id c' && text_eq thread_id t'
      then or_else (stored_in out.0) (summary_at c' t' rows)
      else summary_at c' t' rows)

  same_at : (b : Bool) (old : Option (Text × ℕ)) → old ≡ (if b then or_else none old else old)
  same_at b old = ground arith

  after_embed-KeepsAt :
      (summary : Text) (count : ℕ) (ran : Option V × W)
      → KeepsAt
          (after_embed aget_state reply embed now customer_id thread_id summary count ran rows)
  unfolding after_embed
  after_embed-KeepsAt summary count (none, w) = same_at _ _
  after_embed-KeepsAt summary count (some vector, w) = summary_at-save _ c' t' rows

  after_summary-KeepsAt :
      (summary : Text) (count : ℕ) (w : W)
      → KeepsAt
          (after_summary aget_state reply embed now customer_id thread_id summary count w rows)
  unfolding after_summary
  after_summary-KeepsAt [] count w = same_at _ _
  after_summary-KeepsAt (c ∷ summary) count w =
      after_embed-KeepsAt (c ∷ summary) count (embed (c ∷ summary) w)

  after_reply-KeepsAt :
      (count : ℕ) (ran : Option (Option Text) × W)
      → KeepsAt (after_reply aget_state reply embed now customer_id thread_id count ran rows)
  unfolding after_reply
  after_reply-KeepsAt count (none, w) = same_at _ _
  after_reply-KeepsAt count (some none, w) = after_summary-KeepsAt [] count w
  after_reply-KeepsAt count (some (some content), w) = after_summary-KeepsAt (strip content) count w

  after_transcript-KeepsAt :
      (t : Text × ℕ) (w : W)
      → KeepsAt (after_transcript aget_state reply embed now customer_id thread_id t rows w)
  unfolding after_transcript
  after_transcript-KeepsAt ([], count) w = same_at _ _
  after_transcript-KeepsAt (c ∷ text, count) w = after_reply-KeepsAt count (reply (c ∷ text) w)

  -- After the end of a conversation the table has for it the summary and the number of messages that
  -- the answer reports as stored; where nothing was stored, or something raised, it has what it had,
  -- and every other conversation of any customer has what it had in any case.
  pub summarise_and_store-KeepsAt :
      (w : W)
      → KeepsAt (summarise_and_store aget_state reply embed now customer_id thread_id rows w)
  unfolding summarise_and_store
  summarise_and_store-KeepsAt w =
      after_transcript-KeepsAt (transcript (aget_state (thread_key customer_id thread_id) w)) w

-- ===== src/Memory/Keys.antt =====
-- Conversations of different customers have different keys.
use langgraph_temporal_agent.Prelude.{◌≡◌, true, All, ◌≢◌, sym, ◌∙◌, ap, Bool}
use langgraph_temporal_agent.Text.{Text, partition}
use langgraph_temporal_agent.Memory.{thread_key}
use langgraph_temporal_agent.Text.Partition.{partition-append}

-- Customers whose ids have no colon in them, as the pattern of a request's `user_id` wants, share no
-- conversation: two conversations have the same key only if customer and thread are the same.
pub thread_key_inj :
    (customer_id customer_id' thread_id thread_id' : Text)
    → All (λ c. c ≢ b':') customer_id
    → All (λ c. c ≢ b':') customer_id'
    → thread_key customer_id thread_id ≡ thread_key customer_id' thread_id'
    → (customer_id ≡ customer_id') × (thread_id ≡ thread_id')
unfolding thread_key
thread_key_inj u u' t t' h h' e =
    let same : (u, true, t) ≡ (u', true, t') =
      sym (partition-append b':' u t h) ∙ ap (partition b':') e ∙ partition-append b':' u' t' h' in
    (ap (λ (p : Text × Bool × Text). p.0) same, ap (λ (p : Text × Bool × Text). p.2) same)

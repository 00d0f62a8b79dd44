-- ===== src/Chat/Conversations/Bounds.antt =====
-- What a search over conversations returns.
use langgraph_temporal_agent.Prelude.{
  ◌≡◌, ◌≤◌, All, none, inl, some, inr, arith, refl, Bool, Option, List, length, ℕ, ap, Bool-cases,
  leb,
}
use langgraph_temporal_agent.Chat.Conversations.{
  pos, negsuc, conversation_search, search_for, search, limited, conversation_customer,
  customer_scope, ℤ, at_most_20,
}
use langgraph_temporal_agent.Auth.{CurrentUser, require_user}
use langgraph_temporal_agent.Text.{Text}
use langgraph_temporal_agent.Auth.Http.{◌>>=◌, returns, Response, raises}
use langgraph_temporal_agent.Memory.Summaries.{Summary, search_conversation_summaries}
use langgraph_temporal_agent.Memory.Summaries.Laws.{search_conversation_summaries_lem}
use langgraph_temporal_agent.Chat.Endpoints.{claimed}

limited-bounds :
    {V : Type 0} (nearest : V → List (Summary V) → List (Summary V)) (customer_id : Text) (q : V)
    (limit : ℤ) (rows results : List (Summary V))
    → limited nearest customer_id q (at_most_20 limit) rows ≡ returns results
    → All (λ r. r.customer_id ≡ customer_id) results × (length results ≤ 20)
unfolding limited
limited-bounds nearest customer_id q (negsuc n) rows results e = cc
limited-bounds nearest customer_id q (pos n) rows results e = elim (Bool-cases (leb n 20)) [
  | inl small ↦ found n (ground arith) (rw small at e)
  | inr large ↦ found 20 (omega arith) (rw large at e)
]
  where
    found :
        (k : ℕ)
        → k ≤ 20
        → limited nearest customer_id q (pos k) rows ≡ returns results
        → All (λ r. r.customer_id ≡ customer_id) results × (length results ≤ 20)
    found k h e' =
        let (own, few) = search_conversation_summaries_lem nearest q customer_id k rows in
        let same : search_conversation_summaries nearest customer_id q k rows ≡ results = cc in
        (rw same at own, omega (arith, few, ap length same))

customer_of_claim :
    (u : CurrentUser) (claim : Option Text) (id : Text)
    → claimed claim ≡ returns id
    → claim ≡ some id
customer_of_claim u none id h = cc
customer_of_claim u (some own) id h = cc

-- The user whom `require_user` has let in, with the claim.
customer_of_scope :
    (required : Bool) (user : Option CurrentUser) (id : Text)
    → conversation_customer required user ≡ returns id
    → (u : CurrentUser) × (require_user required user ≡ returns u) × (u.customer_id ≡ some id)
unfolding conversation_customer
customer_of_scope required user id h = go (require_user required user) refl h
  where
    go :
        (r : Response CurrentUser)
        → require_user required user ≡ r
        → (r >>= customer_scope) ≡ returns id
        → (u : CurrentUser) × (require_user required user ≡ returns u) × (u.customer_id ≡ some id)
    go (raises code detail) e k = cc
    go (returns u) e k = (u, e, customer_of_claim u u.customer_id id (unfold customer_scope in k))

search-bounds :
    {V : Type 0} (nearest : V → List (Summary V) → List (Summary V)) (customer_id : Text)
    (vector : Option V) (limit : ℤ) (rows results : List (Summary V))
    → search nearest customer_id vector (at_most_20 limit) rows ≡ returns results
    → All (λ r. r.customer_id ≡ customer_id) results × (length results ≤ 20)
unfolding search
search-bounds nearest customer_id none limit rows results e = cc
search-bounds nearest customer_id (some q) limit rows results e =
    limited-bounds nearest customer_id q limit rows results e

-- A search over conversations that answers, answers with at most twenty summaries, whatever limit the
-- request names, and they are all of the customer in the claim of the user whom `require_user` lets in.
pub conversation_search-bounds :
    {V W : Type 0} (nearest : V → List (Summary V) → List (Summary V))
    (embed : Text → W → Option V × W) (required : Bool) (user : Option CurrentUser) (q : Text)
    (limit : ℤ) (rows results : List (Summary V)) (w : W)
    → (conversation_search nearest embed required user q limit rows w).0 ≡ returns results
    → (own : Text) × (u : CurrentUser) × (require_user required user ≡ returns u)
      × (u.customer_id ≡ some own)
      × All (λ r. r.customer_id ≡ own) results
      × (length results ≤ 20)
unfolding conversation_search
conversation_search-bounds nearest embed required user q limit rows results w e =
    go (conversation_customer required user) refl e
  where
    go :
        (scope : Response Text)
        → conversation_customer required user ≡ scope
        → (search_for nearest embed scope q limit rows w).0 ≡ returns results
        → (own : Text) × (u : CurrentUser) × (require_user required user ≡ returns u)
          × (u.customer_id ≡ some own)
          × All (λ r. r.customer_id ≡ own) results
          × (length results ≤ 20)
    go (raises code detail) scoped h = unfold search_for in cc
    go (returns own) scoped h =
        let (all_own, few) =
          search-bounds nearest own (embed q w).0 limit rows results (unfold search_for in h) in
        let (u, entered, claim) = customer_of_scope required user own scoped in
        (own, u, entered, claim, all_own, few)

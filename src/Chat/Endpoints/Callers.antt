-- ===== src/Chat/Endpoints/Callers.antt =====
-- Whom the chat and the approval act for.
use langgraph_temporal_agent.Auth.Http.{
  raises, returns, Response, Detail, no_customer_claim, authentication_required,
  staff_role_required,
}
use langgraph_temporal_agent.Prelude.{
  ◌≡◌, refl, none, inl, some, false, inr, true, ℕ, Bool, Option, ◌⊎◌, List, Bool-cases, some_inj,
  sym, ◌∙◌,
}
use langgraph_temporal_agent.Chat.Stream.{Services, Event, stream_llm_response}
use langgraph_temporal_agent.Text.{Text, text_eq}
use langgraph_temporal_agent.Workflows.Activities.{ApprovalInput}
use langgraph_temporal_agent.Chat.Endpoints.{
  AgentStreamRequest, workflow_approval, chat_as, stream_agent_chat, approve_as, claimed,
  chat_user_id, staff_caller, approve_refund,
}
use langgraph_temporal_agent.Auth.{CurrentUser, is_staff, require_staff}
use langgraph_temporal_agent.Memory.{Activity, thread_key, touch}

module _ {W : Type 0} (s : Services W) (now : ℕ) (required : Bool) (request : AgentStreamRequest)
    (user : Option CurrentUser) (z : Activity) (w : W) where
  -- The customer of the caller's claim; without a caller, and only where none is required, the user that
  -- the request names.
  abbrev pub IsChatUser : Text → Type 0
  IsChatUser id =
      ((u : CurrentUser) × (user ≡ some u) × (u.customer_id ≡ some id))
      ⊎ ((user ≡ none) × (required ≡ false) × (request.user_id ≡ id))

  pub data Chats : Response (List Event) × Activity × W → Type 0 where
    no_claim :
        (u : CurrentUser)
        → user ≡ some u
        → u.customer_id ≡ none
        → Chats (raises 403 no_customer_claim, z, w)
    anonymous : user ≡ none → required ≡ true → Chats (raises 401 authentication_required, z, w)
    chatted :
        (id : Text) (events : List Event) (w' : W)
        → IsChatUser id
        → stream_llm_response s request.message id (thread_key id request.thread_id) w
          ≡ (events, w')
        → Chats (returns events, touch now id request.thread_id z, w')

  chat_as-Chats : (id : Text) → IsChatUser id → Chats (chat_as s now request (returns id) (z, w))
  unfolding chat_as
  chat_as-Chats id caller = chatted id _ _ caller refl

  claimed-Chats :
      (u : CurrentUser) (claim : Option Text)
      → user ≡ some u
      → u.customer_id ≡ claim
      → Chats (chat_as s now request (claimed claim) (z, w))
  unfolding chat_as
  claimed-Chats u none same e = no_claim u same e
  claimed-Chats u (some id) same e = chat_as-Chats id (inl (u, same, e))

  caller-Chats :
      (caller : Option CurrentUser) (b : Bool)
      → user ≡ caller
      → required ≡ b
      → Chats (chat_as s now request (chat_user_id b caller request) (z, w))
  unfolding chat_as chat_user_id
  caller-Chats (some u) b same e = claimed-Chats u u.customer_id same refl
  caller-Chats none true same e = anonymous same e
  caller-Chats none false same e = chat_as-Chats request.user_id (inr (same, e, refl))

  -- A chat acts for the customer of the caller's token and touches that customer's conversation only. A
  -- caller without such a claim is refused with 403, and an anonymous one with 401 where a caller is
  -- required, both with the set of conversations and the world as they were; the user that the request
  -- names counts only for an anonymous caller where none is required.
  pub stream_agent_chat-Chats : Chats (stream_agent_chat s now required request user (z, w))
  unfolding stream_agent_chat
  stream_agent_chat-Chats = caller-Chats user required refl refl

module _ {S : Type 0} (signal : Text → ApprovalInput → S → S) (required approved : Bool)
    (workflow_id : Text) (user : Option CurrentUser) (st : S) where
  pub data Approves : Response Text × S → Type 0 where
    denied :
        (code : ℕ) (detail : Detail)
        → ((u : CurrentUser) → user ≡ some u → is_staff u ≡ false)
        → Approves (raises code detail, st)
    sent :
        (u : CurrentUser)
        → user ≡ some u
        → is_staff u ≡ true
        → Approves (
          returns workflow_id,
          signal workflow_id (record { approved = approved; approved_by = u.user_id }) st,
        )

  require_staff-Approves :
      (u : CurrentUser)
      → user ≡ some u
      → Approves (approve_as signal workflow_id approved (require_staff u) st)
  unfolding approve_as approve_refund require_staff
  require_staff-Approves u same = elim (Bool-cases (is_staff u)) [
    | inl staff ↦ rw staff (sent u same staff)
    | inr other ↦
        rw other (denied 403 staff_role_required (λ v e. rw (some_inj (sym same ∙ e)) at other))
  ]

  caller-Approves :
      (caller : Option CurrentUser) (b : Bool)
      → user ≡ caller
      → Approves (approve_as signal workflow_id approved (staff_caller b caller) st)
  unfolding approve_as staff_caller text_eq
  caller-Approves (some u) b same = require_staff-Approves u same
  caller-Approves none true same = denied 401 authentication_required (λ v e. cc)
  caller-Approves none false same = denied 403 staff_role_required (λ v e. cc)

  -- An approval reaches a workflow only from a member of the staff, under the id of that member's token;
  -- every other caller is refused, and no signal is sent.
  pub workflow_approval-Approves :
      Approves (workflow_approval signal required workflow_id approved user st)
  unfolding workflow_approval
  workflow_approval-Approves = caller-Approves user required refl

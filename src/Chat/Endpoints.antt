-- ===== src/Chat/Endpoints.antt =====
-- `stream_agent_chat`, and the endpoints that read and approve workflows.
pub mod Callers
use langgraph_temporal_agent.Prelude.{Bool, true, false, Option, none, some, List, if◌then◌else◌, ℕ}
use langgraph_temporal_agent.Text.{Text}
use langgraph_temporal_agent.Auth.{CurrentUser, require_user, require_staff}
use langgraph_temporal_agent.Auth.Http.{
  Response, returns, raises, ◌>>=◌, authentication_required, no_customer_claim,
}
use langgraph_temporal_agent.Workflows.Activities.{ApprovalInput}
use langgraph_temporal_agent.Memory.{Activity, touch, thread_key}
use langgraph_temporal_agent.Chat.Stream.{Services, Event, stream_llm_response}

-- The body of a request, within the lengths and the pattern that its fields declare.
pub record AgentStreamRequest : Type 0 where
  pub message : Text
  pub user_id : Text
  pub thread_id : Text

abbrev pub claimed : Option Text → Response Text
claimed none = raises 403 no_customer_claim
claimed (some customer_id) = returns customer_id

-- Whom a chat acts for. `required` is `oidc_settings()["required"]`.
unfoldable pub chat_user_id : Bool → Option CurrentUser → AgentStreamRequest → Response Text
chat_user_id required (some user) request = claimed user.customer_id
chat_user_id true none request = raises 401 authentication_required
chat_user_id false none request = returns request.user_id

module _ {W : Type 0} (s : Services W) (now : ℕ) where
  unfoldable pub chat_as :
      AgentStreamRequest → Response Text → Activity × W → Response (List Event) × Activity × W
  unfolding touch thread_key stream_llm_response
  chat_as request (raises code detail) (z, w) = (raises code detail, z, w)
  chat_as request (returns user_id) (z, w) =
      let (events, w') =
        stream_llm_response s request.message user_id (thread_key user_id request.thread_id) w in
      (returns events, touch now user_id request.thread_id z, w')

  -- The response streams `stream_llm_response` after the handler has returned; here the events are the
  -- response.
  unfoldable pub stream_agent_chat :
      Bool
      → AgentStreamRequest
      → Option CurrentUser
      → Activity × W
      → Response (List Event) × Activity × W
  unfolding chat_as chat_user_id
  stream_agent_chat required request user = chat_as request (chat_user_id required user request)

-- The dependency `require_staff`, which depends on `require_user`.
unfoldable pub staff_caller : Bool → Option CurrentUser → Response CurrentUser
unfolding require_user require_staff
staff_caller required user = do u ← require_user required user; require_staff u

-- The Temporal client is a parameter: `signal` sends "approve" to a workflow, `query` asks its "status".
module _ {S : Type 0} (signal : Text → ApprovalInput → S → S) where
  unfoldable pub approve_refund : Text → Bool → Text → S → S
  approve_refund workflow_id approved approved_by =
      signal workflow_id (record { approved = approved; approved_by = approved_by })

  unfoldable pub approve_as : Text → Bool → Response CurrentUser → S → Response Text × S
  unfolding approve_refund
  approve_as workflow_id approved (raises code detail) s = (raises code detail, s)
  approve_as workflow_id approved (returns staff) s =
      (returns workflow_id, approve_refund workflow_id approved staff.user_id s)

  unfoldable pub workflow_approval : Bool → Text → Bool → Option CurrentUser → S → Response Text × S
  unfolding approve_as staff_caller
  workflow_approval required workflow_id approved user =
      approve_as workflow_id approved (staff_caller required user)

unfoldable pub workflow_status :
    {S A : Type 0} → (Text → S → A) → Bool → Text → Option CurrentUser → S → Response A
unfolding staff_caller
workflow_status query required workflow_id user s = do
  _ ← staff_caller required user
  returns (query workflow_id s)

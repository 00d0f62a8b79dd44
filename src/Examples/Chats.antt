-- ===== src/Examples/Chats.antt =====
-- Chats, approvals and searches of the sample customers.
use langgraph_temporal_agent.Chat.Stream.Laws.{Streams, stream_llm_response-Streams}
use langgraph_temporal_agent.Prelude.{
  true, some, suc, ◌∷◌, [], refl, none, ℕ, List, Option, ◌≡◌, All, length, ◌≤◌,
}
use langgraph_temporal_agent.Text.{Text, codes, text_eq}
use langgraph_temporal_agent.Chat.Stream.{Services, stream_llm_response}
use langgraph_temporal_agent.Chat.Endpoints.{
  AgentStreamRequest, stream_agent_chat, workflow_approval,
}
use langgraph_temporal_agent.Auth.{CurrentUser, role_manager, require_user, role_customer}
use langgraph_temporal_agent.Chat.Endpoints.Callers.{
  Chats, Approves, stream_agent_chat-Chats, workflow_approval-Approves,
}
use langgraph_temporal_agent.Chat.Conversations.{conversation_search, pos}
use langgraph_temporal_agent.Examples.Sample.{alice, bob}
use langgraph_temporal_agent.Workflows.Activities.{ApprovalInput}
use langgraph_temporal_agent.Memory.Summaries.{Summary, summarise_and_store}
use langgraph_temporal_agent.Agent.{Message, human}
use langgraph_temporal_agent.Auth.Http.{returns}
use langgraph_temporal_agent.Chat.Conversations.Bounds.{conversation_search-bounds}
use langgraph_temporal_agent.Memory.Summaries.Kept.{KeepsAt, summarise_and_store-KeepsAt}

abbrev thinking : Text
thinking = codes "<think>who asks?</think> Order ORD-001 is delivered. "

-- A world that counts the runs of the graph; everything is approved.
abbrev services : Services ℕ
services = record {
  nemo_guardrails_enabled = true;
  check_nemo_input = λ text w. (some true, w);
  check_nemo_output = λ text w. (some true, w);
  astream = λ text user_id thread w. (
    some (
        record {
          is_messages = true;
          is_ai_message = true;
          graph_node = some (codes "order_tracking_agent");
          content = some thinking;
        }
        ∷ []),
    suc w,
  );
}

stream_llm_response-Streams_example :
    Streams services
      (codes "Where is ORD-001?")
      alice
      (codes "t")
      0
      (stream_llm_response services (codes "Where is ORD-001?") alice (codes "t") 0)
stream_llm_response-Streams_example =
    stream_llm_response-Streams services (codes "Where is ORD-001?") alice (codes "t") 0

-- A request in alice's session that names bob.
abbrev request : AgentStreamRequest
request = record { message = codes "Where is ORD-001?"; user_id = bob; thread_id = codes "t" }

abbrev alice_user : CurrentUser
alice_user = record {
  user_id = codes "u-1";
  username = codes "alice";
  customer_id = some alice;
  roles = role_customer ∷ [];
}

abbrev manager_user : CurrentUser
manager_user = record {
  user_id = codes "u-2";
  username = codes "mia";
  customer_id = none;
  roles = role_manager ∷ [];
}

stream_agent_chat-Chats_example :
    Chats services 9 true request
      (some alice_user)
      []
      0
      (stream_agent_chat services 9 true request (some alice_user) ([], 0))
stream_agent_chat-Chats_example =
    stream_agent_chat-Chats services 9 true request (some alice_user) [] 0

-- A server that keeps the signals.
abbrev kept : Text → ApprovalInput → List (Text × ApprovalInput) → List (Text × ApprovalInput)
kept id a sent = (id, a) ∷ sent

workflow_approval-Approves_example :
    Approves kept true true
      (codes "refund-order-2")
      (some manager_user)
      []
      (workflow_approval kept true (codes "refund-order-2") true (some manager_user) [])
workflow_approval-Approves_example =
    workflow_approval-Approves kept true true (codes "refund-order-2") (some manager_user) []

-- Vectors are numbers, and the index gives every row.
abbrev every_row : ℕ → List (Summary ℕ) → List (Summary ℕ)
every_row q rows = rows

abbrev embed_7 : Text → ℕ → Option ℕ × ℕ
embed_7 text w = (some 7, w)

abbrev summary_of : Text → Summary ℕ
summary_of customer_id = record {
  customer_id = customer_id;
  thread_id = codes "t";
  summary = codes "A refund.";
  embedding = 3;
  message_count = 2;
  created_at = 1;
}

abbrev summaries : List (Summary ℕ)
summaries = summary_of bob ∷ summary_of alice ∷ []

conversation_search-bounds_example :
    (own : Text) × (u : CurrentUser) × (require_user true (some alice_user) ≡ returns u)
    × (u.customer_id ≡ some own)
    × All (λ r. r.customer_id ≡ own) (summary_of alice ∷ [])
    × (length (summary_of alice ∷ []) ≤ 20)
unfolding conversation_search text_eq require_user
conversation_search-bounds_example =
    conversation_search-bounds every_row embed_7 true (some alice_user) (codes "refund") (pos 50)
      summaries (summary_of alice ∷ []) 0 refl

abbrev messages_of : Text → ℕ → List Message
messages_of thread w = human (codes "Refund ORD-001, please.") ∷ []

abbrev summarised : Text → ℕ → Option (Option Text) × ℕ
summarised text w = (some (some (codes "A refund was asked for.")), w)

summarise_and_store-KeepsAt_example :
    KeepsAt messages_of summarised embed_7 9 alice
      (codes "t")
      alice
      (codes "t")
      summaries
      (summarise_and_store messages_of summarised embed_7 9 alice (codes "t") summaries 0)
summarise_and_store-KeepsAt_example =
    summarise_and_store-KeepsAt messages_of summarised embed_7 9 alice (codes "t") alice (codes "t")
      summaries 0

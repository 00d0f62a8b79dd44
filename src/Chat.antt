-- ===== src/Chat.antt =====
-- app/routes/agent.py: the chat stream and the endpoints of conversations and workflows.
pub mod Reasoning
pub mod Stream
pub mod Endpoints
pub mod Conversations

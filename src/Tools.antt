-- ===== src/Tools.antt =====
-- The tools of app/agent_graph.py and the calls of app/temporal_service.py that they make. A tool's
-- dict is a data type with a constructor for each shape that it returns; the trace that
-- `finish_tool_trace` logs is left out. `user_id` is the injected state, never an argument of the
-- model.
pub mod OrderId
pub mod Actions
pub mod Preferences
pub mod Dispatch

-- ===== src/Session.antt =====
-- coding_tools_mcp/session_state.py: logical contexts, and the jobs that they own.
pub mod Contexts
pub mod Jobs

-- ===== src/Process.antt =====
-- coding_tools_mcp/processes.py: the output that a session's process has written.
pub mod Output

-- ===== src/Patch.antt =====
-- coding_tools_mcp/patching.py: the patch format, the update of a text by hunks, and the commit of a
-- set of files.
pub mod Newlines
pub mod Hunks
pub mod Envelope
pub mod Staging
mod Tests

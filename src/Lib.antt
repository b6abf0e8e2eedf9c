-- ===== src/Lib.antt =====
-- DevMCP Runtime, a local coding runtime for MCP clients (coding_tools_mcp/).
--
-- Parts, and the files that model them:
-- - Base: Python's dict, text, exceptions and the state-passing of methods that may raise.
-- - Policy (coding_tools_mcp/policy.py): `resolve_execution_mode`, which decides between read-only PLAN
--   and full-access BUILD. A mode is a text, the list of its code points.
-- - Session.Contexts (coding_tools_mcp/session_state.py, `LogicalContextRegistry`): the contexts that
--   outlive an HTTP session, their leases, their expiry and their claims of a workspace. A method is a
--   function from the registry to its result and the new registry; an exception is a value beside the
--   state that it leaves. `Session.Contexts.Creation` has `create` and `update`,
--   `Session.Contexts.Claiming` the claims of a workspace, `Session.Contexts.Traces` all sequences of
--   calls. `time.monotonic()` is an argument of each call, in whole ticks; `Path.resolve` is a parameter
--   that may fail; the random part of a new name is an argument. A client's reference is a name and an
--   object number, which `current is state` compares; the number of the throw-away copy that `update`
--   hands to the callback is never read. Each method is one step: `prune`, with which some of them begin,
--   takes the lock for itself, and what another thread does between it and the rest is not modelled.
--   The callback of an expiry shows as a list of calls. The per-context lock is not modelled.
-- - Session.Jobs (coding_tools_mcp/session_state.py, `SharedJobRegistry`): the jobs that outlive a
--   request. The state holds the context registry, on which each job has a lease. What the operating
--   system says of a process, and the clocks, are arguments of a call; `Session.Jobs.Traces` has the
--   sequences of calls of both registries. A registration is one step, although the code releases its
--   lock between storing the record and retaining the context.
-- - Process.Output (coding_tools_mcp/processes.py, `ExecSession`): the bounded buffer of one output of a
--   process, with the cursor of its reader.
-- - Paths (coding_tools_mcp/path_security.py): which paths are refused as sensitive.
-- - Patch (coding_tools_mcp/patching.py): `apply_update_hunks` and what it calls. A file and a line are
--   lists of code points. Messages and details of exceptions are not modelled.
-- - Patch.Envelope (coding_tools_mcp/patching.py, `parse_patch`): the envelope of a patch. The nested
--   loops over its lines are one recursion whose mode says in which loop the code is.
-- - Patch.Staging (coding_tools_mcp/server.py, `_analyze_patch`): the operations of a patch, staged one after
--   the other. The resolution of paths and what is on the disk are parameters.
-- - Commit (coding_tools_mcp/patching.py, `AtomicPatchCommitter` and `FileBaseline`): the commit of
--   staged files. The file system is a function from paths to nodes; `commit` takes the answers of the
--   operating system from a list, so that any call may be refused. `Path.parents` and SHA-256 are
--   parameters; temporary files and backups are maps by path, since `mkstemp` gives unused names. Nobody
--   else writes during a commit, the path of a change is no symbolic link (its resolution follows or
--   refuses one), and `fsync` is not modelled.
-- - Lease (coding_tools_mcp/writer_lease.py, coding_tools_mcp/state_store.py): the leases that let one
--   logical context at a time write to a branch. The lease directory is a dict from path to record;
--   `Lease.Acquire` and `Lease.Release` have the operations, `Lease.Calls` their sequences. The time is
--   an argument in whole seconds. `lease_path`, which makes a hash, is a parameter, and so is what the
--   operating system makes of a write.
-- - OAuth (coding_tools_mcp/oauth.py, and the OAuth handlers of `MCPHandler` in
--   coding_tools_mcp/server.py): the registry of clients in `OAuth.Registry`, the authorization handlers in
--   `OAuth.Authorize`, the exchange of a code in `OAuth.Token`, sequences of requests in `OAuth.Traces`.
--   SHA-256, `urlsplit` and the signing of a token are parameters; a random code or name is an argument.
--   A body is the form that it holds. Time is in whole seconds. The texts that `compare_digest` compares
--   are ASCII; it raises on others. The server is configured for OAuth and has one base URL.
-- - Truncation (coding_tools_mcp/textutils.py): the cuts of a text to a number of lines and of bytes. A
--   text is a list of code points without surrogates, `Truncation.Utf8` has its encoding.
-- - Transaction (coding_tools_mcp/transactions.py, `ExecutionTransaction`): what a command changed in its
--   snapshot, applied to the authoritative tree by `Commit`. `_diff_entries` is `diff_entries`, and
--   `finish` is `finish_transaction`. The two snapshots and the bytes of the snapshot's files are
--   arguments; the text of the diff is not modelled.
--
-- Bounds: the models recur on their inputs and take no fuel; the limit of contexts is an argument of
-- `create`, which the traces set to 512.
--
-- Not modelled: HTTP and stdio transports, process spawning, the desktop client, the command line and
-- the installer, which are input and output; the dispatch of tools in coding_tools_mcp/server.py.
pub mod Base
pub mod Commit
pub mod Lease
pub mod OAuth
pub mod Patch
pub mod Paths
pub mod Policy
pub mod Process
pub mod Session
pub mod Transaction
pub mod Truncation

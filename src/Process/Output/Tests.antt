-- ===== src/Process/Output/Tests.antt =====
-- A buffer of four bytes of coding_tools_mcp/processes.py, `ExecSession`.
use devmcp_runtime.Process.Output.Log.{
  OutputOp, Follows, write_op, run_output, written, read_op, run_output-log, read_since_cursor-log,
  unread_after,
}
use devmcp_runtime.Process.Output.{read_since_cursor, append_output, empty, trim_buffer}
use devmcp_runtime.Base.{◌≡◌, refl, List, [], ◌∷◌, drop}

abbrev ops : List OutputOp
ops = write_op (1 ∷ 2 ∷ 3 ∷ []) ∷ read_op ∷ write_op (4 ∷ 5 ∷ 6 ∷ []) ∷ write_op (7 ∷ 8 ∷ []) ∷ []

ops_run : read_since_cursor (run_output 4 ops empty) ≡ (
  (1, 5 ∷ 6 ∷ 7 ∷ 8 ∷ []),
  record {
    buffer = 5 ∷ 6 ∷ 7 ∷ 8 ∷ [];
    start_offset = 4;
    cursor = 8;
    total_bytes = 8;
    dropped_bytes = 4;
  },
)
unfolding read_since_cursor run_output append_output trim_buffer
ops_run = refl

run_output-log_example : Follows 4 (written ops) (run_output 4 ops empty)
run_output-log_example = run_output-log 4 ops

read_since_cursor-log_example :
    (read_since_cursor (run_output 4 ops empty)).0.1
    ≡ drop (read_since_cursor (run_output 4 ops empty)).0.0 (unread_after [] ops)
read_since_cursor-log_example = read_since_cursor-log 4 ops

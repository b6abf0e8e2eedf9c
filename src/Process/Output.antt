-- ===== src/Process/Output.antt =====
-- coding_tools_mcp/processes.py, `ExecSession`: the buffer of one output of a process. The fields and
-- methods are there twice in the source, for stdout and for stderr; `Stream` is one of the two.
pub mod Log
mod Tests
use devmcp_runtime.Base.{
  ℕ, zero, suc, ◌+◌, ◌-◌, ◌*◌, ◌/◌, ◌%◌, ◌≤◌, ◌<◌, min, max, String, ◌≡◌, refl, sym, ap, ◌∙◌, subst,
  subst₂, fun_ext, ◌≢◌, ◌↔◌, ◌⊎◌, inl, inr, Bool, true, false, not, ◌&&◌, ◌||◌, Option, none, some,
  List, [], ◌∷◌, ◌++◌, map, arith, eq_iff, ltb, leb, ◌==◌, str_eq, if◌then◌else◌, ltb→lt, lt→ltb,
  leb→le, str_eq_self, str_eq_ne, Bool-cases, Option-cases, if_both, length, take, drop, any, all,
  keep_if, All, length-append, take-append-drop, length-take, length-drop, length-keep_if,
  Exception, tool_failure, runtime_error, value_error, file_exists_error, os_error, Result, ok,
  raised, Exec, ◌>>=◌, ◌>>◌, guard, pure, raise, continue, bind, continue_state, bind_state,
  sequence_ok,
}

abbrev pub Bytes : Type 0
Bytes = List ℕ

pub record Stream : Type 0 where
  pub buffer : Bytes
  pub start_offset : ℕ
  pub cursor : ℕ
  pub total_bytes : ℕ
  pub dropped_bytes : ℕ

abbrev pub empty : Stream
empty = record { buffer = []; start_offset = 0; cursor = 0; total_bytes = 0; dropped_bytes = 0 }

module _ (buffer_limit : ℕ) where
  -- `_trim_buffer`, which returns how many bytes it drops.
  unfoldable pub trim_buffer : Stream → ℕ × Stream
  trim_buffer s =
      let overflow = length s.buffer - buffer_limit in
      if overflow == 0
      then (0, s)
      else (let kept = drop overflow s.buffer in
          (overflow, record s { buffer = kept; start_offset = s.total_bytes - length kept }))

  -- `append_stdout` and `append_stderr`
  unfoldable pub append_output : Bytes → Stream → Stream
  append_output chunk s =
      let grown = record s {
        buffer = s.buffer ++ chunk;
        total_bytes = s.total_bytes + length chunk;
      } in
      let (dropped, trimmed) = trim_buffer grown in
      record trimmed { dropped_bytes = trimmed.dropped_bytes + dropped }

-- The part of `snapshot_since_cursor` under the lock: the bytes omitted, and the bytes read.
unfoldable pub read_since_cursor : Stream → (ℕ × Bytes) × Stream
read_since_cursor s = (
  (s.start_offset - s.cursor, drop (s.cursor - s.start_offset) s.buffer),
  record s { cursor = s.total_bytes },
)

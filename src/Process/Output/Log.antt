-- ===== src/Process/Output/Log.antt =====
-- The buffer of coding_tools_mcp/processes.py against the whole log of what the process wrote.
use devmcp_runtime.Process.Output.{
  Bytes, empty, read_since_cursor, Stream, append_output, trim_buffer,
}
use devmcp_runtime.Base.{
  ℕ, zero, suc, ◌+◌, ◌-◌, ◌≤◌, ◌≡◌, refl, sym, ap, ◌∙◌, subst, List, [], ◌∷◌, ◌++◌, arith, ◌==◌,
  length, drop, length-append, length-drop, if_cases,
}

module _ {ℓ} {A : Type ℓ} where
  drop-nil : (n : ℕ) → drop {A = A} n [] ≡ []
  drop-nil zero = refl
  drop-nil (suc n) = refl

  drop-drop : (m n : ℕ) (xs : List A) → drop m (drop n xs) ≡ drop (n + m) xs
  drop-drop m zero xs = ap (λ i. drop i xs) (omega arith)
  drop-drop m (suc n) [] = drop-nil m ∙ sym (drop-nil (suc n + m))
  drop-drop m (suc n) (x ∷ xs) =
      let next : suc (n + m) ≡ suc n + m = omega arith in
      drop-drop m n xs ∙ ap (λ i. drop i (x ∷ xs)) next

  append-nil : (xs : List A) → xs ++ [] ≡ xs
  append-nil [] = refl
  append-nil (x ∷ xs) = ap (λ l. x ∷ l) (append-nil xs)

  append_assoc : (xs ys zs : List A) → (xs ++ ys) ++ zs ≡ xs ++ (ys ++ zs)
  append_assoc [] ys zs = refl
  append_assoc (x ∷ xs) ys zs = ap (λ l. x ∷ l) (append_assoc xs ys zs)

  drop-append : (n : ℕ) (xs ys : List A) → n ≤ length xs → drop n (xs ++ ys) ≡ drop n xs ++ ys
  drop-append zero xs ys h = refl
  drop-append (suc n) [] ys h = absurd (omega arith)
  drop-append (suc n) (x ∷ xs) ys h = drop-append n xs ys (omega arith)

-- The buffer is the end of the log, and the counters say where it starts.
pub record Follows (limit : ℕ) (log : Bytes) (s : Stream) : Type 0 where
  pub suffix : s.buffer ≡ drop s.start_offset log
  pub total : s.total_bytes ≡ length log
  pub start : s.start_offset + length s.buffer ≡ length log
  pub dropped : s.dropped_bytes ≡ s.start_offset
  pub seen : s.cursor ≤ length log
  pub bounded : length s.buffer ≤ limit

-- What a trim leaves of a buffer that ends the log.
trim_buffer-Follows :
    (limit : ℕ) (log : Bytes) (s : Stream)
    → s.buffer ≡ drop s.start_offset log
    → s.total_bytes ≡ length log
    → s.start_offset + length s.buffer ≡ length log
    → s.cursor ≤ length log
    → s.dropped_bytes ≡ s.start_offset
    → Follows limit log (record (trim_buffer limit s).1 {
      dropped_bytes = (trim_buffer limit s).1.dropped_bytes + (trim_buffer limit s).0;
    })
unfolding trim_buffer
trim_buffer-Follows limit log s suffix total start seen dropped =
    let overflow = length s.buffer - limit in
    let shorter = length-drop overflow s.buffer in
    if_cases
      (λ (p : ℕ × Stream).
        Follows limit log (record p.1 { dropped_bytes = p.1.dropped_bytes + p.0 }))
      (overflow == 0)
      (λ fits. record {
        suffix = suffix;
        total = total;
        start = start;
        dropped = omega (arith, dropped);
        seen = seen;
        bounded = ground (arith, fits);
      })
      (λ over.
        let moved : s.total_bytes - length (drop overflow s.buffer) ≡ s.start_offset + overflow =
          omega (arith, shorter, total, start) in
        record {
          suffix =
              ap (drop overflow) suffix
              ∙ drop-drop overflow s.start_offset log
              ∙ sym (ap (λ n. drop n log) moved);
          total = total;
          start = omega (arith, shorter, total, start);
          dropped = omega (arith, dropped, moved);
          seen = seen;
          bounded = omega (arith, shorter);
        })

-- An append keeps the buffer the end of the log, within its limit.
pub append_output-Follows :
    (limit : ℕ) (log chunk : Bytes) (s : Stream)
    → Follows limit log s
    → Follows limit (log ++ chunk) (append_output limit chunk s)
unfolding append_output
append_output-Follows limit log chunk s h =
    let longer = length-append log chunk in
    trim_buffer-Follows limit (log ++ chunk)
      (record s { buffer = s.buffer ++ chunk; total_bytes = s.total_bytes + length chunk })
      (ap (λ b. b ++ chunk) h.suffix
        ∙ sym (drop-append s.start_offset log chunk (omega (arith, h.start))))
      (omega (arith, h.total, longer))
      (omega (arith, h.start, longer, length-append s.buffer chunk)) (omega (arith, h.seen, longer))
      h.dropped

read_since_cursor-Follows :
    (limit : ℕ) (log : Bytes) (s : Stream)
    → Follows limit log s
    → Follows limit log (read_since_cursor s).1
unfolding read_since_cursor
read_since_cursor-Follows limit log s h = record {
  suffix = h.suffix;
  total = h.total;
  start = h.start;
  dropped = h.dropped;
  seen = omega (arith, h.total);
  bounded = h.bounded;
}

-- What a reader does with a stream, and the log that a sequence of these leaves.
pub data OutputOp : Type 0 where
  write_op : Bytes → OutputOp
  read_op : OutputOp

unfoldable pub run_output : ℕ → List OutputOp → Stream → Stream
run_output limit [] s = s
run_output limit (write_op chunk ∷ ops) s = run_output limit ops (append_output limit chunk s)
run_output limit (read_op ∷ ops) s = run_output limit ops (read_since_cursor s).1

unfoldable pub written : List OutputOp → Bytes
written [] = []
written (write_op chunk ∷ ops) = chunk ++ written ops
written (read_op ∷ ops) = written ops

run_output-Follows :
    (limit : ℕ) (ops : List OutputOp) (log : Bytes) (s : Stream)
    → Follows limit log s
    → Follows limit (log ++ written ops) (run_output limit ops s)
unfolding run_output written
run_output-Follows limit [] log s h = subst (λ l. Follows limit l s) (sym (append-nil log)) h
run_output-Follows limit (write_op chunk ∷ ops) log s h =
    subst (λ l. Follows limit l (run_output limit ops (append_output limit chunk s)))
      (append_assoc log chunk (written ops))
      (run_output-Follows limit ops (log ++ chunk) (append_output limit chunk s)
        (append_output-Follows limit log chunk s h))
run_output-Follows limit (read_op ∷ ops) log s h =
    run_output-Follows limit ops log (read_since_cursor s).1
      (read_since_cursor-Follows limit log s h)

empty-Follows : (limit : ℕ) → Follows limit [] empty
empty-Follows limit = record {
  suffix = refl;
  total = refl;
  start = refl;
  dropped = refl;
  seen = omega arith;
  bounded = omega arith;
}

-- Whatever a process wrote and a reader read before, the buffer is the end of all that was
-- written, no longer than the limit, and the counters tell how much was written and dropped.
pub run_output-log :
    (limit : ℕ) (ops : List OutputOp) → Follows limit (written ops) (run_output limit ops empty)
run_output-log limit ops = run_output-Follows limit ops [] empty (empty-Follows limit)

-- What was written after the last read, by the calls alone.
unfoldable pub unread_after : Bytes → List OutputOp → Bytes
unread_after bytes [] = bytes
unread_after bytes (write_op chunk ∷ ops) = unread_after (bytes ++ chunk) ops
unread_after bytes (read_op ∷ ops) = unread_after [] ops

append_output-cursor :
    (limit : ℕ) (chunk : Bytes) (s : Stream) → (append_output limit chunk s).cursor ≡ s.cursor
unfolding append_output trim_buffer
append_output-cursor limit chunk s = ground arith

drop-length : (xs : Bytes) → drop (length xs) xs ≡ []
drop-length [] = refl
drop-length (x ∷ xs) = drop-length xs

read_since_cursor_end :
    (log : Bytes) (s : Stream)
    → s.total_bytes ≡ length log
    → drop (read_since_cursor s).1.cursor log ≡ []
unfolding read_since_cursor
read_since_cursor_end log s h = ap (λ n. drop n log) h ∙ drop-length log

-- Behind the cursor stands what is unread.
run_output-unread :
    (limit : ℕ) (ops : List OutputOp) (log bytes : Bytes) (s : Stream)
    → Follows limit log s
    → drop s.cursor log ≡ bytes
    → drop (run_output limit ops s).cursor (log ++ written ops) ≡ unread_after bytes ops
unfolding run_output written unread_after
run_output-unread limit [] log bytes s h e = ap (drop s.cursor) (append-nil log) ∙ e
run_output-unread limit (write_op chunk ∷ ops) log bytes s h e =
    ap (drop (run_output limit ops (append_output limit chunk s)).cursor)
      (sym (append_assoc log chunk (written ops)))
    ∙ run_output-unread limit ops (log ++ chunk) (bytes ++ chunk) (append_output limit chunk s)
        (append_output-Follows limit log chunk s h)
        (ap (λ n. drop n (log ++ chunk)) (append_output-cursor limit chunk s)
          ∙ drop-append s.cursor log chunk h.seen
          ∙ ap (λ b. b ++ chunk) e)
run_output-unread limit (read_op ∷ ops) log bytes s h e =
    run_output-unread limit ops log [] (read_since_cursor s).1
      (read_since_cursor-Follows limit log s h) (read_since_cursor_end log s h.total)

read_since_cursor-behind :
    (limit : ℕ) (log : Bytes) (s : Stream)
    → Follows limit log s
    → drop (read_since_cursor s).0.0 (drop s.cursor log) ≡ (read_since_cursor s).0.1
unfolding read_since_cursor
read_since_cursor-behind limit log s h =
    drop-drop (s.start_offset - s.cursor) s.cursor log
    ∙ ap (λ n. drop n log) (omega arith)
    ∙ sym (drop-drop (s.cursor - s.start_offset) s.start_offset log)
    ∙ sym (ap (drop (s.cursor - s.start_offset)) h.suffix)

-- After any writes and reads, a read returns what was written after the last read, less the bytes
-- that it reports as omitted, which are the first of these.
pub read_since_cursor-log :
    (limit : ℕ) (ops : List OutputOp)
    → (read_since_cursor (run_output limit ops empty)).0.1
      ≡ drop (read_since_cursor (run_output limit ops empty)).0.0 (unread_after [] ops)
read_since_cursor-log limit ops =
    let s = run_output limit ops empty in
    sym (read_since_cursor-behind limit (written ops) s (run_output-log limit ops))
    ∙ ap (drop (read_since_cursor s).0.0)
        (run_output-unread limit ops [] [] empty (empty-Follows limit) refl)

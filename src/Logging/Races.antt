-- ===== src/Logging/Races.antt =====
-- A line that is logged while the logger's thread works on the full buffers without the lock.
use embkv.Base.{
  ℕ, ◌≤◌, ◌<◌, ◌≡◌, refl, ap, ◌∙◌, Bool, true, false, [], ◌++◌, append-nil, length, ltb, arith, ok,
  ◌>>=◌, Returns, Returns-bind,
}
use embkv.Proto.{Bytes}
use embkv.Logging.File.{concat, all_written, AlwaysOpens}
use embkv.Logging.{
  FileLogger, capacity, writable_bytes, write_buffer, swap_buffers, log, write_buffers, recycle,
}
use embkv.Logging.Order.{text, IsClean, AllEmpty, Written, write_buffers-Written, next_buffer-clean}

-- A line for which the current buffer has no room starts the next one.
log-moves :
    (msg : Bytes) (l : FileLogger)
    → l.is_running ≡ true
    → AllEmpty l.empty_buffers
    → length msg < capacity
    → writable_bytes l.current_buffer ≤ length msg
    → Returns (λ m. (m.file ≡ l.file) × (m.current_buffer ≡ msg)) (log msg l)
unfolding log swap_buffers write_buffer
log-moves msg l r clean short full =
    let none_left : ltb (length msg) (writable_bytes l.current_buffer) ≡ false =
      ground (arith, full) in
    let fits : ltb (length msg) (writable_bytes []) ≡ true = ground (arith, short) in
    rw (r, none_left, next_buffer-clean l.empty_buffers clean, fits, log) (refl, refl)

-- A line that fills the current buffer after the thread has written the full buffers, and before it
-- recycles them: what the buffer held goes to the empty buffers without being written, so that it
-- is missing from the text, in which the line stands next to what was written before.
pub recycle-loses :
    (opens : ℕ → Bool) (now : ℕ) (l : FileLogger) (msg : Bytes)
    → AlwaysOpens opens
    → IsClean l
    → length msg < capacity
    → writable_bytes l.current_buffer ≤ length msg
    → Returns
        (λ m. text m ≡ (all_written l.file ++ concat l.full_buffers) ++ msg)
        (write_buffers opens now l >>= λ w. (log msg w >>= λ x. ok (recycle x)))
unfolding recycle
recycle-loses opens now l msg can v short full =
    Returns-bind (Written l) (λ m. text m ≡ (all_written l.file ++ concat l.full_buffers) ++ msg)
      (write_buffers opens now l) _ (write_buffers-Written opens now l can)
      (λ w q.
        Returns-bind (λ m. (m.file ≡ w.file) × (m.current_buffer ≡ msg)) _ (log msg w) _
          (log-moves msg w (q.running ∙ v.running) (rw q.empties v.clean) short (rw q.current full))
          (λ m p.
            ap (λ x. (all_written x ++ []) ++ m.current_buffer) p.0
            ∙ ap (λ x. (all_written w.file ++ []) ++ x) p.1
            ∙ ap (λ x. x ++ msg) (append-nil (all_written w.file) ∙ q.file)))

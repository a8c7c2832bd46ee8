-- ===== src/Logging/Rounds.antt =====
-- A round of the logger's thread, with the lines that are logged while it works without the lock.
use embkv.Base.{
  ℕ, ◌+◌, ◌<◌, ◌≡◌, ap, ◌∙◌, sym, Bool, true, List, [], ◌∷◌, ◌++◌, append_assoc, append-nil, length,
  length-append, ltb, arith, ok, ◌>>=◌, Returns, Returns-bind, subst,
}
use embkv.Proto.{Bytes}
use embkv.Logging.File.{concat, all_written, AlwaysOpens}
use embkv.Logging.{
  FileLogger, capacity, writable_bytes, write_buffer, swap_buffers, log, log_all, drop_buffers,
  max_buffer_list_size, write_buffers, keep_two, recycle, work_round,
}
use embkv.Logging.Order.{
  text, IsClean, Adds, swap_buffers-Adds, next_buffer-clean, drop_buffers-few, Written,
  write_buffers-Written, recycle-keep_two,
}

log-room :
    (msg : Bytes) (l : FileLogger)
    → l.is_running ≡ true
    → length l.current_buffer + length msg < capacity
    → log msg l ≡ ok (record l { current_buffer = l.current_buffer ++ msg })
unfolding log write_buffer
log-room msg l runs room =
    let fits : ltb (length msg) (writable_bytes l.current_buffer) ≡ true = ground arith in
    ground (arith, fits, runs)

-- Lines for which the current buffer has room join it.
log_all-room :
    (msgs : List Bytes) (l : FileLogger)
    → l.is_running ≡ true
    → length l.current_buffer + length (concat msgs) < capacity
    → log_all msgs l ≡ ok (record l { current_buffer = l.current_buffer ++ concat msgs })
unfolding log_all
log_all-room [] l runs room =
    ap (λ b. ok (record l { current_buffer = b })) (sym (append-nil l.current_buffer))
log_all-room (msg ∷ rest) l runs room =
    let whole = length-append msg (concat rest) in
    let next : FileLogger = record l { current_buffer = l.current_buffer ++ msg } in
    ap (λ r. r >>= log_all rest) (log-room msg l runs (omega (arith, whole)))
    ∙ log_all-room rest next runs (omega (arith, whole, length-append l.current_buffer msg))
    ∙ ap (λ b. ok (record l { current_buffer = b }))
        (append_assoc l.current_buffer msg (concat rest))

-- What is written, the current buffer behind it, and two texts more.
joined : (a b c d : Bytes) → a ++ ((b ++ c) ++ d) ≡ (a ++ b) ++ (c ++ d)
joined a b c d = ap (λ x. a ++ x) (append_assoc b c d) ∙ sym (append_assoc a b (c ++ d))

-- A round for which there are no more than fourteen full buffers adds the lines that are logged
-- meanwhile, where one buffer has room for them.
pub work_round-Adds :
    (opens : ℕ → Bool) (now : ℕ) (early late : List Bytes) (l : FileLogger)
    → AlwaysOpens opens
    → IsClean l
    → length l.full_buffers < max_buffer_list_size
    → length (concat early) + length (concat late) < capacity
    → Returns (Adds (concat early ++ concat late) l) (work_round opens now early late l)
unfolding work_round
work_round-Adds opens now early late l can v few room =
    let s = swap_buffers l in
    let a = swap_buffers-Adds l v in
    let new : s.current_buffer ≡ [] =
      unfold swap_buffers in next_buffer-clean l.empty_buffers v.clean in
    let none : length s.current_buffer ≡ 0 = ap length new in
    let s1 : FileLogger = record s { current_buffer = s.current_buffer ++ concat early } in
    let size = length-append s.current_buffer (concat early) in
    let few1 : drop_buffers s1 ≡ s1 = drop_buffers-few s1 (
      unfold swap_buffers in omega (arith, length-append l.full_buffers (l.current_buffer ∷ []))) in
    let behind = λ (w : FileLogger). log_all late w >>= λ m. ok (recycle (keep_two m)) in
    subst (Returns (Adds (concat early ++ concat late) l))
      (sym (
        ap (λ r. r >>= λ x. (write_buffers opens now (drop_buffers x) >>= behind))
          (log_all-room early s a.0.running (omega (arith, none, room)))
        ∙ ap (λ x. write_buffers opens now x >>= behind) few1))
      (Returns-bind (Written s1) (Adds (concat early ++ concat late) l) (write_buffers opens now s1)
        behind (write_buffers-Written opens now s1 can)
        (λ w q.
          let m : FileLogger = record w { current_buffer = w.current_buffer ++ concat late } in
          let runs = q.running ∙ a.0.running in
          let k = recycle-keep_two m runs q.resets (rw q.empties a.0.clean) in
          subst (Returns (Adds (concat early ++ concat late) l))
            (sym (
              ap (λ r. r >>= λ x. ok (recycle (keep_two x)))
                (log_all-room late w runs (omega (arith, none, room, size, ap length q.current)))))
            (
              k.0,
              k.1
                  ∙ ap (λ x. x ++ (w.current_buffer ++ concat late)) q.file
                  ∙ ap (λ x. (all_written s.file ++ concat s.full_buffers) ++ (x ++ concat late))
                      q.current
                  ∙ joined (all_written s.file ++ concat s.full_buffers) s.current_buffer
                      (concat early) (concat late)
                  ∙ ap (λ x. x ++ (concat early ++ concat late)) (a.1 ∙ append-nil (text l)),
            )))

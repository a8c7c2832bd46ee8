-- ===== src/Logging/Order.antt =====
-- What the file logger writes: its lines, in the order in which they were logged.
use embkv.Base.{
  ℕ, zero, suc, ◌≤◌, ◌<◌, ◌≡◌, refl, ap, ◌∙◌, sym, Bool, true, false, List, [], ◌∷◌, ◌++◌,
  append_assoc, append-nil, length, map, take, ltb, arith, All, Returns, Returns-map, Returns-bind,
  inl, inr, Bool-cases,
}
use embkv.Proto.{Bytes}
use embkv.Logging.File.{
  LogFile, write, concat, concat-append, all_written, AlwaysOpens, write-all_written,
}
use embkv.Logging.{
  Buffer, FileLogger, capacity, writable_bytes, write_buffer, next_buffer, rest_buffers,
  swap_buffers, log, drop_buffers, max_buffer_list_size, write_all, write_buffers, keep_two,
  recycle,
}

-- What was logged and not dropped: what the files hold, then the full buffers, then the current one.
abbrev pub text : FileLogger → Bytes
text l = (all_written l.file ++ concat l.full_buffers) ++ l.current_buffer

-- Every buffer that is taken for an empty one is empty.
pub record IsClean (l : FileLogger) : Type 0 where
  pub running : l.is_running ≡ true
  pub clean : All (λ b. b ≡ []) l.empty_buffers

pub next_buffer-clean : (bs : List Buffer) → All (λ b. b ≡ []) bs → next_buffer bs ≡ []
next_buffer-clean [] h = refl
next_buffer-clean (b ∷ bs) h = h.0

rest_buffers-clean : (bs : List Buffer) → All (λ b. b ≡ []) bs → All (λ b. b ≡ []) (rest_buffers bs)
rest_buffers-clean [] h = tt
rest_buffers-clean (b ∷ bs) h = h.1

-- A call that gives a clean logger whose text is `more` longer.
abbrev pub Adds : Bytes → FileLogger → FileLogger → Type 0
Adds more l m = IsClean m × (text m ≡ text l ++ more)

-- The full buffers with the current one behind them.
pub moved :
    (l : FileLogger)
    → all_written l.file ++ concat (l.full_buffers ++ l.current_buffer ∷ []) ≡ text l
moved l =
    ap (λ x. all_written l.file ++ x)
      (concat-append l.full_buffers (l.current_buffer ∷ [])
        ∙ ap (λ x. concat l.full_buffers ++ x) (append-nil l.current_buffer))
    ∙ sym (append_assoc (all_written l.file) (concat l.full_buffers) l.current_buffer)

pub swap_buffers-Adds : (l : FileLogger) → IsClean l → Adds [] l (swap_buffers l)
unfolding swap_buffers
swap_buffers-Adds l v = (
  record { running = v.running; clean = rest_buffers-clean l.empty_buffers v.clean },
  ap (λ b. (all_written l.file ++ concat (l.full_buffers ++ l.current_buffer ∷ [])) ++ b)
        (next_buffer-clean l.empty_buffers v.clean)
      ∙ ap (λ x. x ++ []) (moved l),
)

-- A line that is shorter than a buffer is added behind all that was logged.
pub log-Adds :
    (msg : Bytes) (l : FileLogger)
    → IsClean l
    → length msg < capacity
    → Returns (Adds msg l) (log msg l)
unfolding log swap_buffers write_buffer
log-Adds msg l v short = elim (Bool-cases (ltb (length msg) (writable_bytes l.current_buffer))) [
  | inl room ↦
      rw (v.running, room, log)
        (
          record { running = refl; clean = v.clean },
          sym (append_assoc (all_written l.file ++ concat l.full_buffers) l.current_buffer msg),
        )
  | inr none_left ↦
      let fresh = next_buffer-clean l.empty_buffers v.clean in
      let fits : ltb (length msg) (writable_bytes []) ≡ true = ground arith in
      rw (v.running, none_left, fresh, fits, log)
        (
          record { running = refl; clean = rest_buffers-clean l.empty_buffers v.clean },
          ap (λ x. x ++ msg) (moved l),
        )
]

pub write_all-all_written :
    (opens : ℕ → Bool) (now : ℕ) (bs : List Buffer) (f : LogFile)
    → AlwaysOpens opens
    → Returns (λ g. all_written g ≡ all_written f ++ concat bs) (write_all opens now bs f)
unfolding write_all
write_all-all_written opens now [] f can = sym (append-nil (all_written f))
write_all-all_written opens now (b ∷ bs) f can =
    Returns-bind (λ g. all_written g ≡ all_written f ++ b)
      (λ g. all_written g ≡ all_written f ++ concat (b ∷ bs)) (write opens now b f)
      (write_all opens now bs) (write-all_written opens now b f can)
      (λ g e.
        Returns-map (λ h. all_written h ≡ all_written g ++ concat bs) _ (write_all opens now bs g)
          (λ h q. q ∙ ap (λ x. x ++ concat bs) e ∙ append_assoc (all_written f) b (concat bs))
          (write_all-all_written opens now bs g can))

abbrev pub AllEmpty : List Buffer → Type 0
AllEmpty = All (λ b. b ≡ [])

resets-clean : (bs : List Buffer) → AllEmpty (map (λ b. []) bs)
resets-clean [] = tt
resets-clean (b ∷ bs) = (refl, resets-clean bs)

take-clean : (k : ℕ) (bs : List Buffer) → All (λ b. b ≡ []) bs → All (λ b. b ≡ []) (take k bs)
take-clean zero bs h = tt
take-clean (suc k) [] h = tt
take-clean (suc k) (b ∷ bs) h = (h.0, take-clean k bs h.1)

append-clean :
    (xs ys : List Buffer)
    → All (λ b. b ≡ []) xs
    → All (λ b. b ≡ []) ys
    → All (λ b. b ≡ []) (xs ++ ys)
append-clean [] ys hx hy = hy
append-clean (x ∷ xs) ys hx hy = (hx.0, append-clean xs ys hx.1 hy)

pub drop_buffers-few :
    (l : FileLogger) → length l.full_buffers ≤ max_buffer_list_size → drop_buffers l ≡ l
unfolding drop_buffers
drop_buffers-few l few =
    let below : ltb max_buffer_list_size (length l.full_buffers) ≡ false = ground (arith, few) in
    rw below refl

-- The full buffers have been written to the file and reset; the rest is as before.
pub record Written (l m : FileLogger) : Type 0 where
  pub file : all_written m.file ≡ all_written l.file ++ concat l.full_buffers
  pub resets : AllEmpty m.full_buffers
  pub current : m.current_buffer ≡ l.current_buffer
  pub empties : m.empty_buffers ≡ l.empty_buffers
  pub running : m.is_running ≡ l.is_running

pub write_buffers-Written :
    (opens : ℕ → Bool) (now : ℕ) (l : FileLogger)
    → AlwaysOpens opens
    → Returns (Written l) (write_buffers opens now l)
unfolding write_buffers
write_buffers-Written opens now l can =
    Returns-bind (λ g. all_written g ≡ all_written l.file ++ concat l.full_buffers) (Written l)
      (write_all opens now l.full_buffers l.file) _
      (write_all-all_written opens now l.full_buffers l.file can)
      (λ g e. record {
        file = e;
        resets = resets-clean l.full_buffers;
        current = refl;
        empties = refl;
        running = refl;
      })

-- The buffers that have been written are empty ones again.
pub recycle-keep_two :
    (m : FileLogger)
    → m.is_running ≡ true
    → AllEmpty m.full_buffers
    → AllEmpty m.empty_buffers
    → IsClean (recycle (keep_two m))
      × (text (recycle (keep_two m)) ≡ all_written m.file ++ m.current_buffer)
unfolding recycle keep_two
recycle-keep_two m r f e = elim (Bool-cases (ltb 2 (length m.full_buffers))) [
  | inl more ↦
      rw (more, keep_two)
        (
          record {
            running = r;
            clean =
                append-clean m.empty_buffers (take 2 m.full_buffers) e
                  (take-clean 2 m.full_buffers f);
          },
          ap (λ x. x ++ m.current_buffer) (append-nil (all_written m.file)),
        )
  | inr few ↦
      rw (few, keep_two)
        (
          record { running = r; clean = append-clean m.empty_buffers m.full_buffers e f },
          ap (λ x. x ++ m.current_buffer) (append-nil (all_written m.file)),
        )
]

-- ===== src/Logging/Runs.antt =====
-- Whole lives of the file logger.
use embkv.Base.{
  ℕ, ◌+◌, ◌<◌, ◌≡◌, refl, ap, ◌∙◌, sym, Bool, true, List, [], ◌∷◌, ◌++◌, append_assoc, append-nil,
  length, arith, Result, ok, ◌>>=◌, Returns, Returns-map, Returns-bind, Returns-and, Holds, inl,
  inr, Bool-cases, ◌==◌,
}
use embkv.Proto.{Bytes}
use embkv.Logging.File.{concat, all_written, AlwaysOpens}
use embkv.Logging.{FileLogger, capacity, log, max_buffer_list_size, write_all, work_round, finish}
use embkv.Logging.Rounds.{work_round-Adds}
use embkv.Logging.Order.{text, IsClean, Adds, log-Adds, write_all-all_written, moved}

no_bytes : (b : Bytes) → (length b == 0) ≡ true → b ≡ []
no_bytes [] h = refl
no_bytes (x ∷ b) h = absurd (ground arith)

-- What the program does with a logger: it logs a line, or the logger's thread runs a round, in which the
-- lines of the first list are logged while it writes the full buffers, and those of the second list behind
-- that, before it recycles them.
pub data Action : Type 0 where
  line : Bytes → Action
  round : ℕ → List Bytes → List Bytes → Action

unfoldable pub act : (ℕ → Bool) → FileLogger → Action → Result FileLogger
act opens l (Action.line msg) = log msg l
act opens l (Action.round now early late) = work_round opens now early late l

unfoldable pub act_all : (ℕ → Bool) → FileLogger → List Action → Result FileLogger
act_all opens l [] = ok l
act_all opens l (a ∷ rest) = act opens l a >>= λ m. act_all opens m rest

abbrev pub lines : List Action → Bytes
lines [] = []
lines (Action.line msg ∷ rest) = msg ++ lines rest
lines (Action.round now early late ∷ rest) = (concat early ++ concat late) ++ lines rest

lines_first : (a : Action) (rest : List Action) → lines (a ∷ []) ++ lines rest ≡ lines (a ∷ rest)
lines_first (Action.line msg) rest = ap (λ l. l ++ lines rest) (append-nil msg)
lines_first (Action.round now early late) rest =
    ap (λ l. l ++ lines rest) (append-nil (concat early ++ concat late))

-- The lines are shorter than a buffer, no round finds fifteen full buffers, at which it drops all but two,
-- and what is logged during a round is together shorter than a buffer.
abbrev pub NoneDropped : (ℕ → Bool) → FileLogger → List Action → Type 0
NoneDropped opens l [] = Unit {0}
NoneDropped opens l (Action.line msg ∷ rest) =
    (length msg < capacity) × Holds (λ m. NoneDropped opens m rest) (log msg l)
NoneDropped opens l (Action.round now early late ∷ rest) =
    (length l.full_buffers < max_buffer_list_size)
    × (length (concat early) + length (concat late) < capacity)
    × Holds (λ m. NoneDropped opens m rest) (work_round opens now early late l)

act-Adds :
    (opens : ℕ → Bool) (l : FileLogger) (a : Action) (rest : List Action)
    → AlwaysOpens opens
    → IsClean l
    → NoneDropped opens l (a ∷ rest)
    → Returns (λ m. Adds (lines (a ∷ [])) l m × NoneDropped opens m rest) (act opens l a)
unfolding act
act-Adds opens l (Action.line msg) rest can v d =
    Returns-and (Adds (msg ++ []) l) (λ m. NoneDropped opens m rest) (log msg l)
      (rw (append-nil msg) (log-Adds msg l v d.0)) d.1
act-Adds opens l (Action.round now early late) rest can v d =
    Returns-and (Adds ((concat early ++ concat late) ++ []) l) (λ m. NoneDropped opens m rest)
      (work_round opens now early late l)
      (rw (append-nil (concat early ++ concat late))
        (work_round-Adds opens now early late l can v d.0 d.1))
      d.2

act_all-Adds :
    (opens : ℕ → Bool) (l : FileLogger) (acts : List Action)
    → AlwaysOpens opens
    → IsClean l
    → NoneDropped opens l acts
    → Returns (Adds (lines acts) l) (act_all opens l acts)
unfolding act_all
act_all-Adds opens l [] can v d = (v, sym (append-nil (text l)))
act_all-Adds opens l (a ∷ rest) can v d =
    Returns-bind (λ m. Adds (lines (a ∷ [])) l m × NoneDropped opens m rest)
      (Adds (lines (a ∷ rest)) l) (act opens l a) (λ m. act_all opens m rest)
      (act-Adds opens l a rest can v d)
      (λ m q.
        Returns-map (Adds (lines rest) m) (Adds (lines (a ∷ rest)) l) (act_all opens m rest)
          (λ x p. (
            p.0,
            p.1
                ∙ ap (λ t. t ++ lines rest) q.0.1
                ∙ append_assoc (text l) (lines (a ∷ [])) (lines rest)
                ∙ ap (λ t. text l ++ t) (lines_first a rest),
          ))
          (act_all-Adds opens m rest can q.0.0 q.1))

finish-all_written :
    (opens : ℕ → Bool) (now : ℕ) (l : FileLogger)
    → AlwaysOpens opens
    → Returns (λ m. all_written m.file ≡ text l) (finish opens now l)
unfolding finish
finish-all_written opens now l can = elim (Bool-cases (length l.current_buffer == 0)) [
  | inl nothing ↦
      rw (nothing, finish)
        (Returns-bind (λ g. all_written g ≡ all_written l.file ++ concat l.full_buffers) _
          (write_all opens now l.full_buffers l.file) _
          (write_all-all_written opens now l.full_buffers l.file can)
          (λ g e.
            e
            ∙ sym (append-nil (all_written l.file ++ concat l.full_buffers))
            ∙ ap (λ b. (all_written l.file ++ concat l.full_buffers) ++ b)
                (sym (no_bytes l.current_buffer nothing))))
  | inr some_bytes ↦
      rw (some_bytes, finish)
        (Returns-bind
          (λ g.
            all_written g ≡ all_written l.file ++ concat (l.full_buffers ++ l.current_buffer ∷ []))
          _ (write_all opens now (l.full_buffers ++ l.current_buffer ∷ []) l.file) _
          (write_all-all_written opens now (l.full_buffers ++ l.current_buffer ∷ []) l.file can)
          (λ g e. e ∙ moved l))
]

-- From a clean logger, whatever lines are logged and whenever its thread runs a round, also
-- lines that are logged while the round writes its buffers and before it recycles them, the
-- files hold all lines in the order in which they were logged, behind what the logger held, once
-- the thread has finished: where each line is shorter than a buffer, the lines that are logged
-- during one round are together shorter than a buffer, no round finds fifteen full buffers, and
-- the files can be opened.
pub logged-all_written :
    (opens : ℕ → Bool) (now : ℕ) (l : FileLogger) (acts : List Action)
    → AlwaysOpens opens
    → IsClean l
    → NoneDropped opens l acts
    → Returns
        (λ m. all_written m.file ≡ text l ++ lines acts)
        (act_all opens l acts >>= λ m. finish opens now m)
logged-all_written opens now l acts can v d =
    Returns-bind (Adds (lines acts) l) (λ m. all_written m.file ≡ text l ++ lines acts)
      (act_all opens l acts) (λ m. finish opens now m) (act_all-Adds opens l acts can v d)
      (λ m q.
        Returns-map (λ x. all_written x.file ≡ text m)
          (λ x. all_written x.file ≡ text l ++ lines acts) (finish opens now m) (λ x e. e ∙ q.1)
          (finish-all_written opens now m can))

-- ===== src/Logging/File.antt =====
-- embkv/include/log/file.h: a log file, and the files before it.
use embkv.Base.{
  ℕ, ◌+◌, ◌≤◌, ◌<◌, ◌≡◌, refl, ap, ◌∙◌, sym, Bool, true, List, [], ◌∷◌, ◌++◌, append_assoc,
  append-nil, length, ltb, if◌then◌else◌, arith, Result, ok, fault, runtime_error, Returns,
  Returns-map, length-append, inl, inr, Bool-cases,
}
use embkv.Proto.{Bytes}

-- `closed` are the contents of the files before, the oldest first; `content` is that of the file that
-- is open.
pub record LogFile : Type 0 where
  pub closed : List Bytes
  pub content : Bytes
  pub max_file_size : ℕ
  pub cur_file_size : ℕ
  pub last_roll_second : ℕ

-- `roll` opens a new file, unless one was opened in this second.
unfoldable pub roll : (ℕ → Bool) → ℕ → LogFile → Result LogFile
roll opens now f =
    if ltb f.last_roll_second now
    then if opens now
      then ok (record f {
        closed = f.closed ++ f.content ∷ [];
        content = [];
        cur_file_size = 0;
        last_roll_second = now;
      })
      else fault runtime_error
    else ok f

unfoldable pub write : (ℕ → Bool) → ℕ → Bytes → LogFile → Result LogFile
unfolding roll
write opens now bytes f =
    let g = record f {
      content = f.content ++ bytes;
      cur_file_size = f.cur_file_size + length bytes;
    } in
    if ltb g.max_file_size g.cur_file_size then roll opens now g else ok g

abbrev pub concat : List Bytes → Bytes
concat [] = []
concat (b ∷ bs) = b ++ concat bs

-- All that was written, over all files.
abbrev pub all_written : LogFile → Bytes
all_written f = concat f.closed ++ f.content

pub concat-append : (xs ys : List Bytes) → concat (xs ++ ys) ≡ concat xs ++ concat ys
concat-append [] ys = refl
concat-append (x ∷ xs) ys =
    ap (λ l. x ++ l) (concat-append xs ys) ∙ sym (append_assoc x (concat xs) (concat ys))

abbrev pub AlwaysOpens : (ℕ → Bool) → Type 0
AlwaysOpens opens = (now : ℕ) → opens now ≡ true

-- The file is as long as its size says, and has been rolled as soon as it was longer than the limit
-- and a second had passed.
pub record IsFile (now : ℕ) (f : LogFile) : Type 0 where
  pub sized : f.cur_file_size ≡ length f.content
  pub rolled : f.max_file_size < f.cur_file_size → now ≤ f.last_roll_second

pub roll-all_written :
    (opens : ℕ → Bool) (now : ℕ) (f : LogFile)
    → AlwaysOpens opens
    → Returns (λ g. all_written g ≡ all_written f) (roll opens now f)
unfolding roll
roll-all_written opens now f can = elim (Bool-cases (ltb f.last_roll_second now)) [
  | inr same ↦ rw (same, roll) refl
  | inl later ↦
      rw (later, can now, roll)
        (append-nil (concat (f.closed ++ f.content ∷ []))
          ∙ concat-append f.closed (f.content ∷ [])
          ∙ ap (λ l. concat f.closed ++ l) (append-nil f.content))
]

-- A write adds its bytes behind all that was written, whether the file is rolled or not.
pub write-all_written :
    (opens : ℕ → Bool) (now : ℕ) (bytes : Bytes) (f : LogFile)
    → AlwaysOpens opens
    → Returns (λ g. all_written g ≡ all_written f ++ bytes) (write opens now bytes f)
unfolding write
write-all_written opens now bytes f can =
    let g = record f {
      content = f.content ++ bytes;
      cur_file_size = f.cur_file_size + length bytes;
    } in
    let grown : all_written g ≡ all_written f ++ bytes =
      sym (append_assoc (concat f.closed) f.content bytes) in
    elim (Bool-cases (ltb f.max_file_size (f.cur_file_size + length bytes))) [
      | inr small ↦ rw (small, write) grown
      | inl large ↦
          rw (large, write)
            (Returns-map (λ h. all_written h ≡ all_written g)
              (λ h. all_written h ≡ all_written f ++ bytes) (roll opens now g) (λ h q. q ∙ grown)
              (roll-all_written opens now g can))
    ]

-- After a write the size on record is that of the open file, and the file is longer than the limit only
-- if it was opened in this second.
pub write-IsFile :
    (opens : ℕ → Bool) (now : ℕ) (bytes : Bytes) (f : LogFile)
    → AlwaysOpens opens
    → f.cur_file_size ≡ length f.content
    → Returns (IsFile now) (write opens now bytes f)
unfolding write roll
write-IsFile opens now bytes f can sized = ground (arith, can now, length-append f.content bytes)

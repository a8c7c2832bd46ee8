-- ===== src/Logging.antt =====
-- embkv/include/log: the levels, the buffer, the file and the two loggers.
pub mod File
pub mod Order
pub mod Runs
pub mod Rounds
pub mod Races
use embkv.Base.{
  ℕ, zero, suc, ◌+◌, ◌-◌, ◌*◌, ◌≤◌, ◌<◌, Bool, true, false, not, Option, none, some, List, [], ◌∷◌,
  ◌++◌, map, length, take, ltb, ◌==◌, if◌then◌else◌, Result, ok, fault, failed_assert, ◌>>=◌,
}
use embkv.Proto.{Bytes}
use embkv.Logging.File.{LogFile, write}

pub data LogLevel : Type 0 where
  debug info warn error fatal : LogLevel

-- The order of the enumeration.
abbrev pub level_number : LogLevel → ℕ
level_number LogLevel.debug = 0
level_number LogLevel.info = 1
level_number LogLevel.warn = 2
level_number LogLevel.error = 3
level_number LogLevel.fatal = 4

-- The buffer: what was written since the last reset. Its capacity is 4000 KB.
abbrev pub Buffer : Type 0
Buffer = Bytes

abbrev pub capacity : ℕ
capacity = 4000 * 1024

abbrev pub writable_bytes : Buffer → ℕ
writable_bytes buffer = capacity - length buffer

-- LogBuffer::write, with its assertion.
unfoldable pub write_buffer : Bytes → Buffer → Result Buffer
write_buffer str buffer =
    if ltb (length str) (writable_bytes buffer) then ok (buffer ++ str) else fault failed_assert

-- FileLogger
pub record FileLogger : Type 0 where
  pub level : LogLevel
  pub file : LogFile
  pub current_buffer : Buffer
  pub empty_buffers : List Buffer
  pub full_buffers : List Buffer
  pub is_running : Bool

-- The next buffer for the messages: an empty one, or a new one.
abbrev pub next_buffer : List Buffer → Buffer
next_buffer [] = []
next_buffer (b ∷ bs) = b

abbrev pub rest_buffers : List Buffer → List Buffer
rest_buffers [] = []
rest_buffers (b ∷ bs) = bs

-- `full_buffers_.push_back(std::move(current_buffer_))` and the buffer that takes its place.
unfoldable pub swap_buffers : FileLogger → FileLogger
swap_buffers l = record l {
  full_buffers = l.full_buffers ++ l.current_buffer ∷ [];
  current_buffer = next_buffer l.empty_buffers;
  empty_buffers = rest_buffers l.empty_buffers;
}

-- FileLogger::log, with the line `msg` that it has formatted.
unfoldable pub log : Bytes → FileLogger → Result FileLogger
unfolding write_buffer swap_buffers
log msg l =
    if not l.is_running
    then ok l
    else if ltb (length msg) (writable_bytes l.current_buffer)
    then (write_buffer msg l.current_buffer >>= λ b. ok (record l { current_buffer = b }))
    else (let s = swap_buffers l in
        write_buffer msg s.current_buffer >>= λ b. ok (record s { current_buffer = b }))

-- Calls of log, one after the other.
unfoldable pub log_all : List Bytes → FileLogger → Result FileLogger
unfolding log
log_all [] l = ok l
log_all (msg ∷ rest) l = log msg l >>= λ m. log_all rest m

-- BaseLogger::format: messages below the level are left out.
unfoldable pub format : LogLevel → Bytes → FileLogger → Result FileLogger
unfolding log
format level msg l = if ltb (level_number level) (level_number l.level) then ok l else log msg l

-- The parts of a round of FileLogger::work behind the swap, which it runs without the lock.
abbrev pub max_buffer_list_size : ℕ
max_buffer_list_size = 15

unfoldable pub drop_buffers : FileLogger → FileLogger
drop_buffers l =
    if ltb max_buffer_list_size (length l.full_buffers)
    then record l { full_buffers = take 2 l.full_buffers }
    else l

-- `opens` says in which seconds a new file can be opened; `now` is the second of the writes.
module _ (opens : ℕ → Bool) (now : ℕ) where
  unfoldable pub write_all : List Buffer → LogFile → Result LogFile
  unfolding write
  write_all [] f = ok f
  write_all (b ∷ bs) f = write opens now b f >>= λ g. write_all bs g

  unfoldable pub write_buffers : FileLogger → Result FileLogger
  unfolding write_all
  write_buffers l = write_all l.full_buffers l.file >>= λ f.
      ok (record l { file = f; full_buffers = map (λ b. []) l.full_buffers })

unfoldable pub keep_two : FileLogger → FileLogger
keep_two l =
    if ltb 2 (length l.full_buffers) then record l { full_buffers = take 2 l.full_buffers } else l

-- `empty_buffers_.splice(empty_buffers_.end(), full_buffers_)`
unfoldable pub recycle : FileLogger → FileLogger
recycle l = record l { empty_buffers = l.empty_buffers ++ l.full_buffers; full_buffers = [] }

module _ (opens : ℕ → Bool) (now : ℕ) where
  -- A round of the loop. It has the lock for the swap only: `early` are the lines that are logged while it
  -- drops and writes the full buffers, `late` those that are logged behind that, up to the splice.
  unfoldable pub work_round : List Bytes → List Bytes → FileLogger → Result FileLogger
  unfolding swap_buffers log_all drop_buffers write_buffers keep_two recycle
  work_round early late l = log_all early (swap_buffers l) >>= λ s.
      write_buffers opens now (drop_buffers s) >>= λ w.
      log_all late w >>= λ m. ok (recycle (keep_two m))

  -- Behind the loop: what is left goes to the file.
  unfoldable pub finish : FileLogger → Result FileLogger
  unfolding write_all
  finish l =
      let fulls =
        if length l.current_buffer == 0
        then l.full_buffers
        else l.full_buffers ++ l.current_buffer ∷ [] in
      write_all opens now fulls l.file >>= λ f. ok (record l { file = f; full_buffers = fulls })

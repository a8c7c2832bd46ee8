-- ===== src/Log.antt =====
-- embkv/include/raft/log.h and embkv/src/raft/log.cpp: the log of a node.
pub mod Contiguous
use embkv.Base.{
  ℕ, ◌+◌, ◌-◌, List, [], ◌∷◌, ◌++◌, Option, none, some, ◌||◌, length, get_elem?, ltb, ◌==◌,
  if◌then◌else◌, add64, Result, ok, fault, out_of_range,
}
use embkv.Proto.{EntryMeta}

pub record RaftLog : Type 0 where
  pub entries : List EntryMeta
  pub start_index : ℕ
  pub last_log_index : ℕ
  pub last_log_term : ℕ

-- `RaftLog(start_index)`; the node has `start_index = 0`.
unfoldable pub empty : ℕ → RaftLog
empty start = record { entries = []; start_index = start; last_log_index = 0; last_log_term = 0 }

-- `entries_.at(index - 1)`
at : List EntryMeta → ℕ → Result (Option EntryMeta)
at es i = elim (get_elem? es i) [ none ↦ fault out_of_range | some e ↦ ok (some e) ]

unfoldable pub entry_at : RaftLog → ℕ → Result (Option EntryMeta)
unfolding at
entry_at log index =
    if ltb (add64 (length log.entries) log.start_index) index || index == 0
    then ok none
    else at log.entries (index - 1)

unfoldable pub append_entry : RaftLog → EntryMeta → RaftLog
append_entry log entry = record log {
  entries = log.entries ++ entry ∷ [];
  last_log_index = entry.index;
  last_log_term = entry.term;
}

-- The loop over the entries of a request.
unfoldable pub append_all : RaftLog → List EntryMeta → RaftLog
unfolding append_entry
append_all log [] = log
append_all log (e ∷ es) = append_all (append_entry log e) es

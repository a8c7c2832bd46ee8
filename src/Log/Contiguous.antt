-- ===== src/Log/Contiguous.antt =====
-- The log as the array that Raft describes: entry `i` stands at place `i`.
use embkv.Base.{
  ℕ, zero, suc, ◌+◌, ◌-◌, ◌<◌, ◌≡◌, refl, ap, ◌∙◌, List, [], ◌∷◌, ◌++◌, Option, none, some, arith,
  length, get_elem?, length-append, get_elem?-some, get_elem?-none, ok, u64_mod, sym, append-nil,
  append_assoc,
}
use embkv.Proto.{EntryMeta}
use embkv.Log.{RaftLog, entry_at, append_entry, append_all, empty}

-- The entry at a place counted from 1, where there is one.
abbrev pub nth : List EntryMeta → ℕ → Option EntryMeta
nth es zero = none
nth es (suc i) = get_elem? es i

-- No log of the node starts later than at 0, and a vector holds fewer than 2 ^ 64 entries.
pub record Fits (log : RaftLog) : Type 0 where
  pub from_start : log.start_index ≡ 0
  pub small : length log.entries < u64_mod

-- For such a log `entry_at` throws nothing: it is the array lookup, at any index.
pub entry_at-eq-nth : (log : RaftLog) (i : ℕ) → Fits log → entry_at log i ≡ ok (nth log.entries i)
unfolding entry_at
entry_at-eq-nth log zero f = ground arith
entry_at-eq-nth log (suc i) f =
    let e : suc i - 1 ≡ i = omega arith in
    ground (
      arith,
      ap (get_elem? log.entries) e,
      get_elem?-some log.entries i,
      get_elem?-none log.entries i,
    )

-- The indices of the entries count up from `k + 1`.
abbrev pub Numbered : ℕ → List EntryMeta → Type 0
Numbered k [] = Unit {0}
Numbered k (e ∷ es) = (e.index ≡ suc k) × Numbered (suc k) es

-- The log holds the entries 1, 2, ... up to `last_log_index`.
pub record IsContiguous (log : RaftLog) : Type 0 where
  pub from_start : log.start_index ≡ 0
  pub last : log.last_log_index ≡ length log.entries
  pub numbered : Numbered 0 log.entries

pub Numbered-append_one :
    (k : ℕ) (es : List EntryMeta) (e : EntryMeta)
    → Numbered k es
    → e.index ≡ suc (k + length es)
    → Numbered k (es ++ e ∷ [])
Numbered-append_one k [] e h p = omega arith
Numbered-append_one k (x ∷ es) e h p = (h.0, Numbered-append_one (suc k) es e h.1 (omega arith))

-- In a contiguous log the entry at place `i` is the entry with index `i`.
pub Numbered-index :
    (k : ℕ) (es : List EntryMeta) (i : ℕ) (e : EntryMeta)
    → Numbered k es
    → get_elem? es i ≡ some e
    → e.index ≡ suc (k + i)
Numbered-index k [] i e h p = cc
Numbered-index k (x ∷ es) zero e h p = ground (arith, h.0)
Numbered-index k (x ∷ es) (suc i) e h p = omega (arith, Numbered-index (suc k) es i e h.1 p)

pub empty-IsContiguous : IsContiguous (empty 0)
unfolding empty
empty-IsContiguous = record { from_start = refl; last = refl; numbered = tt }

pub append_entry-IsContiguous :
    (log : RaftLog) (e : EntryMeta)
    → IsContiguous log
    → e.index ≡ suc log.last_log_index
    → IsContiguous (append_entry log e)
unfolding append_entry
append_entry-IsContiguous log e c p = record {
  from_start = c.from_start;
  last = omega (arith, c.last, length-append log.entries (e ∷ []));
  numbered = Numbered-append_one 0 log.entries e c.numbered (omega (arith, c.last));
}

-- Appending keeps the start, and every entry that is there.
pub entries-append_all :
    (log : RaftLog) (es : List EntryMeta)
    → ((append_all log es).entries ≡ log.entries ++ es)
      × ((append_all log es).start_index ≡ log.start_index)
unfolding append_all
entries-append_all log [] = (sym (append-nil log.entries), refl)
entries-append_all log (e ∷ es) =
    let ih = entries-append_all (append_entry log e) es in
    (ih.0 ∙ append_assoc log.entries (e ∷ []) es, ih.1)

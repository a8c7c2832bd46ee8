-- ===== src/Node/Append/Follower.antt =====
-- What an append-entries request does at its receiver.
use embkv.Base.{◌≡◌, ◌≢◌, ◌<◌, ◌⊎◌, some, [], ◌∷◌, ◌++◌}
use embkv.Proto.{EntryMeta, Message, AppendEntriesRequest, Content, Priority}
use embkv.Log.{RaftLog}
use embkv.Log.Contiguous.{nth}
use embkv.Node.{RaftNode, Effect, message}
use embkv.Node.Append.{accept_response, reject_response}

-- The log has the entry that the leader's new entries follow.
abbrev pub HasPrev : RaftLog → AppendEntriesRequest → Type 0
HasPrev log req =
    (req.prev_log_index ≡ 0)
    ⊎ ((e : EntryMeta) × (nth log.entries req.prev_log_index ≡ some e)
        × (e.term ≡ req.prev_log_term))

module _ {M : Type 0} where
  -- Accepted: the entries stand at the end of the log, and the reply tells the last index.
  pub record Accepts (n : RaftNode M) (req : AppendEntriesRequest) (m : RaftNode M) : Type 0 where
    pub prev : HasPrev n.log req
    pub entries : m.log.entries ≡ n.log.entries ++ req.entries
    pub sent :
        m.out
        ≡ n.out
          ++ Effect.to_pipelines
              (message n (Content.append_entries_response (accept_response req m.log)))
              Priority.high
            ∷ []

  -- Refused: the log stays, and the reply names the index at which the leader has to start again.
  pub record Refuses (n : RaftNode M) (req : AppendEntriesRequest) (m : RaftNode M) : Type 0 where
    pub no_prev : ¬ HasPrev n.log req
    pub log_same : m.log ≡ n.log
    pub sent :
        m.out
        ≡ n.out
          ++ Effect.to_pipelines
              (message n (Content.append_entries_response (reject_response req n.log)))
              Priority.high
            ∷ []

  -- What is left as it is while the leader's term and commit index are followed.
  abbrev pub Unread : RaftNode M → RaftNode M → Type 0
  Unread n mid = (mid.log ≡ n.log) × (mid.config ≡ n.config)

  -- A request of another cluster or of an old term.
  abbrev pub IsIgnored : RaftNode M → Message → AppendEntriesRequest → Type 0
  IsIgnored n msg req = (msg.cluster_id ≢ n.config.cluster_id) ⊎ (req.term < n.st.current_term)

  -- What is done with a request that is not ignored: `mid` is the node once it has followed the leader's
  -- term and commit index.
  abbrev pub Decides : RaftNode M → AppendEntriesRequest → RaftNode M → Type 0
  Decides n req m = (mid : RaftNode M) × Unread n mid × (Accepts mid req m ⊎ Refuses mid req m)

-- ===== src/Cluster/Replicas/Follower.antt =====
-- The other node at a message of the leader.
use embkv.Base.{
  ℕ, ◌≤◌, ◌≡◌, refl, sym, ap, ◌∙◌, true, false, some, [], ◌∷◌, ◌++◌, arith, ok, length, Returns,
  Returns-bind, Returns-map, Bool-cases, inl, inr, ltb,
}
use embkv.Proto.{EntryMeta, Message, AppendEntriesRequest}
use embkv.Log.{RaftLog, append_entry, append_all}
use embkv.Log.Contiguous.{Fits, entry_at-eq-nth}
use embkv.Node.{RaftNode, Services}
use embkv.Node.Vote.{is_stale, follow_term}
use embkv.Status.{handle_higher_term}
use embkv.Node.Apply.Replay.{Replays, Replays-append, apply-Replays}
use embkv.Node.Apply.{apply_to_state_machine}
use embkv.Node.Append.{
  handle_append_entries_request, follow_commit, receive_entries, append_entries, finish_append,
  prev_matches,
}
use embkv.Node.Client.Replicate.{term_at}

-- The entry before the new ones is there.
pub prev_matches-true :
    (log : RaftLog) (req : AppendEntriesRequest)
    → Fits log
    → term_at log.entries req.prev_log_index ≡ some req.prev_log_term
    → prev_matches log req ≡ ok true
unfolding prev_matches
prev_matches-true log req f e = ground (arith, entry_at-eq-nth log req.prev_log_index f)

module _ {M : Type 0} (s : Services M) (first : M) where
  -- What the node has applied of its log, and up to where.
  pub record Caught (f : RaftNode M) (term k : ℕ) (g : RaftNode M) : Type 0 where
    pub replays : Replays s first g
    pub log_same : g.log ≡ f.log
    pub commit : g.st.commit_index ≡ k
    pub term_is : g.st.current_term ≡ term
    pub config_same : g.config ≡ f.config

  follow_term-Caught :
      (term : ℕ) (f : RaftNode M)
      → f.st.current_term ≤ term
      → Replays s first f
      → Caught f term f.st.commit_index (follow_term term f)
  unfolding follow_term handle_higher_term
  follow_term-Caught term f le r = ground arith

  -- A larger commit index is taken over, and everything up to it is applied.
  follow_commit-Caught :
      (term k : ℕ) (f : RaftNode M)
      → Fits f.log
      → f.st.last_applied ≡ f.st.commit_index
      → f.st.commit_index ≤ k
      → k ≤ length f.log.entries
      → Replays s first f
      → f.st.current_term ≡ term
      → Returns (Caught f term k) (follow_commit s k f)
  unfolding follow_commit
  follow_commit-Caught term k f fits synced le within r same =
      elim (Bool-cases (ltb f.st.commit_index k)) [
        | inr done ↦
            rw (done, follow_commit)
              (record {
                replays = r;
                log_same = refl;
                commit = ground arith;
                term_is = same;
                config_same = refl;
              })
        | inl more ↦
            rw (more, follow_commit)
              (Returns-map _ (Caught f term k) (apply_to_state_machine s k f)
                (λ g q. record {
                  replays = q.0;
                  log_same = q.1.0.log_same;
                  commit = q.1.0.commit_same;
                  term_is = q.1.0.term_same ∙ same;
                  config_same = q.1.0.config_same;
                })
                (apply-Replays s first k f fits (omega (arith, synced)) within r))
      ]

  -- The first part of the handler: the term and the commit index of the leader.
  pub catch_up-Caught :
      (term k : ℕ) (f : RaftNode M)
      → Fits f.log
      → f.st.last_applied ≡ f.st.commit_index
      → f.st.current_term ≤ term
      → f.st.commit_index ≤ k
      → k ≤ length f.log.entries
      → Replays s first f
      → Returns (Caught f term k) (follow_commit s k (follow_term term f))
  catch_up-Caught term k f fits synced behind le within r =
      let up : RaftNode M = follow_term term f in
      let c = follow_term-Caught term f behind r in
      let log : up.log ≡ f.log = c.log_same in
      let applied : up.st.last_applied ≡ f.st.last_applied =
        unfold follow_term handle_higher_term in ground arith in
      Returns-map (Caught up term k) (Caught f term k) (follow_commit s k up)
        (λ g q. record {
          replays = q.replays;
          log_same = q.log_same ∙ log;
          commit = q.commit;
          term_is = q.term_is;
          config_same = q.config_same ∙ c.config_same;
        })
        (follow_commit-Caught term k up
          (record {
            from_start = ap (λ (l : RaftLog). l.start_index) log ∙ fits.from_start;
            small = omega (arith, fits.small, ap (λ (l : RaftLog). length l.entries) log);
          })
          (applied ∙ synced ∙ sym c.commit) (omega (arith, c.commit))
          (omega (arith, ap (λ (l : RaftLog). length l.entries) log)) c.replays c.term_is)

  -- A heartbeat of the leader.
  pub heartbeat-Caught :
      (now : ℕ) (f : RaftNode M) (msg : Message) (req : AppendEntriesRequest)
      → Fits f.log
      → f.st.last_applied ≡ f.st.commit_index
      → msg.cluster_id ≡ f.config.cluster_id
      → f.st.current_term ≤ req.term
      → f.st.commit_index ≤ req.leader_commit
      → req.leader_commit ≤ length f.log.entries
      → Replays s first f
      → req.is_heartbeat ≡ true
      → Returns
          (Caught f req.term req.leader_commit)
          (handle_append_entries_request s now f msg req)
  unfolding handle_append_entries_request receive_entries
  heartbeat-Caught now f msg req fits synced same behind le within r beat =
      let fresh : is_stale f msg req.term ≡ false = unfold is_stale in ground arith in
      rw (fresh, handle_append_entries_request)
        (Returns-bind (Caught f req.term req.leader_commit) _
          (follow_commit s req.leader_commit (follow_term req.term f)) (receive_entries now msg req)
          (catch_up-Caught req.term req.leader_commit f fits synced behind le within r)
          (λ g q.
            rw (beat, receive_entries)
              (record {
                replays = record { within = q.replays.within; machine = q.replays.machine };
                log_same = q.log_same;
                commit = q.commit;
                term_is = q.term_is;
                config_same = q.config_same;
              })))

  -- The node with the entry behind its log, and nothing else changed.
  pub record Took (f : RaftNode M) (term k : ℕ) (e : EntryMeta) (g : RaftNode M) : Type 0 where
    pub replays : Replays s first g
    pub log_is : g.log ≡ append_entry f.log e
    pub commit : g.st.commit_index ≡ k
    pub term_is : g.st.current_term ≡ term
    pub config_same : g.config ≡ f.config

  finish_append-Took :
      (f g : RaftNode M) (term k : ℕ) (req : AppendEntriesRequest) (e : EntryMeta)
      → req.entries ≡ e ∷ []
      → Caught f term k g
      → Took f term k e (finish_append g req true)
  unfolding finish_append append_all append_entry
  finish_append-Took f g term k req e one q =
      let log : append_all g.log req.entries ≡ append_entry f.log e =
        unfold append_all in ap (append_all g.log) one ∙ ap (λ l. append_entry l e) q.log_same in
      record {
        replays =
            Replays-append s first g _ (e ∷ [])
              (ap (λ (l : RaftLog). l.entries) log
                ∙ ap (λ (l : RaftLog). l.entries ++ e ∷ []) (sym q.log_same))
              refl refl q.replays;
        log_is = log;
        commit = q.commit;
        term_is = q.term_is;
        config_same = q.config_same;
      }

  -- The next entry of the leader.
  pub entry-Took :
      (now : ℕ) (f : RaftNode M) (msg : Message) (req : AppendEntriesRequest) (e : EntryMeta)
      → Fits f.log
      → f.st.last_applied ≡ f.st.commit_index
      → msg.cluster_id ≡ f.config.cluster_id
      → f.st.current_term ≤ req.term
      → f.st.commit_index ≤ req.leader_commit
      → req.leader_commit ≤ length f.log.entries
      → Replays s first f
      → req.is_heartbeat ≡ false
      → req.entries ≡ e ∷ []
      → term_at f.log.entries req.prev_log_index ≡ some req.prev_log_term
      → Returns
          (Took f req.term req.leader_commit e)
          (handle_append_entries_request s now f msg req)
  unfolding handle_append_entries_request receive_entries append_entries
  entry-Took now f msg req e fits synced same behind le within r data_ one prev =
      let fresh : is_stale f msg req.term ≡ false = unfold is_stale in ground arith in
      rw (fresh, handle_append_entries_request)
        (Returns-bind (Caught f req.term req.leader_commit) _
          (follow_commit s req.leader_commit (follow_term req.term f)) (receive_entries now msg req)
          (catch_up-Caught req.term req.leader_commit f fits synced behind le within r)
          (λ g q.
            let found : prev_matches g.log req ≡ ok true =
              ap (λ l. prev_matches l req) q.log_same ∙ prev_matches-true f.log req fits prev in
            rw (data_, receive_entries, found)
              (finish_append-Took f g req.term req.leader_commit req e one q)))

-- ===== src/Cluster/Replicas/Heard.antt =====
-- What the other node makes of one act of the leader.
use embkv.Base.{
  ℕ, suc, ◌≤◌, ◌<◌, ◌≡◌, refl, sym, ap, ◌∙◌, List, [], ◌∷◌, ◌++◌, append_assoc, append-nil, arith,
  ok, u64_mod, length, drop, Returns, Returns-both, Returns-bind, All, ◌>>=◌,
}
use embkv.Proto.{Message, Content, Priority, ClientRequest, AppendEntriesRequest}
use embkv.Log.{RaftLog, append_entry}
use embkv.Node.{RaftNode, Services, Effect, message}
use embkv.Node.Append.{handle_append_entries_request}
use embkv.Node.Client.Replicate.{term_at}
use embkv.Node.Client.{new_entry, append_request}
use embkv.Node.Timers.{dispatch, handle_all, heartbeat_request}
use embkv.Node.Valid.Moves.{Moves, append_request-Moves}
use embkv.Cluster.Replicas.{messages_for, hear}
use embkv.Cluster.Replicas.Follower.{Caught, heartbeat-Caught, Took, entry-Took}
use embkv.Cluster.Replicas.Leader.{Leading, Asks, Hears}
use embkv.Cluster.Replicas.Answers.{IsLocal}
use embkv.Cluster.Replicas.Heartbeat.{Beats}
use embkv.Cluster.Replicas.Pair.{Led, Follows, Same, caught-Same, Follows-Fits, commit-within}

drop-append : {A : Type 0} (xs ys : List A) → drop (length xs) (xs ++ ys) ≡ ys
drop-append [] ys = refl
drop-append (x ∷ xs) ys = drop-append xs ys

-- What is for no peer is not for this one.
messages_for-local :
    (id now : ℕ) (es more : List Effect)
    → All IsLocal es
    → messages_for id now (es ++ more) ≡ messages_for id now more
messages_for-local id now [] more h = refl
messages_for-local id now (Effect.to_client client reply ∷ es) more h =
    messages_for-local id now es more h.1
messages_for-local id now (Effect.to_pipelines m priority ∷ es) more h = absurd h.0
messages_for-local id now (Effect.to_peer peer m ∷ es) more h = absurd h.0
messages_for-local id now (Effect.reset_timer ∷ es) more h = messages_for-local id now es more h.1

module _ {M : Type 0} (s : Services M) (first : M) where
  -- One message for all peers, behind effects that are for none.
  pub heard :
      (now : ℕ) (n m f : RaftNode M) (es : List Effect) (msg : Message) (priority : Priority)
      → m.out ≡ n.out ++ (es ++ Effect.to_pipelines msg priority ∷ [])
      → All IsLocal es
      → hear s now n m f ≡ (dispatch s now f msg msg.content >>= λ g. ok g)
  unfolding hear handle_all
  heard now n m f es msg priority out h =
      let one : List Effect = Effect.to_pipelines msg priority ∷ [] in
      ap (λ l. handle_all s f (messages_for f.config.node_id now (drop (length n.out) l))) out
      ∙ ap (λ l. handle_all s f (messages_for f.config.node_id now l))
          (drop-append n.out (es ++ one))
      ∙ ap (handle_all s f) (messages_for-local f.config.node_id now es one h)

  heard_nothing : (now : ℕ) (n m f : RaftNode M) → m.out ≡ n.out → hear s now n m f ≡ ok f
  unfolding hear handle_all
  heard_nothing now n m f out =
      ap (λ l. handle_all s f (messages_for f.config.node_id now (drop (length n.out) l)))
        (out ∙ sym (append-nil n.out))
      ∙ ap (λ l. handle_all s f (messages_for f.config.node_id now l)) (drop-append n.out [])

  -- The entry of a request reaches the other node.
  pub request_heard :
      (ps : List ℕ) (term len now : ℕ) (n f m : RaftNode M) (req : ClientRequest)
      → suc len < u64_mod
      → Led s first ps term len n
      → Follows s first n f
      → Asks s first n req m
      → Returns (Follows s first m) (hear s now n m f)
  request_heard ps term len now n f m req room a w q =
      let e = new_entry s n req in
      let r : AppendEntriesRequest = append_request n n.log.last_log_index q.prev_term e in
      let msg : Message = message n (Content.append_entries_request r) in
      let same : f.log ≡ n.log = w.log_same in
      let within : n.st.commit_index ≤ length f.log.entries =
        omega
          (arith, commit-within s first n a.leading, ap (λ (l : RaftLog). length l.entries) same) in
      let index : e.index < u64_mod = omega arith in
      let took : Returns (Took s first f n.st.current_term n.st.commit_index e)
          (handle_append_entries_request s now f msg r) =
        entry-Took s first now f msg r e (Follows-Fits s first ps term len n f a w) w.valid.synced
          (sym w.same_cluster) w.term w.commit within w.replays refl refl
          (ap (λ (l : RaftLog). term_at l.entries n.log.last_log_index) same ∙ q.prev) in
      let moved : Returns (Moves f) (handle_append_entries_request s now f msg r) =
        append_request-Moves s now f msg r w.valid a.leading.valid.commit_fits (index, tt) in
      rw (heard now n m f [] msg Priority.medium q.sent tt) (
        unfold dispatch in
        Returns-bind _ (Follows s first m) (handle_append_entries_request s now f msg r) (λ g. ok g)
          (Returns-both _ _ (handle_append_entries_request s now f msg r) took moved)
          (λ g k. record {
            valid = k.1.valid;
            log_same = k.0.log_is ∙ ap (λ l. append_entry l e) same ∙ sym q.log_is;
            same_cluster =
                ap (λ c. c.cluster_id) k.0.config_same
                ∙ w.same_cluster
                ∙ ap (λ c. c.cluster_id) (sym q.config_same);
            term = omega (arith, k.0.term_is, q.term_same);
            commit = omega (arith, k.0.commit, q.commit_same);
            replays = k.0.replays;
          }))

  -- A heartbeat brings the other node up to the leader.
  pub heartbeat_heard :
      (ps : List ℕ) (term len now : ℕ) (n f m : RaftNode M)
      → Led s first ps term len n
      → Follows s first n f
      → Leading s first m
      → Beats s first n m
      → m.peers ≡ n.peers
      → Returns (λ g. Follows s first m g × Same s first (m, g)) (hear s now n m f)
  heartbeat_heard ps term len now n f m a w l b peers =
      let r : AppendEntriesRequest = heartbeat_request m in
      let msg : Message = message n (Content.append_entries_request r) in
      let c = b.commits in
      let same : f.log ≡ m.log = w.log_same ∙ sym c.log_same in
      let caught : Returns (Caught s first f m.st.current_term m.st.commit_index)
          (handle_append_entries_request s now f msg r) =
        heartbeat-Caught s first now f msg r (Follows-Fits s first ps term len n f a w)
          w.valid.synced (sym w.same_cluster) (omega (arith, w.term, c.term_same))
          (omega (arith, w.commit, c.forward))
          (omega (arith, commit-within s first m l, ap (λ (l : RaftLog). length l.entries) same))
          w.replays refl in
      let moved : Returns (Moves f) (handle_append_entries_request s now f msg r) =
        append_request-Moves s now f msg r w.valid l.valid.commit_fits tt in
      let sent = b.sent ∙ append_assoc n.out b.answers _ in
      rw (heard now n m f b.answers msg Priority.critical sent b.for_clients) (
        unfold dispatch in
        Returns-bind _ (λ g. Follows s first m g × Same s first (m, g))
          (handle_append_entries_request s now f msg r) (λ g. ok g)
          (Returns-both _ _ (handle_append_entries_request s now f msg r) caught moved)
          (λ g k.
            let log : g.log ≡ m.log = k.0.log_same ∙ same in
            (
              record {
                valid = k.1.valid;
                log_same = log;
                same_cluster =
                    ap (λ c. c.cluster_id) k.0.config_same
                    ∙ w.same_cluster
                    ∙ ap (λ c. c.cluster_id) (sym c.config_same);
                term = omega (arith, k.0.term_is);
                commit = omega (arith, k.0.commit);
                replays = k.0.replays;
              },
              caught-Same s first m g l.valid k.1.valid l.replays k.0.replays log k.0.term_is
                  k.0.commit,
            )))

  -- The leader hears a reply, of whichever peer.
  pub reply_heard :
      (ps : List ℕ) (term len now : ℕ) (n f m : RaftNode M)
      → Led s first ps term len n
      → Follows s first n f
      → Hears s first n m
      → Returns (Follows s first m) (hear s now n m f)
  reply_heard ps term len now n f m a w q = rw (heard_nothing now n m f q.nothing) (record {
    valid = w.valid;
    log_same = w.log_same ∙ sym q.log_same;
    same_cluster = w.same_cluster ∙ ap (λ c. c.cluster_id) (sym q.config_same);
    term = omega (arith, w.term, q.term_same);
    commit = omega (arith, w.commit, q.commit_same);
    replays = w.replays;
  })

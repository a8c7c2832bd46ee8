-- ===== src/Cluster/Replicas/Leader.antt =====
-- The leader: what it is after each act, and what it has enqueued.
use embkv.Base.{
  ℕ, suc, ◌≤◌, ◌<◌, ◌≡◌, sym, ap, ◌∙◌, subst, true, some, List, [], ◌∷◌, ◌++◌, append-nil, map,
  arith, add64, u64_mod, length, length-append, Holds, Returns, Returns-and, Returns-both,
  Returns-map, Bool-cases, inl, inr, ◌==◌, All,
}
use embkv.Base.Map.{Map, assign}
use embkv.Base.Sets.{contains}
use embkv.Proto.{EntryMeta, Message, Content, Priority, ClientRequest, AppendEntriesResponse}
use embkv.Status.{Role, update_match_index, update_next_index}
use embkv.Log.{RaftLog, append_entry}
use embkv.Log.Contiguous.{IsContiguous}
use embkv.Node.{RaftNode, Services, Effect, message}
use embkv.Node.Apply.Replay.{Replays, Replays-append}
use embkv.Node.Append.{handle_append_entries_response}
use embkv.Node.Client.{
  handle_client_request, record_request, broadcast_entry, new_entry, is_leader, append_request,
}
use embkv.Node.Client.Replicate.{Replicates, client_request-Replicates, term_at}
use embkv.Node.Timers.{match_values}
use embkv.Node.Valid.{IsValid}
use embkv.Node.Valid.Moves.{Moves}
use embkv.Node.Valid.Leader.{client_request-Moves}
use embkv.Node.Valid.Keep.{append_response-IsValid}

pub assign-values :
    (P : ℕ → Type 0) (k v : ℕ) (m : Map ℕ)
    → P v
    → All P (map (λ e. e.1) m)
    → All P (map (λ e. e.1) (assign k v m))
unfolding assign
assign-values P k v [] h f = (h, tt)
assign-values P k v ((j, w) ∷ m) h f = elim (Bool-cases (j == k)) [
  | inl same ↦ rw (same, assign) (h, f.1)
  | inr other ↦ rw (other, assign) (f.0, assign-values P k v m h f.1)
]

All-le : (i j : ℕ) (xs : List ℕ) → i ≤ j → All (λ v. v ≤ i) xs → All (λ v. v ≤ j) xs
All-le i j [] h f = tt
All-le i j (x ∷ xs) h f = (omega (arith, f.0), All-le i j xs h f.1)

module _ {M : Type 0} (s : Services M) (first : M) where
  pub record Leading (n : RaftNode M) : Type 0 where
    pub valid : IsValid n
    pub leads : n.st.role ≡ Role.leader
    pub contiguous : IsContiguous n.log
    pub replays : Replays s first n
    pub matched : All (λ v. v ≤ length n.log.entries) (match_values n)

  -- A request's entry is in the log, and on its way.
  pub record Asks (n : RaftNode M) (req : ClientRequest) (m : RaftNode M) : Type 0 where
    pub leading : Leading m
    pub log_is : m.log ≡ append_entry n.log (new_entry s n req)
    pub term_same : m.st.current_term ≡ n.st.current_term
    pub commit_same : m.st.commit_index ≡ n.st.commit_index
    pub config_same : m.config ≡ n.config
    pub peers_same : m.peers ≡ n.peers
    pub prev_term : ℕ
    pub prev : term_at n.log.entries n.log.last_log_index ≡ some prev_term
    pub sent :
        m.out
        ≡ n.out
          ++ Effect.to_pipelines
              (message n (
                Content.append_entries_request
                  (append_request n n.log.last_log_index prev_term (new_entry s n req))))
              Priority.medium
            ∷ []

  abbrev Keeps : RaftNode M → RaftNode M → Type 0
  Keeps n m =
      (m.st ≡ n.st) × (m.log ≡ n.log) × (m.state_machine ≡ n.state_machine) × (m.config ≡ n.config)

  broadcast_entry-Keeps :
      (n : RaftNode M) (last : ℕ) (entry : EntryMeta)
      → Holds (Keeps n) (broadcast_entry n last entry)
  unfolding broadcast_entry
  broadcast_entry-Keeps n last entry = ground arith

  Asks-made :
      (n : RaftNode M) (msg : Message) (req : ClientRequest) (m : RaftNode M)
      → suc (length n.log.entries) < u64_mod
      → Leading n
      → Replicates s n req m
      → Moves n m
      → Keeps (record_request n msg.node_id req.request_id (new_entry s n req)) m
      → Asks n req m
  unfolding record_request append_entry update_match_index update_next_index
  Asks-made n msg req m small l r v (st, log, machine, config) =
      let entry = new_entry s n req in
      let more : length m.log.entries ≡ suc (length n.log.entries) =
        omega (arith, ap length r.entries, length-append n.log.entries (entry ∷ [])) in
      let last : n.log.last_log_index ≡ length n.log.entries = l.contiguous.last in
      let index : add64 n.log.last_log_index 1 ≤ length m.log.entries =
        omega (arith, more, last, small) in
      record {
        leading = record {
          valid = v.valid;
          leads = ap (λ x. x.role) st ∙ l.leads;
          contiguous = r.contiguous;
          replays =
              Replays-append s first n m (entry ∷ []) r.entries (ap (λ x. x.last_applied) st)
                machine l.replays;
          matched =
              subst (λ t. All (λ v. v ≤ length m.log.entries) (map (λ e. e.1) t))
                (sym (ap (λ x. x.match_index) st))
                (assign-values (λ v. v ≤ length m.log.entries) msg.node_id
                  (add64 n.log.last_log_index 1) n.st.match_index index
                  (All-le (length n.log.entries) (length m.log.entries) (match_values n)
                    (omega arith) l.matched));
        };
        log_is = log;
        term_same = ap (λ x. x.current_term) st;
        commit_same = ap (λ x. x.commit_index) st;
        config_same = config;
        peers_same = v.same_peers;
        prev_term = r.prev_term;
        prev = r.prev;
        sent = r.sent;
      }

  pub request-Asks :
      (n : RaftNode M) (msg : Message) (req : ClientRequest)
      → suc (length n.log.entries) < u64_mod
      → contains msg.node_id n.peers ≡ true
      → Leading n
      → Returns (Asks n req) (handle_client_request s n msg req)
  unfolding handle_client_request
  request-Asks n msg req small named l =
      let entry = new_entry s n req in
      let recorded : RaftNode M = record_request n msg.node_id req.request_id entry in
      let leader : is_leader n.st.role ≡ true = ap is_leader l.leads in
      let kept : Holds (Keeps recorded) (handle_client_request s n msg req) =
        rw (leader, handle_client_request)
          (broadcast_entry-Keeps recorded n.log.last_log_index entry) in
      Returns-map (λ m. (Replicates s n req m × Moves n m) × Keeps recorded m) (Asks n req)
        (handle_client_request s n msg req) (λ m q. Asks-made n msg req m small l q.0.0 q.0.1 q.1)
        (Returns-and (λ m. Replicates s n req m × Moves n m) (Keeps recorded) _
          (Returns-both _ _ _ (client_request-Replicates s n msg req l.contiguous small l.leads)
            (client_request-Moves s n msg req l.valid named))
          kept)

  -- A reply of a peer changes the book-keeping of the peers only.
  pub record Hears (n m : RaftNode M) : Type 0 where
    pub leading : Leading m
    pub log_same : m.log ≡ n.log
    pub term_same : m.st.current_term ≡ n.st.current_term
    pub commit_same : m.st.commit_index ≡ n.st.commit_index
    pub config_same : m.config ≡ n.config
    pub peers_same : m.peers ≡ n.peers
    pub nothing : m.out ≡ n.out

  reply_values :
      (n : RaftNode M) (msg : Message) (res : AppendEntriesResponse) (k : ℕ)
      → res.last_log_index ≤ k
      → All (λ v. v ≤ k) (match_values n)
      → All (λ v. v ≤ k) (match_values (handle_append_entries_response n msg res))
  unfolding handle_append_entries_response update_match_index update_next_index
  reply_values n msg res k le f =
      ground
        (arith, assign-values (λ v. v ≤ k) msg.node_id res.last_log_index n.st.match_index le f)

  pub reply-Hears :
      (n : RaftNode M) (msg : Message) (res : AppendEntriesResponse)
      → contains msg.node_id n.peers ≡ true
      → res.term ≤ n.st.current_term
      → res.last_log_index ≤ length n.log.entries
      → length n.log.entries < u64_mod
      → Leading n
      → Hears n (handle_append_entries_response n msg res)
  unfolding handle_append_entries_response update_match_index update_next_index
  reply-Hears n msg res named old le small l =
      let m : RaftNode M = handle_append_entries_response n msg res in
      let v : IsValid m =
        append_response-IsValid n l.valid msg res named (omega (arith, le, small)) in
      let log : m.log ≡ n.log = ground arith in
      let machine : m.state_machine ≡ n.state_machine = ground arith in
      let applied : m.st.last_applied ≡ n.st.last_applied = ground arith in
      let values : All (λ x. x ≤ length n.log.entries) (match_values m) =
        reply_values n msg res (length n.log.entries) le l.matched in
      record {
        leading = record {
          valid = v;
          leads = unfold handle_append_entries_response in ground (arith, l.leads);
          contiguous = subst IsContiguous (sym log) l.contiguous;
          replays =
              Replays-append s first n m []
                (ap (λ (g : RaftLog). g.entries) log ∙ sym (append-nil n.log.entries)) applied
                machine l.replays;
          matched =
              subst (λ (g : RaftLog). All (λ x. x ≤ length g.entries) (match_values m)) (sym log)
                values;
        };
        log_same = log;
        term_same = ground arith;
        commit_same = ground arith;
        config_same = ground arith;
        peers_same = ground arith;
        nothing = ground arith;
      }

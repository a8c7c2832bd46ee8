-- ===== src/Node/Speaks/Handlers.antt =====
-- The handlers of votes, append-entries messages and client requests, and what they say.
use embkv.Base.{
  ℕ, zero, suc, ◌-◌, ◌≤◌, ◌<◌, Bool, true, false, Option, none, some, List, [], ◌∷◌, arith, u64_mod,
  add64, All, ok, fault, Holds, get_elem?, out_of_range, ◌||◌, length, if◌then◌else◌, ltb, ◌==◌,
  Bool-cases, inl, inr,
}
use embkv.Proto.{
  Message, Content, EntryMeta, RequestVoteRequest, RequestVoteResponse, AppendEntriesRequest,
  AppendEntriesResponse,
}
use embkv.Status.{set_voted_for}
use embkv.Log.{RaftLog, entry_at}
use embkv.Log.Contiguous.{entries-append_all}
use embkv.Node.{RaftNode, Services, Effect, emit, with_status}
use embkv.Node.Vote.{
  handle_request_vote_request, handle_request_vote_response, follow_term, answer_vote, is_stale,
  grants,
}
use embkv.Node.Apply.{apply_to_state_machine, apply_loop, apply_next, apply_entry, advance}
use embkv.Node.Timers.{cons_some}
use embkv.Node.Append.{
  handle_append_entries_request, handle_append_entries_response, follow_commit, receive_entries,
  append_entries, finish_append, prev_matches,
}
use embkv.Node.Valid.Moves.{last-append_all}
use embkv.Node.Speaks.{
  ContentFits, Speaks, All-append, EntryFits, EntriesFit, EntriesFit-indices, Promise, Holds-any,
  Holds-bind, emit-Speaks, status-Speaks,
}

got-fits :
    (P : EntryMeta → Type 0) (es : List EntryMeta) (i : ℕ)
    → All P es
    → Holds
        (λ e. All P (cons_some e []))
        (elim (get_elem? es i) [ none ↦ fault out_of_range | some e ↦ ok (some e) ])
got-fits P [] i f = tt
got-fits P (x ∷ xs) zero f = (f.0, tt)
got-fits P (x ∷ xs) (suc i) f = got-fits P xs i f.1

pub entry_at-fits :
    (P : EntryMeta → Type 0) (log : RaftLog) (i : ℕ)
    → All P log.entries
    → Holds (λ e. All P (cons_some e [])) (entry_at log i)
unfolding entry_at
entry_at-fits P log i f =
    elim (Bool-cases (ltb (add64 (length log.entries) log.start_index) i || i == 0)) [
      | inl outside ↦ rw (outside, entry_at) tt
      | inr inside ↦ rw (inside, entry_at) (got-fits P log.entries (i - 1) f)
    ]

module _ {M : Type 0} (s : Services M) (p : Promise s) (bound : ℕ) (ps : List ℕ) where
  abbrev Fine : RaftNode M → Type 0
  Fine = Speaks s p bound ps

  follow_term-Speaks :
      (term : ℕ) (n : RaftNode M) → term ≤ bound → Fine n → Fine (follow_term term n)
  unfolding follow_term
  follow_term-Speaks term n f v = ground arith

  vote_cast-Speaks :
      (n : RaftNode M) (msg : Message) (granted : Bool)
      → Fine n
      → Fine (
          if granted
          then emit Effect.reset_timer (with_status (set_voted_for (some msg.node_id) n.st) n)
          else n)
  unfolding set_voted_for
  vote_cast-Speaks n msg true v =
      emit-Speaks s p bound ps Effect.reset_timer _ tt (
        status-Speaks s p bound ps (set_voted_for (some msg.node_id) n.st) n v.term v.commit_fits v)
  vote_cast-Speaks n msg false v = v

  answer_vote-Speaks :
      (n : RaftNode M) (msg : Message) (req : RequestVoteRequest)
      → req.term ≤ bound
      → Fine n
      → Fine (answer_vote n msg req)
  unfolding answer_vote
  answer_vote-Speaks n msg req f v =
      emit-Speaks s p bound ps _ _ (v.named, f) (vote_cast-Speaks n msg (grants n msg req) v)

  pub vote_request-Speaks :
      (n : RaftNode M) (msg : Message) (req : RequestVoteRequest)
      → req.term ≤ bound
      → Fine n
      → Fine (handle_request_vote_request n msg req)
  unfolding handle_request_vote_request
  vote_request-Speaks n msg req f v = ground (
    arith,
    answer_vote-Speaks (follow_term req.term n) msg req f (follow_term-Speaks req.term n f v),
  )

  pub vote_response-Speaks :
      (n : RaftNode M) (msg : Message) (res : RequestVoteResponse)
      → res.term ≤ bound
      → Fine n
      → Fine (handle_request_vote_response n msg res)
  unfolding handle_request_vote_response
  vote_response-Speaks n msg res f v = ground arith

  pub append_response-Speaks :
      (n : RaftNode M) (msg : Message) (res : AppendEntriesResponse)
      → res.term ≤ bound
      → Fine n
      → Fine (handle_append_entries_response n msg res)
  unfolding handle_append_entries_response
  append_response-Speaks n msg res f v = ground arith

  finish_append-Speaks :
      (n : RaftNode M) (req : AppendEntriesRequest) (matched : Bool)
      → req.term ≤ bound
      → EntriesFit s p req.entries
      → Fine n
      → Fine (finish_append n req matched)
  unfolding finish_append
  finish_append-Speaks n req false f g v =
      emit-Speaks s p bound ps _ n (v.named, (f, v.last_fits)) v
  finish_append-Speaks n req true f g v =
      emit-Speaks s p bound ps _ _
        (
          v.named,
          (f, last-append_all n.log req.entries v.last_fits (EntriesFit-indices s p req.entries g)),
        )
        (record {
          same_peers = v.same_peers;
          named = v.named;
          term = v.term;
          commit_fits = v.commit_fits;
          last_fits =
              last-append_all n.log req.entries v.last_fits (EntriesFit-indices s p req.entries g);
          entries_fit =
              rw ((entries-append_all n.log req.entries).0)
                (All-append (EntryFits s p) n.log.entries req.entries v.entries_fit g);
          machine = v.machine;
          sent = v.sent;
        })

  receive_entries-Speaks :
      (now : ℕ) (msg : Message) (req : AppendEntriesRequest) (n : RaftNode M)
      → req.term ≤ bound
      → EntriesFit s p req.entries
      → Fine n
      → Holds Fine (receive_entries now msg req n)
  unfolding receive_entries append_entries
  receive_entries-Speaks now msg req n f g v = elim (Bool-cases req.is_heartbeat) [
    | inl beat ↦ rw (beat, receive_entries) (status-Speaks s p bound ps _ n v.term v.commit_fits v)
    | inr data_ ↦
        rw (data_, receive_entries)
          (Holds-bind (λ b. Unit {0}) Fine (prev_matches n.log req) _
            (Holds-any (prev_matches n.log req)) (λ b _. finish_append-Speaks n req b f g v))
  ]

  apply_entry-Speaks :
      (n : RaftNode M) (e : Option EntryMeta)
      → EntriesFit s p (cons_some e [])
      → Fine n
      → Fine (apply_entry s (advance s n) e)
  unfolding apply_entry
  apply_entry-Speaks n none f v = status-Speaks s p bound ps _ n v.term v.commit_fits v
  apply_entry-Speaks n (some e) f v = emit-Speaks s p bound ps _ _ tt (record {
    same_peers = v.same_peers;
    named = v.named;
    term = v.term;
    commit_fits = v.commit_fits;
    last_fits = v.last_fits;
    entries_fit = v.entries_fit;
    machine = p.apply-Kept e n.state_machine f.0.1 v.machine;
    sent = v.sent;
  })

  apply_loop-Speaks : (fuel k : ℕ) (n : RaftNode M) → Fine n → Holds Fine (apply_loop s fuel k n)
  unfolding apply_loop apply_next
  apply_loop-Speaks zero k n v = v
  apply_loop-Speaks (suc fuel) k n v = elim (Bool-cases (ltb n.st.last_applied k)) [
    | inr done ↦ rw (done, apply_loop) v
    | inl more ↦
        rw (more, apply_loop)
          (Holds-bind Fine Fine (apply_next s n) (apply_loop s fuel k)
            (Holds-bind (λ e. EntriesFit s p (cons_some e [])) Fine
              (entry_at n.log (add64 n.st.last_applied 1)) _
              (entry_at-fits (EntryFits s p) n.log (add64 n.st.last_applied 1) v.entries_fit)
              (λ e f. apply_entry-Speaks n e f v))
            (λ m q. apply_loop-Speaks fuel k m q))
  ]

  pub apply-Speaks :
      (k : ℕ) (n : RaftNode M) → k < u64_mod → Fine n → Holds Fine (apply_to_state_machine s k n)
  unfolding apply_to_state_machine
  apply-Speaks k n f v = apply_loop-Speaks _ k _ (status-Speaks s p bound ps _ n v.term f v)

  pub follow_commit-Speaks :
      (k : ℕ) (n : RaftNode M) → k < u64_mod → Fine n → Holds Fine (follow_commit s k n)
  unfolding follow_commit
  follow_commit-Speaks k n f v = elim (Bool-cases (ltb n.st.commit_index k)) [
    | inl more ↦ rw (more, follow_commit) (apply-Speaks k n f v)
    | inr done ↦ rw (done, follow_commit) v
  ]

  pub append_request-Speaks :
      (now : ℕ) (n : RaftNode M) (msg : Message) (req : AppendEntriesRequest)
      → ContentFits s p bound (Content.append_entries_request req)
      → Fine n
      → Holds Fine (handle_append_entries_request s now n msg req)
  unfolding handle_append_entries_request
  append_request-Speaks now n msg req f v = elim (Bool-cases (is_stale n msg req.term)) [
    | inl stale ↦ rw (stale, handle_append_entries_request) v
    | inr fresh ↦
        rw (fresh, handle_append_entries_request)
          (Holds-bind Fine Fine (follow_commit s req.leader_commit (follow_term req.term n))
            (receive_entries now msg req)
            (follow_commit-Speaks req.leader_commit (follow_term req.term n) f.1
              (follow_term-Speaks req.term n f.0 v))
            (λ m q. receive_entries-Speaks now msg req m f.0 f.2 q))
  ]

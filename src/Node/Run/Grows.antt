-- ===== src/Node/Run/Grows.antt =====
-- What only grows over a run: the log, and what a node has said. First the handlers of messages.
pub mod Timers
use embkv.Base.{
  All, ℕ, zero, suc, ◌-◌, ◌+◌, ◌≡◌, refl, sym, ap, ◌∙◌, Bool, true, false, Option, none, some, List,
  [], ◌∷◌, ◌++◌, append-nil, append_assoc, arith, u64_mod, sub64, add64, fault, ok, Holds,
  if◌then◌else◌, ltb, leb, ◌==◌, Bool-cases, inl, inr, Returns, Returns-map, Returns-and,
}
use embkv.Base.Map.{Map}
use embkv.Base.Sets.{contains}
use embkv.Proto.{
  Message, Content, EntryMeta, RequestVoteRequest, RequestVoteResponse, AppendEntriesRequest,
  AppendEntriesResponse, ClientRequest,
}
use embkv.Status.{set_voted_for}
use embkv.Log.{RaftLog, entry_at, append_entry, append_all}
use embkv.Log.Contiguous.{entries-append_all}
use embkv.Node.{
  RaftNode, Services, Effect, Revents, emit, with_status, send_to_pipeline, peer_count,
}
use embkv.Node.Vote.{
  handle_request_vote_request, handle_request_vote_response, follow_term, answer_vote, is_stale,
  start_election, stand, may_stand, grants,
}
use embkv.Node.Apply.{apply_to_state_machine, apply_loop, apply_next, apply_entry, advance}
use embkv.Node.Append.{
  handle_append_entries_request, handle_append_entries_response, follow_commit, receive_entries,
  append_entries, finish_append, prev_matches,
}
use embkv.Node.Client.{
  handle_client_request, record_request, broadcast_entry, new_entry, is_leader, send_append,
  handle_install_snapshot_request, handle_install_snapshot_response,
}
use embkv.Node.Timers.{
  handle_election_timeout, handle_heartbeat_timeout, handle_reissue_timeout, handle_parse_timeout,
  handle_all, dispatch, commit, lead, heartbeat, commit_candidate, match_values, entries_from,
  send_entries, reissue_to, reissue_all,
}
use embkv.Node.Speaks.{Holds-any, Holds-bind}
use embkv.Node.Valid.{IsValid}
use embkv.Node.Run.{Event, step, run, TermsFit}
use embkv.Node.Run.Safety.{run-IsValid, IsSoundEvent}

-- A list with more behind it.
abbrev pub Longer {ℓ} : {A : Type ℓ} → List A → List A → Type ℓ
Longer {A = A} xs ys = (more : List A) × (ys ≡ xs ++ more)

Longer-append {ℓ} : {A : Type ℓ} (xs ys zs : List A) → Longer xs ys → Longer xs (ys ++ zs)
Longer-append xs ys zs (more, e) = (more ++ zs, ap (λ l. l ++ zs) e ∙ append_assoc xs more zs)

-- The log and the messages of a node are those of the node before, with more behind them.
pub record Extends {M : Type 0} (n m : RaftNode M) : Type 0 where
  pub log : Longer n.log.entries m.log.entries
  pub out : Longer n.out m.out

module _ {M : Type 0} (s : Services M) (start : RaftNode M) where
  abbrev pub More : RaftNode M → Type 0
  More = Extends start

  pub emit-More : (e : Effect) (n : RaftNode M) → More n → More (emit e n)
  emit-More e n v = record { log = v.log; out = Longer-append start.out n.out (e ∷ []) v.out }

  -- A change of other fields.
  pub same-More :
      (n m : RaftNode M) → m.log.entries ≡ n.log.entries → m.out ≡ n.out → More n → More m
  same-More n m e f v = record { log = (v.log.0, e ∙ v.log.1); out = (v.out.0, f ∙ v.out.1) }

  pub append-More :
      (n : RaftNode M) (log : RaftLog) (es : List EntryMeta)
      → log.entries ≡ n.log.entries ++ es
      → More n
      → More (record n { log = log })
  append-More n log es e v = record {
    log = let (more, f) = Longer-append start.log.entries n.log.entries es v.log in (more, e ∙ f);
    out = v.out;
  }

  pub follow_term-More : (term : ℕ) (n : RaftNode M) → More n → More (follow_term term n)
  unfolding follow_term
  follow_term-More term n v = ground (arith, same-More n _ refl refl v)

  pub vote_cast-More :
      (n : RaftNode M) (msg : Message) (granted : Bool)
      → More n
      → More (
          if granted
          then emit Effect.reset_timer (with_status (set_voted_for (some msg.node_id) n.st) n)
          else n)
  vote_cast-More n msg true v = emit-More Effect.reset_timer _ (same-More n _ refl refl v)
  vote_cast-More n msg false v = v

  pub answer_vote-More :
      (n : RaftNode M) (msg : Message) (req : RequestVoteRequest)
      → More n
      → More (answer_vote n msg req)
  unfolding answer_vote
  answer_vote-More n msg req v = emit-More _ _ (vote_cast-More n msg (grants n msg req) v)

  pub vote_request-More :
      (n : RaftNode M) (msg : Message) (req : RequestVoteRequest)
      → More n
      → More (handle_request_vote_request n msg req)
  unfolding handle_request_vote_request
  vote_request-More n msg req v =
      let answered =
        answer_vote-More (follow_term req.term n) msg req (follow_term-More req.term n v) in
      elim (Bool-cases (is_stale n msg req.term)) [
        | inl stale ↦ rw (stale, handle_request_vote_request) v
        | inr fresh ↦ rw (fresh, handle_request_vote_request) answered
      ]

  pub vote_response-More :
      (n : RaftNode M) (msg : Message) (res : RequestVoteResponse)
      → More n
      → More (handle_request_vote_response n msg res)
  unfolding handle_request_vote_response
  vote_response-More n msg res v = ground (arith, same-More n _ refl refl v)

  pub append_response-More :
      (n : RaftNode M) (msg : Message) (res : AppendEntriesResponse)
      → More n
      → More (handle_append_entries_response n msg res)
  unfolding handle_append_entries_response
  append_response-More n msg res v = ground (arith, same-More n _ refl refl v)

  pub finish_append-More :
      (n : RaftNode M) (req : AppendEntriesRequest) (matched : Bool)
      → More n
      → More (finish_append n req matched)
  unfolding finish_append
  finish_append-More n req false v = emit-More _ n v
  finish_append-More n req true v = emit-More _ _ (
      append-More n (append_all n.log req.entries) req.entries
        ((entries-append_all n.log req.entries).0) v)

  pub receive_entries-More :
      (now : ℕ) (msg : Message) (req : AppendEntriesRequest) (n : RaftNode M)
      → More n
      → Holds More (receive_entries now msg req n)
  unfolding receive_entries append_entries
  receive_entries-More now msg req n v = elim (Bool-cases req.is_heartbeat) [
    | inl beat ↦ rw (beat, receive_entries) (same-More n _ refl refl v)
    | inr data_ ↦
        rw (data_, receive_entries)
          (Holds-bind (λ b. Unit {0}) More (prev_matches n.log req) _
            (Holds-any (prev_matches n.log req)) (λ b _. finish_append-More n req b v))
  ]

  pub apply_entry-More :
      (n : RaftNode M) (e : Option EntryMeta) → More n → More (apply_entry s (advance s n) e)
  unfolding apply_entry
  apply_entry-More n none v = same-More n _ refl refl v
  apply_entry-More n (some e) v = emit-More _ _ (same-More n _ refl refl v)

  pub apply_loop-More : (fuel k : ℕ) (n : RaftNode M) → More n → Holds More (apply_loop s fuel k n)
  unfolding apply_loop apply_next
  apply_loop-More zero k n v = v
  apply_loop-More (suc fuel) k n v = elim (Bool-cases (ltb n.st.last_applied k)) [
    | inr done ↦ rw (done, apply_loop) v
    | inl more ↦
        rw (more, apply_loop)
          (Holds-bind More More (apply_next s n) (apply_loop s fuel k)
            (Holds-bind (λ e. Unit {0}) More (entry_at n.log (add64 n.st.last_applied 1)) _
              (Holds-any (entry_at n.log (add64 n.st.last_applied 1)))
              (λ e _. apply_entry-More n e v))
            (λ m q. apply_loop-More fuel k m q))
  ]

  pub apply-More : (k : ℕ) (n : RaftNode M) → More n → Holds More (apply_to_state_machine s k n)
  unfolding apply_to_state_machine
  apply-More k n v = apply_loop-More _ k _ (same-More n _ refl refl v)

  pub follow_commit-More : (k : ℕ) (n : RaftNode M) → More n → Holds More (follow_commit s k n)
  unfolding follow_commit
  follow_commit-More k n v = elim (Bool-cases (ltb n.st.commit_index k)) [
    | inl more ↦ rw (more, follow_commit) (apply-More k n v)
    | inr done ↦ rw (done, follow_commit) v
  ]

  pub append_request-More :
      (now : ℕ) (n : RaftNode M) (msg : Message) (req : AppendEntriesRequest)
      → More n
      → Holds More (handle_append_entries_request s now n msg req)
  unfolding handle_append_entries_request
  append_request-More now n msg req v =
      let follow =
        Holds-bind More More (follow_commit s req.leader_commit (follow_term req.term n))
          (receive_entries now msg req)
          (follow_commit-More req.leader_commit (follow_term req.term n)
            (follow_term-More req.term n v))
          (λ m q. receive_entries-More now msg req m q) in
      ground arith

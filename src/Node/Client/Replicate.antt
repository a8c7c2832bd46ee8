-- ===== src/Node/Client/Replicate.antt =====
-- A client request at the leader, and at any other node.
use embkv.Base.{
  ℕ, zero, suc, ◌≤◌, ◌<◌, ◌≡◌, refl, ap, ◌∙◌, true, false, Option, none, some, List, [], ◌∷◌, ◌++◌,
  arith, ok, u64_mod, length, length-append, Returns, Bool-cases, inl, inr, ◌==◌, get_elem?,
  get_elem?-some, get_elem?-append_left,
}
use embkv.Proto.{EntryMeta, ClientRequest, Content, Message, Priority}
use embkv.Status.{Role}
use embkv.Log.{entry_at, append_entry}
use embkv.Log.Contiguous.{Fits, IsContiguous, append_entry-IsContiguous, entry_at-eq-nth, nth}
use embkv.Node.{RaftNode, Services, Effect, message}
use embkv.Node.Client.{
  handle_client_request, new_entry, record_request, broadcast_entry, send_append, is_leader,
}

-- The term of the entry before the new one: 0 for the first.
abbrev pub term_at : List EntryMeta → ℕ → Option ℕ
term_at es zero = some 0
term_at es (suc i) = elim (get_elem? es i) [ none ↦ none | some e ↦ some e.term ]

nth-append_last :
    (es : List EntryMeta) (e : EntryMeta) (k : ℕ)
    → 0 < k
    → k ≤ length es
    → (x : EntryMeta) × (nth (es ++ e ∷ []) k ≡ some x) × (term_at es k ≡ some x.term)
nth-append_last es e zero p h = absurd (omega arith)
nth-append_last es e (suc i) p h =
    let (x, found) = get_elem?-some es i (omega arith) in
    (x, get_elem?-append_left es (e ∷ []) i (omega arith) ∙ found, rw (found, term_at) refl)

broadcast-some :
    {M : Type 0} (n : RaftNode M) (last : ℕ) (x e : EntryMeta)
    → (last == 0) ≡ false
    → entry_at n.log last ≡ ok (some x)
    → broadcast_entry n last e ≡ ok (send_append n last x.term e)
unfolding broadcast_entry
broadcast-some n last x e later found = rw (later, found)

module _ {M : Type 0} where
  -- The leader's log has one more entry, and the peers are sent that entry alone, in the leader's term,
  -- with the index and the term of the one before it and the leader's commit index.
  pub record Replicates (s : Services M) (n : RaftNode M) (req : ClientRequest) (m : RaftNode M)
      : Type 0 where
    pub entries : m.log.entries ≡ n.log.entries ++ new_entry s n req ∷ []
    pub contiguous : IsContiguous m.log
    pub prev_term : ℕ
    pub prev : term_at n.log.entries n.log.last_log_index ≡ some prev_term
    pub sent :
        m.out
        ≡ n.out
          ++ Effect.to_pipelines
              (message n (
                Content.append_entries_request (record {
                  term = n.st.current_term;
                  prev_log_index = n.log.last_log_index;
                  prev_log_term = prev_term;
                  entries = new_entry s n req ∷ [];
                  leader_commit = n.st.commit_index;
                  is_heartbeat = false;
                })))
              Priority.medium
            ∷ []

  -- The broadcast from a log whose last entry is the new one.
  broadcast_entry-Returns :
      (s : Services M) (n : RaftNode M) (client request : ℕ) (req : ClientRequest)
      → IsContiguous n.log
      → suc (length n.log.entries) < u64_mod
      → Returns (Replicates s n req) (
          broadcast_entry
            (record_request n client request (new_entry s n req))
            n.log.last_log_index
            (new_entry s n req))
  unfolding broadcast_entry record_request
  broadcast_entry-Returns s n client request req c f =
      let entry = new_entry s n req in
      let after = record_request n client request entry in
      let last = n.log.last_log_index in
      let kept : IsContiguous after.log =
        unfold record_request in append_entry-IsContiguous n.log entry c (omega (arith, c.last)) in
      elim (Bool-cases (last == 0)) [
        | inl first ↦
            rw (first, broadcast_entry)
              (unfold record_request append_entry in
                record {
                  entries = refl;
                  contiguous = unfold append_entry in kept;
                  prev_term = 0;
                  prev = ap (term_at n.log.entries) (let z : last ≡ 0 = ground arith in z);
                  sent = refl;
                })
        | inr later ↦
            let (x, found, prev) =
              nth-append_last n.log.entries entry last (ground arith) (omega (arith, c.last)) in
            let fits : Fits after.log = record {
              from_start = kept.from_start;
              small =
                  unfold record_request append_entry in
                  omega (arith, f, length-append n.log.entries (entry ∷ []));
            } in
            rw
              (broadcast-some after last x entry later (
                entry_at-eq-nth after.log last fits
                ∙ ap ok (unfold record_request append_entry in found)))
              (unfold record_request append_entry in
                record {
                  entries = refl;
                  contiguous = unfold append_entry in kept;
                  prev_term = x.term;
                  prev = prev;
                  sent = refl;
                })
      ]

  pub client_request-Replicates :
      (s : Services M) (n : RaftNode M) (msg : Message) (req : ClientRequest)
      → IsContiguous n.log
      → suc (length n.log.entries) < u64_mod
      → n.st.role ≡ Role.leader
      → Returns (Replicates s n req) (handle_client_request s n msg req)
  unfolding handle_client_request
  client_request-Replicates s n msg req c f leads =
      let leader : is_leader n.st.role ≡ true = ground arith in
      rw (leader, handle_client_request)
        (broadcast_entry-Returns s n msg.node_id req.request_id req c f)

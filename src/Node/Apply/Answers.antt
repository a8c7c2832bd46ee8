-- ===== src/Node/Apply/Answers.antt =====
-- The answer to a client's request: the path from handle_client_request to the reply.
use embkv.Base.{
  ℕ, suc, ◌+◌, ◌-◌, ◌<◌, ◌≡◌, refl, ap, ◌∙◌, true, none, some, [], ◌∷◌, ◌++◌, arith, add64, u64_mod,
  length, ok, ◌>>=◌, Holds, Returns, Returns-and, Returns-map, Returns-bind, subst, get_elem?,
  get_elem?-append_right, length-append, lt→ltb,
}
use embkv.Base.Map.{lookup, emplace, lookup-emplace}
use embkv.Proto.{EntryMeta, Message, ClientRequest, Content}
use embkv.Status.{Role, update_match_index, update_next_index}
use embkv.Log.{entry_at, append_entry}
use embkv.Log.Contiguous.{IsContiguous, Fits, nth, entry_at-eq-nth}
use embkv.Node.{RaftNode, Services, Request, Effect, message}
use embkv.Node.Apply.{apply_entry, apply_next, apply_loop, apply_to_state_machine, success_response}
use embkv.Node.Client.{new_entry, handle_client_request, record_request, broadcast_entry, is_leader}
use embkv.Node.Client.Replicate.{Replicates, client_request-Replicates}

abbrev pub request_of : Message → ClientRequest → Request
request_of msg req = record { client_id = msg.node_id; request_id = req.request_id }

module _ {M : Type 0} (s : Services M) where
  -- The reply that a node sends for a request on record when it applies its entry.
  abbrev pub answer : RaftNode M → Request → EntryMeta → Effect
  answer n request entry = Effect.to_client request.client_id (
      message n (
        Content.client_response
          (success_response request.request_id (s.apply entry n.state_machine).0)))

  abbrev pub Applied : RaftNode M → Request → EntryMeta → RaftNode M → Type 0
  Applied n request entry m =
      (m.out ≡ n.out ++ answer n request entry ∷ [])
      × (m.state_machine ≡ (s.apply entry n.state_machine).1)
      × (m.st.last_applied ≡ suc n.st.last_applied)

  -- The next entry, whose request is on record, is applied and answered.
  pub apply_to_state_machine-answers :
      (n : RaftNode M) (request : Request) (entry : EntryMeta)
      → suc n.st.last_applied < u64_mod
      → entry_at n.log (suc n.st.last_applied) ≡ ok (some entry)
      → lookup (suc n.st.last_applied) n.requests ≡ some request
      → Returns (Applied n request entry) (apply_to_state_machine s (suc n.st.last_applied) n)
  unfolding apply_to_state_machine apply_loop apply_next apply_entry
  apply_to_state_machine-answers n request entry small at known =
      let next : add64 n.st.last_applied 1 ≡ suc n.st.last_applied = omega arith in
      let one : suc n.st.last_applied - n.st.last_applied ≡ 1 = omega arith in
      let more = lt→ltb n.st.last_applied (suc n.st.last_applied) (omega arith) in
      rw (one, apply_loop, more, next, at, known) (refl, refl, refl)

  -- What a leader's broadcast of the new entry leaves to be applied.
  abbrev Waits : RaftNode M → Request → EntryMeta → RaftNode M → Type 0
  Waits n request entry m =
      (lookup (suc n.st.last_applied) m.requests ≡ some request)
      × (entry_at m.log (suc n.st.last_applied) ≡ ok (some entry))
      × (m.st.last_applied ≡ n.st.last_applied)
      × (m.state_machine ≡ n.state_machine)
      × (m.config ≡ n.config)
      × ((e : Effect) × (m.out ≡ n.out ++ e ∷ []))

  -- The broadcast changes nothing but what goes out.
  abbrev Keeps : RaftNode M → RaftNode M → Type 0
  Keeps n m =
      (m.requests ≡ n.requests)
      × (m.st ≡ n.st)
      × (m.state_machine ≡ n.state_machine)
      × (m.config ≡ n.config)

  broadcast_entry-Keeps :
      (n : RaftNode M) (last : ℕ) (entry : EntryMeta)
      → Holds (Keeps n) (broadcast_entry n last entry)
  unfolding broadcast_entry
  broadcast_entry-Keeps n last entry = ground arith

  request-Waits :
      (n : RaftNode M) (msg : Message) (req : ClientRequest)
      → IsContiguous n.log
      → suc (length n.log.entries) < u64_mod
      → n.st.role ≡ Role.leader
      → n.st.last_applied ≡ n.log.last_log_index
      → lookup (suc n.st.last_applied) n.requests ≡ none
      → Returns
          (Waits n (request_of msg req) (new_entry s n req))
          (handle_client_request s n msg req)
  unfolding handle_client_request record_request append_entry update_match_index update_next_index
  request-Waits n msg req c f leads done free =
      let request = request_of msg req in
      let entry = new_entry s n req in
      let leader : is_leader n.st.role ≡ true = ground arith in
      let kept : Holds (Keeps (record_request n msg.node_id req.request_id entry))
          (handle_client_request s n msg req) =
        rw (leader, handle_client_request)
          (broadcast_entry-Keeps (record_request n msg.node_id req.request_id entry)
            n.log.last_log_index entry) in
      Returns-map _ (Waits n request entry) (handle_client_request s n msg req)
        (λ m q.
          let r = q.0 in
          let (same, st, machine, config) = q.1 in
          let last : n.st.last_applied ≡ length n.log.entries = done ∙ c.last in
          let fits : Fits m.log = record {
            from_start = r.contiguous.from_start;
            small = omega (arith, f, ap length r.entries, length-append n.log.entries (entry ∷ []));
          } in
          let index : add64 n.log.last_log_index 1 ≡ suc n.st.last_applied =
            omega (arith, c.last, f, last) in
          let found : nth m.log.entries (suc n.st.last_applied) ≡ some entry =
            ap (λ es. get_elem? es n.st.last_applied) r.entries
            ∙ ap (get_elem? (n.log.entries ++ entry ∷ []))
                (let l : n.st.last_applied ≡ length n.log.entries + 0 = omega (arith, last) in l)
            ∙ get_elem?-append_right n.log.entries (entry ∷ []) 0 in
          (
            ap (lookup (suc n.st.last_applied)) same
                ∙ ap (λ k. lookup (suc n.st.last_applied) (emplace k request n.requests)) index
                ∙ lookup-emplace (suc n.st.last_applied) (suc n.st.last_applied) request n.requests
                ∙ rw free (ground arith),
            entry_at-eq-nth m.log (suc n.st.last_applied) fits ∙ ap ok found,
            ap (λ x. x.last_applied) st,
            machine,
            config,
            (_, r.sent),
          ))
        (Returns-and (Replicates s n req)
          (Keeps (record_request n msg.node_id req.request_id entry))
          (handle_client_request s n msg req) (client_request-Replicates s n msg req c f leads)
          kept)

  -- The entry has been applied, and its reply goes out behind another message.
  abbrev pub Answered : RaftNode M → Message → ClientRequest → RaftNode M → Type 0
  Answered n msg req m =
      ((e : Effect) × (m.out
          ≡ (n.out ++ e ∷ []) ++ answer n (request_of msg req) (new_entry s n req) ∷ []))
      × (m.state_machine ≡ (s.apply (new_entry s n req) n.state_machine).1)

  -- A leader that has applied all of its log answers a request as soon as its entry is committed: the
  -- reply goes to the client that sent it, with the number of the request and with the value that the
  -- state machine returns for the entry, behind the message that replicates the entry.
  pub client_request-Answered :
      (n : RaftNode M) (msg : Message) (req : ClientRequest)
      → IsContiguous n.log
      → suc (length n.log.entries) < u64_mod
      → n.st.role ≡ Role.leader
      → n.st.last_applied ≡ n.log.last_log_index
      → lookup (suc n.st.last_applied) n.requests ≡ none
      → Returns (Answered n msg req) (
          handle_client_request s n msg req >>= λ m.
          apply_to_state_machine s (suc n.st.last_applied) m)
  client_request-Answered n msg req c f leads done free =
      let request = request_of msg req in
      let entry = new_entry s n req in
      Returns-bind (Waits n request entry) _ (handle_client_request s n msg req) _
        (request-Waits n msg req c f leads done free)
        (λ m q.
          let (known, at, applied, machine, config, sent) = q in
          let small : suc m.st.last_applied < u64_mod = omega (arith, applied, done, c.last, f) in
          let answers =
            apply_to_state_machine-answers m request entry small
              (ap (λ k. entry_at m.log (suc k)) applied ∙ at)
              (ap (λ k. lookup (suc k) m.requests) applied ∙ known) in
          let same : answer m request entry ≡ answer n request entry = rw (machine, config) refl in
          Returns-map (Applied m request entry) _
            (apply_to_state_machine s (suc n.st.last_applied) m)
            (λ x r. (
              (
                sent.0,
                r.0
                    ∙ ap (λ l. l ++ answer m request entry ∷ []) sent.1
                    ∙ ap (λ a. (n.out ++ sent.0 ∷ []) ++ a ∷ []) same,
              ),
              r.1 ∙ ap (λ d. (s.apply entry d).1) machine,
            ))
            (subst (λ k. Returns (Applied m request entry) (apply_to_state_machine s (suc k) m))
              applied answers))

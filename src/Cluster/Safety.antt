-- ===== src/Cluster/Safety.antt =====
-- No run of a cluster goes wrong.
use embkv.Base.{
  ℕ, zero, suc, ◌+◌, ◌≤◌, ◌<◌, sym, Option, none, some, List, [], ◌∷◌, arith, u64_mod, All, ok,
  Holds, subst, Returns, Returns-and, Returns-bind, Returns-map, Bool-cases, inl, inr, get_elem?,
  length,
}
use embkv.Proto.{Content}
use embkv.Node.{RaftNode, Services, Effect}
use embkv.Node.Timers.{handle_parse_timeout}
use embkv.Node.Valid.Leader.{match_values-fit}
use embkv.Node.Valid.Moves.{Moves}
use embkv.Node.Run.{step}
use embkv.Node.Run.Safety.{IsSoundEvent, step-Moves}
use embkv.Node.Speaks.{Promise, ContentFits, EffectFits, Speaks}
use embkv.Node.Speaks.Timers.{election_timeout-Speaks, heartbeat_timeout-Speaks, reissue-Speaks}
use embkv.Cluster.{Input, Action, set_at, batch_of, event_of, act_at, act, act_all}
use embkv.Cluster.Sound.{
  IsMember, InputFits, Each, All-Each, Delivered-AllSound, handle_all-Speaks, batch_of-Delivered,
}

module _ {M : Type 0} (s : Services M) (p : Promise s) (bound : ℕ) (ps : List ℕ) where
  step-Speaks :
      (n : RaftNode M) (nodes : List (RaftNode M)) (input : Input)
      → suc n.st.current_term ≤ bound
      → All (IsMember s p bound ps) nodes
      → InputFits s p ps input
      → IsMember s p bound ps n
      → Holds (Speaks s p bound ps) (step s n (event_of nodes n.config.node_id input))
  unfolding step handle_parse_timeout
  step-Speaks n nodes (Input.election_timeout revents now) f all g v =
      election_timeout-Speaks s p bound ps n revents now f v.speaks
  step-Speaks n nodes (Input.heartbeat_timeout revents) f all g v =
      heartbeat_timeout-Speaks s p bound ps n revents
        (match_values-fit n.peers n.st.match_index v.valid.tracks.known) v.speaks
  step-Speaks n nodes (Input.parse_timeout revents sources) f all g v =
      elim (Bool-cases revents.timeout) [
        | inl fired ↦
            rw (fired, handle_parse_timeout)
              (handle_all-Speaks s p bound ps n (batch_of nodes n.config.node_id sources)
                (batch_of-Delivered s p bound ps nodes n.config.node_id sources all g) v.speaks)
        | inr idle ↦ rw (idle, handle_parse_timeout) v.speaks
      ]
  step-Speaks n nodes (Input.reissue_timeout revents) f all g v =
      reissue-Speaks s p bound ps n revents v.speaks

  event_of-IsSoundEvent :
      (nodes : List (RaftNode M)) (id : ℕ) (input : Input)
      → All (IsMember s p bound ps) nodes
      → InputFits s p ps input
      → IsSoundEvent ps (event_of nodes id input)
  event_of-IsSoundEvent nodes id (Input.election_timeout revents now) all g = tt
  event_of-IsSoundEvent nodes id (Input.heartbeat_timeout revents) all g = tt
  event_of-IsSoundEvent nodes id (Input.parse_timeout revents sources) all g =
      Delivered-AllSound s p bound ps (batch_of nodes id sources)
        (batch_of-Delivered s p bound ps nodes id sources all g)
  event_of-IsSoundEvent nodes id (Input.reissue_timeout revents) all g = tt

  step-IsMember :
      (n : RaftNode M) (nodes : List (RaftNode M)) (input : Input)
      → suc n.st.current_term ≤ bound
      → bound < u64_mod
      → All (IsMember s p bound ps) nodes
      → InputFits s p ps input
      → IsMember s p bound ps n
      → Returns (IsMember s p bound ps) (step s n (event_of nodes n.config.node_id input))
  step-IsMember n nodes input f small all g v =
      let event = event_of nodes n.config.node_id input in
      let sound : IsSoundEvent n.peers event =
        subst (λ l. IsSoundEvent l event) (sym v.speaks.same_peers)
          (event_of-IsSoundEvent nodes n.config.node_id input all g) in
      Returns-map (λ m. Moves n m × Speaks s p bound ps m) (IsMember s p bound ps) (step s n event)
        (λ m q. record { valid = q.0.valid; speaks = q.1 })
        (Returns-and (Moves n) (Speaks s p bound ps) (step s n event)
          (step-Moves s n event v.valid sound (omega arith)) (step-Speaks n nodes input f all g v))

  set_at-IsMember :
      (nodes : List (RaftNode M)) (i : ℕ) (n : RaftNode M)
      → All (IsMember s p bound ps) nodes
      → IsMember s p bound ps n
      → All (IsMember s p bound ps) (set_at i n nodes)
  set_at-IsMember [] i n all v = tt
  set_at-IsMember (x ∷ xs) zero n all v = (v, all.1)
  set_at-IsMember (x ∷ xs) (suc i) n all v = (all.0, set_at-IsMember xs i n all.1 v)

module _ {M : Type 0} (s : Services M) (p : Promise s) (ps : List ℕ) where
  content-grows : (a b : ℕ) (c : Content) → a ≤ b → ContentFits s p a c → ContentFits s p b c
  content-grows a b (Content.request_vote_request r) le f = omega arith
  content-grows a b (Content.request_vote_response r) le f = omega arith
  content-grows a b (Content.append_entries_request r) le f = (omega (arith, f.0), f.1, f.2)
  content-grows a b (Content.append_entries_response r) le f = (omega (arith, f.0), f.1)
  content-grows a b (Content.client_request r) le f = f
  content-grows a b _ le f = tt

  effects-grow :
      (a b : ℕ) (es : List Effect)
      → a ≤ b
      → All (EffectFits s p a ps) es
      → All (EffectFits s p b ps) es
  effects-grow a b [] le f = tt
  effects-grow a b (Effect.to_pipelines m priority ∷ es) le f =
      ((f.0.0, content-grows a b m.content le f.0.1), effects-grow a b es le f.1)
  effects-grow a b (Effect.to_peer id m ∷ es) le f =
      ((f.0.0, content-grows a b m.content le f.0.1), effects-grow a b es le f.1)
  effects-grow a b (_ ∷ es) le f = (tt, effects-grow a b es le f.1)

  IsMember-grows : (a b : ℕ) (n : RaftNode M) → a ≤ b → IsMember s p a ps n → IsMember s p b ps n
  IsMember-grows a b n le v = record {
    valid = v.valid;
    speaks = record {
      same_peers = v.speaks.same_peers;
      named = v.speaks.named;
      term = omega (arith, v.speaks.term);
      commit_fits = v.speaks.commit_fits;
      last_fits = v.speaks.last_fits;
      entries_fit = v.speaks.entries_fit;
      machine = v.speaks.machine;
      sent = effects-grow a b n.out le v.speaks.sent;
    };
  }

  members-grow :
      (a b : ℕ) (nodes : List (RaftNode M))
      → a ≤ b
      → All (IsMember s p a ps) nodes
      → All (IsMember s p b ps) nodes
  members-grow a b [] le v = tt
  members-grow a b (n ∷ nodes) le v = (IsMember-grows a b n le v.0, members-grow a b nodes le v.1)

  act_at-IsMember :
      (bound : ℕ) (nodes : List (RaftNode M)) (i : ℕ) (input : Input) (n : Option (RaftNode M))
      → suc bound < u64_mod
      → All (IsMember s p bound ps) nodes
      → Each (IsMember s p bound ps) n
      → InputFits s p ps input
      → Returns (All (IsMember s p (suc bound) ps)) (act_at s nodes i input n)
  act_at-IsMember bound nodes i input none small all v g =
      members-grow bound (suc bound) nodes (omega arith) all
  act_at-IsMember bound nodes i input (some n) small all v g =
      let more = members-grow bound (suc bound) nodes (omega arith) all in
      Returns-bind (IsMember s p (suc bound) ps) (All (IsMember s p (suc bound) ps))
        (step s n (event_of nodes n.config.node_id input)) (λ m. ok (set_at i m nodes))
        (step-IsMember s p (suc bound) ps n nodes input (omega (arith, v.speaks.term)) small more g
          (IsMember-grows bound (suc bound) n (omega arith) v))
        (λ m q. set_at-IsMember s p (suc bound) ps nodes i m more q)

  -- Given nodes that are valid and have the same peers, their own ids among them, where no
  -- term of a node or of a message that one has sent is above a bound, the commit and log
  -- indices are below 2 ^ 64, the entries of the logs and what was sent are made of client
  -- requests, and a property holds of all state machines that is kept when a client request is
  -- applied. Then for any actions in which clients use ids of peers, and whose number and the
  -- bound are together below 2 ^ 64: whatever is delivered where, how often and in which
  -- order, no callback of any node faults, and in the end all this holds of the nodes again,
  -- with the number of actions added to the bound.
  pub act_all-IsMember :
      (bound : ℕ) (nodes : List (RaftNode M)) (actions : List Action)
      → bound + length actions < u64_mod
      → All (IsMember s p bound ps) nodes
      → All (λ a. InputFits s p ps a.1) actions
      → Returns (All (IsMember s p (bound + length actions) ps)) (act_all s nodes actions)
  unfolding act_all act
  act_all-IsMember bound nodes [] small all g =
      members-grow bound (bound + 0) nodes (omega arith) all
  act_all-IsMember bound nodes ((i, input) ∷ actions) small all g =
      Returns-bind (All (IsMember s p (suc bound) ps)) _ (act s nodes (i, input))
        (λ after. act_all s after actions)
        (act_at-IsMember bound nodes i input (get_elem? nodes i) (omega arith) all
          (All-Each (IsMember s p bound ps) nodes i all) g.0)
        (λ after q.
          Returns-map _ _ (act_all s after actions) (λ end r. members-grow _ _ end (omega arith) r)
            (act_all-IsMember (suc bound) after actions (omega arith) q g.1))

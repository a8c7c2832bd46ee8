-- ===== src/Cluster/Replicas/Agree.antt =====
-- The leader and other nodes over any sequence of acts.
use embkv.Base.{
  All, ℕ, suc, ◌<◌, ◌≡◌, refl, ap, ◌∙◌, List, [], ◌∷◌, ◌++◌, arith, u64_mod, length, Returns,
  Returns-bind, Returns-map,
}
use embkv.Base.Sets.{contains}
use embkv.Node.{RaftNode, Services}
use embkv.Cluster.Replicas.{Act, lead_act, hear, hear_each, exchange, exchange_all}
use embkv.Cluster.Replicas.Leader.{Leading, Asks, request-Asks, Hears, reply-Hears}
use embkv.Cluster.Replicas.Heartbeat.{Beats, heartbeat_timeout-Beats}
use embkv.Cluster.Replicas.Pair.{
  ActFits, length_after, ActsFit, Follows, Led, Asks-Led, Beats-Led, Hears-Led, Same,
}
use embkv.Cluster.Replicas.Heard.{request_heard, heartbeat_heard, reply_heard}

module _ {M : Type 0} (s : Services M) (first : M) where
  hear_each-Returns :
      (P Q : RaftNode M → Type 0) (now : ℕ) (n m : RaftNode M) (fs : List (RaftNode M))
      → All P fs
      → ((f : RaftNode M) → P f → Returns Q (hear s now n m f))
      → Returns (All Q) (hear_each s now n m fs)
  unfolding hear_each
  hear_each-Returns P Q now n m [] h k = tt
  hear_each-Returns P Q now n m (f ∷ fs) h k =
      Returns-bind Q (All Q) (hear s now n m f) _ (k f h.0) (λ g q.
        Returns-bind (All Q) (All Q) (hear_each s now n m fs) _
          (hear_each-Returns P Q now n m fs h.1 k) (λ gs qs. (q, qs)))

  -- A leader, and other nodes that follow it.
  abbrev Team : List ℕ → ℕ → ℕ → RaftNode M × List (RaftNode M) → Type 0
  Team ps term len (n, fs) = Led s first ps term len n × All (Follows s first n) fs

  -- One act of the leader and what the others make of it, when what the leader does and what another
  -- node hears is known.
  exchange-Returns :
      (P : RaftNode M → Type 0) (Q : RaftNode M → RaftNode M → Type 0) (n : RaftNode M)
      (fs : List (RaftNode M)) (act : Act) (now : ℕ)
      → All (Follows s first n) fs
      → Returns P (lead_act s n act)
      → ((m f : RaftNode M) → P m → Follows s first n f → Returns (Q m) (hear s now n m f))
      → Returns (λ p. P p.0 × All (Q p.0) p.1) (exchange s n fs (act, now))
  unfolding exchange
  exchange-Returns P Q n fs act now ws h k =
      Returns-bind P (λ p. P p.0 × All (Q p.0) p.1) (lead_act s n act) _ h
        (λ m p.
          Returns-bind (All (Q m)) (λ p. P p.0 × All (Q p.0) p.1) (hear_each s now n m fs) _
            (hear_each-Returns (Follows s first n) (Q m) now n m fs ws (λ f w. k m f p w))
            (λ gs qs. (p, qs)))

  All-first :
      (P Q : RaftNode M → Type 0) (fs : List (RaftNode M))
      → All (λ f. P f × Q f) fs
      → All P fs × All Q fs
  All-first P Q [] h = (tt, tt)
  All-first P Q (f ∷ fs) h = let rest = All-first P Q fs h.1 in ((h.0.0, rest.0), (h.0.1, rest.1))

  abbrev Level : RaftNode M × List (RaftNode M) → Type 0
  Level (n, fs) = All (λ f. Same s first (n, f)) fs

  exchange_heartbeat-Level :
      (ps : List ℕ) (term len now : ℕ) (n : RaftNode M) (fs : List (RaftNode M))
      → Team ps term len (n, fs)
      → Returns (λ p. Team ps term len p × Level p) (exchange s n fs (Act.heartbeat, now))
  exchange_heartbeat-Level ps term len now n fs (a, ws) =
      Returns-map _ (λ p. Team ps term len p × Level p) (exchange s n fs (Act.heartbeat, now))
        (λ p q.
          let both = All-first (Follows s first p.0) (λ f. Same s first (p.0, f)) p.1 q.1 in
          ((Beats-Led s first ps term len n p.0 a q.0.0 q.0.1 q.0.2, both.0), both.1))
        (exchange-Returns (λ m. Leading s first m × Beats s first n m × (m.peers ≡ n.peers))
          (λ m g. Follows s first m g × Same s first (m, g)) n fs Act.heartbeat now ws
          (unfold lead_act in
            heartbeat_timeout-Beats s first n (omega (arith, a.length_is, a.small)) a.leading)
          (λ m f q w. heartbeat_heard s first ps term len now n f m a w q.0 q.1 q.2))

  exchange-Team :
      (ps : List ℕ) (term len now : ℕ) (act : Act) (n : RaftNode M) (fs : List (RaftNode M))
      → ActFits ps term len act
      → Team ps term len (n, fs)
      → Returns (Team ps term (length_after len act)) (exchange s n fs (act, now))
  exchange-Team ps term len now (Act.request msg req) n fs (named, room) (a, ws) =
      Returns-map _ (Team ps term (suc len)) (exchange s n fs (Act.request msg req, now))
        (λ p q. (Asks-Led s first ps term len n p.0 req room a q.0, q.1))
        (exchange-Returns (Asks s first n req) (Follows s first) n fs (Act.request msg req) now ws
          (unfold lead_act in
            request-Asks s first n msg req (omega (arith, a.length_is, room))
              (ap (contains msg.node_id) a.peers ∙ named) a.leading)
          (λ m f q w. request_heard s first ps term len now n f m req room a w q))
  exchange-Team ps term len now (Act.reply msg res) n fs (named, old, le) (a, ws) =
      Returns-map _ (Team ps term len) (exchange s n fs (Act.reply msg res, now))
        (λ p q. (Hears-Led s first ps term len n p.0 a q.0, q.1))
        (exchange-Returns (Hears s first n) (Follows s first) n fs (Act.reply msg res) now ws
          (unfold lead_act in
            reply-Hears s first n msg res (ap (contains msg.node_id) a.peers ∙ named)
              (omega (arith, a.term_is, old)) (omega (arith, a.length_is, le))
              (omega (arith, a.length_is, a.small)) a.leading)
          (λ m f q w. reply_heard s first ps term len now n f m a w q))
  exchange-Team ps term len now Act.heartbeat n fs h a =
      Returns-map (λ p. Team ps term len p × Level p) (Team ps term len)
        (exchange s n fs (Act.heartbeat, now)) (λ p q. q.0)
        (exchange_heartbeat-Level ps term len now n fs a)

  acts-Level :
      (ps : List ℕ) (term len now : ℕ) (acts : List (Act × ℕ)) (n : RaftNode M)
      (fs : List (RaftNode M))
      → ActsFit ps term len acts
      → Team ps term len (n, fs)
      → Returns Level (exchange_all s n fs (acts ++ (Act.heartbeat, now) ∷ []))
  unfolding exchange_all
  acts-Level ps term len now [] n fs h a =
      Returns-bind (λ p. Team ps term len p × Level p) Level (exchange s n fs (Act.heartbeat, now))
        _ (exchange_heartbeat-Level ps term len now n fs a) (λ p q. q.1)
  acts-Level ps term len now ((act, at) ∷ acts) n fs h a =
      Returns-bind (Team ps term (length_after len act)) Level (exchange s n fs (act, at)) _
        (exchange-Team ps term len at act n fs h.0 a)
        (λ p q. acts-Level ps term (length_after len act) now acts p.0 p.1 h.1 q)

  -- Given a valid leader with a contiguous log of fewer than 2 ^ 64 entries and no match index
  -- behind the log's end, and other valid nodes of its cluster, each with the same log, no
  -- later term and no larger commit index, where each state machine is what the node's applied
  -- entries make of the same first one. The leader handles any sequence of requests (under the
  -- id of a peer, as long as the log has fewer than 2 ^ 64 entries), replies (of a peer, of no
  -- later term, with a last index of at most the leader's) and heartbeats, and each message
  -- that it enqueues for its peers is handled by each of the others at once. Then every
  -- handler returns, and after one more heartbeat each of the others has the leader's log,
  -- term, commit index and state machine, which is what the committed entries of the log, each
  -- once and in order, make of the first one.
  pub exchange_all-Same :
      (n : RaftNode M) (fs : List (RaftNode M)) (acts : List (Act × ℕ)) (now : ℕ)
      → length n.log.entries < u64_mod
      → Leading s first n
      → All (Follows s first n) fs
      → ActsFit n.peers n.st.current_term (length n.log.entries) acts
      → Returns
          (λ p. All (λ g. Same s first (p.0, g)) p.1)
          (exchange_all s n fs (acts ++ (Act.heartbeat, now) ∷ []))
  exchange_all-Same n fs acts now small l ws h =
      acts-Level n.peers n.st.current_term (length n.log.entries) now acts n fs h
        (record { leading = l; peers = refl; term_is = refl; length_is = refl; small = small }, ws)

-- ===== src/Node/Apply/Loop.antt =====
-- The loop of apply_to_state_machine: it ends, it reaches the commit index, and it touches nothing
-- but what it applies.
use embkv.Base.{
  ℕ, zero, suc, ◌+◌, ◌-◌, ◌≤◌, ◌<◌, ◌≡◌, Option, none, some, arith, add64, u64_mod, ◌>>=◌, Returns,
  Returns-bind, ap, subst, lt→ltb, Returns-map, get_elem?-some,
}
use embkv.Proto.{EntryMeta}
use embkv.Log.{RaftLog, entry_at}
use embkv.Node.{RaftNode, Services}
use embkv.Node.Apply.{apply_entry, apply_next, apply_loop, apply_to_state_machine, advance}

-- A log that starts at 0 throws at no index.
pub entry_at-Returns :
    (log : RaftLog) (i : ℕ) → log.start_index ≡ 0 → Returns (λ e. Unit {0}) (entry_at log i)
unfolding entry_at
entry_at-Returns log i h = ground (arith, get_elem?-some log.entries (i - 1))

module _ {M : Type 0} where
  -- All that applying entries leaves as it is.
  pub record Applies (n m : RaftNode M) : Type 0 where
    pub term_same : m.st.current_term ≡ n.st.current_term
    pub vote_same : m.st.voted_for ≡ n.st.voted_for
    pub role_same : m.st.role ≡ n.st.role
    pub votes_same : m.st.votes ≡ n.st.votes
    pub commit_same : m.st.commit_index ≡ n.st.commit_index
    pub next_same : m.st.next_index ≡ n.st.next_index
    pub match_same : m.st.match_index ≡ n.st.match_index
    pub log_same : m.log ≡ n.log
    pub peers_same : m.peers ≡ n.peers
    pub config_same : m.config ≡ n.config

  pub Applies-trans : (a b c : RaftNode M) → Applies a b → Applies b c → Applies a c
  Applies-trans a b c h k = record {
    term_same = cc;
    vote_same = cc;
    role_same = cc;
    votes_same = cc;
    commit_same = cc;
    next_same = cc;
    match_same = cc;
    log_same = cc;
    peers_same = cc;
    config_same = cc;
  }

  module _ (s : Services M) where
    -- One round applies the entry after the last one.
    abbrev pub Round : RaftNode M → RaftNode M → Type 0
    Round n m = Applies n m × (m.st.last_applied ≡ add64 n.st.last_applied 1)

    apply_entry-Round :
        (n : RaftNode M) (e : Option EntryMeta) → Round n (apply_entry s (advance s n) e)
    unfolding apply_entry
    apply_entry-Round n none = ground arith
    apply_entry-Round n (some e) = ground arith

    pub apply_next-Round :
        (n : RaftNode M) → n.log.start_index ≡ 0 → Returns (Round n) (apply_next s n)
    unfolding apply_next
    apply_next-Round n h =
        Returns-bind (λ e. Unit {0}) (Round n) (entry_at n.log (add64 n.st.last_applied 1)) _
          (entry_at-Returns n.log (add64 n.st.last_applied 1) h) (λ e _. apply_entry-Round n e)

    abbrev pub Reaches : ℕ → RaftNode M → RaftNode M → Type 0
    Reaches k n m = Applies n m × (m.st.last_applied ≡ k)

    pub apply_loop-suc :
        (fuel k : ℕ) (n : RaftNode M)
        → n.st.last_applied < k
        → (apply_next s n >>= apply_loop s fuel k) ≡ apply_loop s (suc fuel) k n
    unfolding apply_loop
    apply_loop-suc fuel k n h = ground (arith, lt→ltb n.st.last_applied k)

    -- With one round for each entry the loop ends by its test.
    pub apply_loop-Reaches :
        (fuel k : ℕ) (n : RaftNode M)
        → n.log.start_index ≡ 0
        → k < u64_mod
        → n.st.last_applied + fuel ≡ k
        → Returns (Reaches k n) (apply_loop s fuel k n)
    apply_loop-Reaches zero k n h small e = unfold apply_loop in ground arith
    apply_loop-Reaches (suc fuel) k n h small e =
        subst (Returns (Reaches k n)) (apply_loop-suc fuel k n (omega arith)) (
          Returns-bind (Round n) (Reaches k n) (apply_next s n) (apply_loop s fuel k)
            (apply_next-Round n h)
            (λ m r.
              Returns-map (Reaches k m) (Reaches k n) (apply_loop s fuel k m)
                (λ x q. (Applies-trans n m x r.0 q.0, q.1))
                (apply_loop-Reaches fuel k m (cc (ap (λ (l : RaftLog). l.start_index) r.0.log_same))
                  small (omega (arith, r.1)))))

    -- apply_to_state_machine ends, with everything up to the commit index applied.
    pub apply_to_state_machine-Reaches :
        (k : ℕ) (n : RaftNode M)
        → n.log.start_index ≡ 0
        → k < u64_mod
        → n.st.last_applied ≤ k
        → Returns
            (Reaches k (record n { st = record n.st { commit_index = k } }))
            (apply_to_state_machine s k n)
    unfolding apply_to_state_machine
    apply_to_state_machine-Reaches k n h small le =
        apply_loop-Reaches (k - n.st.last_applied) k _ h small (omega arith)

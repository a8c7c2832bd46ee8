-- ===== src/Node/Apply/Replay.antt =====
-- The state machine as the replay of the first entries of the log.
use embkv.Base.{
  ℕ, zero, suc, ◌-◌, ◌≤◌, ◌≡◌, refl, sym, ap, ap₂, ◌∙◌, List, [], ◌∷◌, ◌++◌, append-nil, arith,
  length, length-append, Returns, Returns-map, Returns-both, take, take-nil, take-append,
}
use embkv.Proto.{EntryMeta}
use embkv.Log.{RaftLog}
use embkv.Log.Contiguous.{Fits}
use embkv.Node.{RaftNode, Services}
use embkv.Node.Apply.{apply_to_state_machine}
use embkv.Node.Apply.Loop.{Reaches, apply_to_state_machine-Reaches}
use embkv.Node.Apply.Machine.{apply_all, between, apply_to_state_machine-order}

take-between : (i k : ℕ) (es : List EntryMeta) → i ≤ k → take i es ++ between i k es ≡ take k es
take-between zero k es h = let e : k - 0 ≡ k = omega arith in rw e
take-between (suc i) zero es h = absurd (omega arith)
take-between (suc i) (suc k) [] h = take-nil EntryMeta (suc k - suc i)
take-between (suc i) (suc k) (x ∷ es) h =
    let e : suc k - suc i ≡ k - i = omega arith in
    rw e (ap (λ l. x ∷ l) (take-between i k es (omega arith)))

take-append_more :
    (k : ℕ) (es more : List EntryMeta) → k ≤ length es → take k (es ++ more) ≡ take k es
take-append_more k es more h =
    let e : k - length es ≡ 0 = omega arith in take-append k es more ∙ rw e (append-nil (take k es))

module _ {M : Type 0} (s : Services M) (first : M) where
  apply_all-append :
      (es ds : List EntryMeta) (m : M)
      → apply_all s (es ++ ds) m ≡ apply_all s ds (apply_all s es m)
  unfolding apply_all
  apply_all-append [] ds m = refl
  apply_all-append (e ∷ es) ds m = apply_all-append es ds (s.apply e m).1

  -- The state machine is what the applied entries, all of them in the log, make of the first one.
  pub record Replays (n : RaftNode M) : Type 0 where
    pub within : n.st.last_applied ≤ length n.log.entries
    pub machine : n.state_machine ≡ apply_all s (take n.st.last_applied n.log.entries) first

  -- Another node with the same of these fields, and more entries in its log.
  pub Replays-append :
      (n m : RaftNode M) (more : List EntryMeta)
      → m.log.entries ≡ n.log.entries ++ more
      → m.st.last_applied ≡ n.st.last_applied
      → m.state_machine ≡ n.state_machine
      → Replays n
      → Replays m
  Replays-append n m more e a q r = record {
    within = omega (arith, a, ap length e, length-append n.log.entries more, r.within);
    machine =
        q
        ∙ r.machine
        ∙ ap (λ l. apply_all s l first)
            (sym (take-append_more n.st.last_applied n.log.entries more r.within)
              ∙ ap₂ take (sym a) (sym e));
  }

  -- Applying up to an entry that is in the log.
  pub apply-Replays :
      (k : ℕ) (n : RaftNode M)
      → Fits n.log
      → n.st.last_applied ≤ k
      → k ≤ length n.log.entries
      → Replays n
      → Returns
          (λ m. Replays m × Reaches s k (record n { st = record n.st { commit_index = k } }) m)
          (apply_to_state_machine s k n)
  apply-Replays k n f le within r =
      Returns-map
        (λ m.
          (m.state_machine
            ≡ apply_all s (between n.st.last_applied k n.log.entries) n.state_machine)
          × Reaches s k (record n { st = record n.st { commit_index = k } }) m)
        _ (apply_to_state_machine s k n)
        (λ m q.
          let es : List EntryMeta = n.log.entries in
          let log : m.log.entries ≡ es = ap (λ (l : RaftLog). l.entries) q.1.0.log_same in
          let whole : m.state_machine ≡ apply_all s (take k es) first =
            q.0
            ∙ ap (apply_all s (between n.st.last_applied k es)) r.machine
            ∙ sym (
                apply_all-append (take n.st.last_applied es) (between n.st.last_applied k es) first)
            ∙ ap (λ l. apply_all s l first) (take-between n.st.last_applied k es le) in
          (
            record {
              within = omega (arith, q.1.1, ap length log);
              machine = whole ∙ ap (λ l. apply_all s l first) (ap₂ take (sym q.1.1) (sym log));
            },
            q.1,
          ))
        (Returns-both _ _ (apply_to_state_machine s k n)
          (apply_to_state_machine-order s k n f le (omega (arith, f.small)))
          (apply_to_state_machine-Reaches s k n f.from_start (omega (arith, f.small)) le))

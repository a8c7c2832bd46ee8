-- ===== src/Node/Apply/Machine.antt =====
-- What apply_to_state_machine does to the state machine.
use embkv.Base.{
  ℕ, zero, suc, ◌+◌, ◌-◌, ◌≤◌, ◌<◌, ◌≡◌, refl, ap, ◌∙◌, subst, Option, none, some, List, [], ◌∷◌,
  arith, add64, u64_mod, length, ◌>>=◌, Returns, Returns-bind, Returns-map, Returns-both, get_elem?,
  take, drop, take-nil,
}
use embkv.Proto.{EntryMeta}
use embkv.Log.{entry_at}
use embkv.Log.Contiguous.{Fits, entry_at-eq-nth}
use embkv.Node.{RaftNode, Services}
use embkv.Node.Apply.{apply_entry, apply_next, apply_loop, apply_to_state_machine, advance}
use embkv.Node.Apply.Loop.{apply_loop-suc, apply_to_state_machine-Reaches}

-- The entries behind the first `from`, up to `to`.
abbrev pub between : ℕ → ℕ → List EntryMeta → List EntryMeta
between from to es = take (to - from) (drop from es)

drop-some :
    (es : List EntryMeta) (i : ℕ) (e : EntryMeta)
    → get_elem? es i ≡ some e
    → drop i es ≡ e ∷ drop (suc i) es
drop-some [] i e h = cc
drop-some (x ∷ es) zero e h = ground arith
drop-some (x ∷ es) (suc i) e h = drop-some es i e h

drop-none :
    (es : List EntryMeta) (i : ℕ)
    → get_elem? es i ≡ none
    → (drop i es ≡ []) × (drop (suc i) es ≡ [])
drop-none [] zero h = (refl, refl)
drop-none [] (suc i) h = (refl, refl)
drop-none (x ∷ es) zero h = cc
drop-none (x ∷ es) (suc i) h = drop-none es i h

drop-all : (i : ℕ) (es : List EntryMeta) → length es ≤ i → drop i es ≡ []
drop-all zero [] h = refl
drop-all zero (x ∷ es) h = absurd (omega arith)
drop-all (suc i) [] h = refl
drop-all (suc i) (x ∷ es) h = drop-all i es (omega arith)

module _ {M : Type 0} (s : Services M) where
  -- The entries applied one after another, with the answers left out.
  unfoldable pub apply_all : List EntryMeta → M → M
  apply_all [] m = m
  apply_all (e ∷ es) m = apply_all es (s.apply e m).1

  -- What is still to be applied.
  abbrev Todo : ℕ → RaftNode M → M
  Todo fuel n = apply_all (take fuel (drop n.st.last_applied n.log.entries)) n.state_machine

  -- One round takes the next entry off what is still to be applied.
  abbrev Takes : ℕ → RaftNode M → RaftNode M → Type 0
  Takes fuel n m =
      (m.log ≡ n.log)
      × (m.st.last_applied ≡ suc n.st.last_applied)
      × (Todo fuel m ≡ Todo (suc fuel) n)

  apply_entry-Takes :
      (fuel : ℕ) (n : RaftNode M) (e : Option EntryMeta)
      → suc n.st.last_applied < u64_mod
      → get_elem? n.log.entries n.st.last_applied ≡ e
      → Takes fuel n (apply_entry s (advance s n) e)
  unfolding apply_entry apply_all
  apply_entry-Takes fuel n none f h =
      let next : add64 n.st.last_applied 1 ≡ suc n.st.last_applied = omega arith in
      let gone = drop-none n.log.entries n.st.last_applied h in
      (refl, next, rw (next, gone.0, gone.1, take-nil EntryMeta fuel))
  apply_entry-Takes fuel n (some e) f h =
      let next : add64 n.st.last_applied 1 ≡ suc n.st.last_applied = omega arith in
      (refl, next, rw (next, drop-some n.log.entries n.st.last_applied e h))

  apply_next-Takes :
      (fuel : ℕ) (n : RaftNode M)
      → Fits n.log
      → suc n.st.last_applied < u64_mod
      → Returns (Takes fuel n) (apply_next s n)
  unfolding apply_next
  apply_next-Takes fuel n f small =
      let next : add64 n.st.last_applied 1 ≡ suc n.st.last_applied = omega arith in
      let found = ap (entry_at n.log) next ∙ entry_at-eq-nth n.log (suc n.st.last_applied) f in
      rw (found, ◌>>=◌)
        (apply_entry-Takes fuel n (get_elem? n.log.entries n.st.last_applied) small refl)

  apply_loop-Machine :
      (fuel k : ℕ) (n : RaftNode M)
      → Fits n.log
      → k < u64_mod
      → n.st.last_applied + fuel ≡ k
      → Returns (λ m. m.state_machine ≡ Todo fuel n) (apply_loop s fuel k n)
  apply_loop-Machine zero k n f small e = unfold apply_loop apply_all in refl
  apply_loop-Machine (suc fuel) k n f small e =
      subst (Returns (λ m. m.state_machine ≡ Todo (suc fuel) n))
        (apply_loop-suc s fuel k n (omega arith))
        (Returns-bind (Takes fuel n) (λ m. m.state_machine ≡ Todo (suc fuel) n) (apply_next s n)
          (apply_loop s fuel k) (apply_next-Takes fuel n f (omega arith))
          (λ m t.
            Returns-map (λ x. x.state_machine ≡ Todo fuel m) _ (apply_loop s fuel k m)
              (λ x q. q ∙ t.2) (apply_loop-Machine fuel k m (rw t.0 f) small (omega (arith, t.1)))))

  -- apply_to_state_machine(k) feeds the state machine the entries behind the last applied one, up to
  -- entry `k`, each once and in the order of the log; a place at which the log has no entry yet is
  -- passed over.
  pub apply_to_state_machine-order :
      (k : ℕ) (n : RaftNode M)
      → Fits n.log
      → n.st.last_applied ≤ k
      → k < u64_mod
      → Returns
          (λ m.
            m.state_machine ≡ apply_all (between n.st.last_applied k n.log.entries) n.state_machine)
          (apply_to_state_machine s k n)
  unfolding apply_to_state_machine
  apply_to_state_machine-order k n f le small =
      apply_loop-Machine (k - n.st.last_applied) k _ f small (omega arith)

  -- A commit index that arrives before its entries is lost: the state machine stays as it is, and the
  -- places count as applied, so that later entries there are never applied.
  pub apply_to_state_machine-skips :
      (k : ℕ) (n : RaftNode M)
      → Fits n.log
      → length n.log.entries ≤ n.st.last_applied
      → n.st.last_applied ≤ k
      → k < u64_mod
      → Returns
          (λ m. (m.state_machine ≡ n.state_machine) × (m.st.last_applied ≡ k))
          (apply_to_state_machine s k n)
  apply_to_state_machine-skips k n f short le small =
      Returns-both _ _ (apply_to_state_machine s k n)
        (Returns-map _ _ (apply_to_state_machine s k n) (λ m q. q ∙ nothing)
          (apply_to_state_machine-order k n f le small))
        (Returns-map _ _ (apply_to_state_machine s k n) (λ m q. q.1)
          (apply_to_state_machine-Reaches s k n f.from_start small le))
    where
      nothing :
          apply_all (between n.st.last_applied k n.log.entries) n.state_machine ≡ n.state_machine
      nothing =
          unfold apply_all in
          rw (
            drop-all n.st.last_applied n.log.entries short,
            take-nil EntryMeta (k - n.st.last_applied),
          )

-- ===== src/Cluster/Replicas/Answers.antt =====
-- What committing enqueues: replies for clients only.
use embkv.Base.{
  ℕ, zero, suc, ◌-◌, ◌≡◌, ap, ◌∙◌, Option, none, some, List, [], ◌∷◌, ◌++◌, append_assoc, add64,
  Holds, Bool-cases, inl, inr, ltb, All,
}
use embkv.Proto.{EntryMeta, Message}
use embkv.Log.{entry_at}
use embkv.Node.{RaftNode, Services, Effect, emit}
use embkv.Node.Apply.{apply_to_state_machine, apply_loop, apply_next, apply_entry, advance}
use embkv.Node.Timers.{commit}
use embkv.Node.Speaks.{Holds-any, Holds-bind}

-- A reply for a client, or a matter of the node's own timer: nothing for a peer.
abbrev pub IsLocal : Effect → Type 0
IsLocal (Effect.to_client client m) = Unit {0}
IsLocal Effect.reset_timer = Unit {0}
IsLocal _ = ⊥

All-snoc : (es : List Effect) (e : Effect) → All IsLocal es → IsLocal e → All IsLocal (es ++ e ∷ [])
All-snoc [] e h k = (k, tt)
All-snoc (x ∷ es) e h k = (h.0, All-snoc es e h.1 k)

module _ {M : Type 0} (s : Services M) where
  -- What is enqueued behind these effects is for clients only.
  abbrev pub Answered : List Effect → RaftNode M → Type 0
  Answered base m = (es : List Effect) × (m.out ≡ base ++ es) × All IsLocal es

  answer-Answered :
      (base : List Effect) (client : ℕ) (reply : Message) (n : RaftNode M)
      → Answered base n
      → Answered base (emit (Effect.to_client client reply) n)
  answer-Answered base client reply n (es, out, h) =
      let one : List Effect = Effect.to_client client reply ∷ [] in
      (
        es ++ one,
        ap (λ l. l ++ one) out ∙ append_assoc base es one,
        All-snoc es (Effect.to_client client reply) h tt,
      )

  apply_entry-Answered :
      (base : List Effect) (n : RaftNode M) (e : Option EntryMeta)
      → Answered base n
      → Answered base (apply_entry s (advance s n) e)
  unfolding apply_entry
  apply_entry-Answered base n none a = a
  apply_entry-Answered base n (some e) a = answer-Answered base _ _ n a

  apply_loop-Answered :
      (base : List Effect) (fuel k : ℕ) (n : RaftNode M)
      → Answered base n
      → Holds (Answered base) (apply_loop s fuel k n)
  unfolding apply_loop apply_next
  apply_loop-Answered base zero k n a = a
  apply_loop-Answered base (suc fuel) k n a = elim (Bool-cases (ltb n.st.last_applied k)) [
    | inr done ↦ rw (done, apply_loop) a
    | inl more ↦
        rw (more, apply_loop)
          (Holds-bind (Answered base) (Answered base) (apply_next s n) (apply_loop s fuel k)
            (Holds-bind (λ e. Unit {0}) (Answered base) (entry_at n.log (add64 n.st.last_applied 1))
              _ (Holds-any (entry_at n.log (add64 n.st.last_applied 1)))
              (λ e _. apply_entry-Answered base n e a))
            (λ m q. apply_loop-Answered base fuel k m q))
  ]

  pub commit-Answered :
      (base : List Effect) (value : ℕ) (n : RaftNode M)
      → Answered base n
      → Holds (Answered base) (commit s value n)
  unfolding commit apply_to_state_machine
  commit-Answered base value n a =
      let applied : Holds (Answered base) (
          apply_to_state_machine s value (record n { st = record n.st { commit_index = value } })) =
        unfold apply_to_state_machine in
        apply_loop-Answered base (value - n.st.last_applied) value _ a in
      elim (Bool-cases (ltb n.st.commit_index value)) [
        | inr done ↦ rw (done, commit) a
        | inl more ↦ rw (more, commit) applied
      ]

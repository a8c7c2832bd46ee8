-- ===== src/Node/Apply.antt =====
-- RaftNode::apply_to_state_machine of embkv/src/raft/node.cpp.
pub mod Loop
pub mod Machine
pub mod Answers
pub mod Replay
use embkv.Base.{ℕ, zero, suc, ◌-◌, true, false, Option, none, some, add64, ltb, Result, ok, ◌>>=◌}
use embkv.Base.Map.{lookup, emplace}
use embkv.Proto.{Bytes, EntryMeta, ClientResponse, Content, null_text}
use embkv.Log.{entry_at}
use embkv.Node.{RaftNode, Services, Request, default_request, Effect, emit, message}

abbrev pub value_or {ℓ} : {A : Type ℓ} → A → Option A → A
value_or d none = d
value_or d (some a) = a

-- The reply to the client that sent the entry.
abbrev pub success_response : ℕ → Option Bytes → ClientResponse
success_response request_id value = record {
  request_id = request_id;
  leader_hint = 0;
  success = true;
  value = value_or null_text value;
  error = none;
}

module _ {M : Type 0} (s : Services M) where
  -- `requests_[i]` adds an entry of zeros where there is none.
  unfoldable pub apply_entry : RaftNode M → Option EntryMeta → RaftNode M
  apply_entry n none = n
  apply_entry n (some entry) =
      let request = value_or default_request (lookup n.st.last_applied n.requests) in
      let (value, machine) = s.apply entry n.state_machine in
      emit
        (Effect.to_client request.client_id
          (message n (Content.client_response (success_response request.request_id value))))
        (record n {
          requests = emplace n.st.last_applied default_request n.requests;
          state_machine = machine;
        })

  abbrev pub advance : RaftNode M → RaftNode M
  advance n = record n { st = record n.st { last_applied = add64 n.st.last_applied 1 } }

  -- One round of the loop.
  unfoldable pub apply_next : RaftNode M → Result (RaftNode M)
  unfolding apply_entry
  apply_next n =
      entry_at n.log (add64 n.st.last_applied 1) >>= λ entry. ok (apply_entry (advance n) entry)

  -- `while (last_applied() < commit_index)`; the fuel is the number of rounds.
  unfoldable pub apply_loop : ℕ → ℕ → RaftNode M → Result (RaftNode M)
  apply_loop zero commit_index n = ok n
  apply_loop (suc fuel) commit_index n = elim (ltb n.st.last_applied commit_index) [
    | true ↦ apply_next n >>= apply_loop fuel commit_index
    | false ↦ ok n
  ]

  unfoldable pub apply_to_state_machine : ℕ → RaftNode M → Result (RaftNode M)
  apply_to_state_machine commit_index n =
      apply_loop (commit_index - n.st.last_applied) commit_index
        (record n { st = record n.st { commit_index = commit_index } })

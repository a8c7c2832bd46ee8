-- ===== src/Node/Advance.antt =====
-- What never goes back in the status of a node: its term, its vote within a term, and how far it has
-- committed and applied.
use embkv.Base.{ℕ, suc, ◌≤◌, ◌<◌, ◌≡◌, refl, Option, none, some, arith, u64_mod}
use embkv.Node.Append.{handle_append_entries_response}
use embkv.Proto.{Message, RequestVoteRequest, RequestVoteResponse, AppendEntriesResponse}
use embkv.Status.{RaftStatus}
use embkv.Node.{RaftNode}
use embkv.Node.Vote.{handle_request_vote_request, handle_request_vote_response, start_election}

-- A vote that was cast stays.
abbrev pub KeepsVote : Option ℕ → Option ℕ → Type 0
KeepsVote none w = Unit {0}
KeepsVote (some v) w = w ≡ some v

pub record Advances (a b : RaftStatus) : Type 0 where
  pub term : a.current_term ≤ b.current_term
  pub vote : a.current_term ≡ b.current_term → KeepsVote a.voted_for b.voted_for
  pub commit : a.commit_index ≤ b.commit_index
  pub applied : a.last_applied ≤ b.last_applied

pub KeepsVote-refl : (v : Option ℕ) → KeepsVote v v
KeepsVote-refl none = tt
KeepsVote-refl (some v) = refl

KeepsVote-trans : (u v w : Option ℕ) → KeepsVote u v → KeepsVote v w → KeepsVote u w
KeepsVote-trans none v w h k = tt
KeepsVote-trans (some i) none w h k = cc
KeepsVote-trans (some i) (some j) w h k = cc

pub Advances-refl : (a : RaftStatus) → Advances a a
Advances-refl a = record {
  term = omega arith;
  vote = λ _. KeepsVote-refl a.voted_for;
  commit = omega arith;
  applied = omega arith;
}

pub Advances-trans : (a b c : RaftStatus) → Advances a b → Advances b c → Advances a c
Advances-trans a b c h k = record {
  term = omega arith;
  vote = λ e.
      KeepsVote-trans a.voted_for b.voted_for c.voted_for (h.vote (omega arith))
        (k.vote (omega arith));
  commit = omega arith;
  applied = omega arith;
}

module _ {M : Type 0} where
  pub vote_request-Advances :
      (n : RaftNode M) (msg : Message) (req : RequestVoteRequest)
      → Advances n.st (handle_request_vote_request n msg req).st
  unfolding handle_request_vote_request
  vote_request-Advances n msg req = ground (arith, KeepsVote-refl n.st.voted_for)

  pub vote_response-Advances :
      (n : RaftNode M) (msg : Message) (res : RequestVoteResponse)
      → Advances n.st (handle_request_vote_response n msg res).st
  unfolding handle_request_vote_response
  vote_response-Advances n msg res = ground (arith, KeepsVote-refl n.st.voted_for)

  pub election-Advances :
      (n : RaftNode M) → suc n.st.current_term < u64_mod → Advances n.st (start_election n).st
  unfolding start_election
  election-Advances n h = ground (arith, KeepsVote-refl n.st.voted_for)

  pub append_response-Advances :
      (n : RaftNode M) (msg : Message) (res : AppendEntriesResponse)
      → Advances n.st (handle_append_entries_response n msg res).st
  unfolding handle_append_entries_response
  append_response-Advances n msg res = ground (arith, KeepsVote-refl n.st.voted_for)

-- ===== src/Node/Valid/Keep.antt =====
-- The handlers that cannot fail keep the invariant.
use embkv.Base.{ℕ, ◌<◌, ◌≡◌, refl, true, arith, u64_mod, add64}
use embkv.Base.Sets.{contains}
use embkv.Proto.{Message, AppendEntriesResponse, RequestVoteRequest, RequestVoteResponse}
use embkv.Status.{handle_higher_term, update_match_index, update_next_index}
use embkv.Node.{RaftNode, with_status}
use embkv.Node.Vote.{
  handle_request_vote_request, handle_request_vote_response, start_election, win_election, is_stale,
  count_vote,
}
use embkv.Node.Append.{handle_append_entries_response}
use embkv.Node.Valid.{IsValid, Tracks-assign, Tracks-win}

module _ {M : Type 0} (n : RaftNode M) (v : IsValid n) where
  pub vote_request-IsValid :
      (msg : Message) (req : RequestVoteRequest) → IsValid (handle_request_vote_request n msg req)
  unfolding handle_request_vote_request
  vote_request-IsValid msg req = ground arith

  win_election-IsValid :
      IsValid (win_election (with_status (record n.st { votes = add64 n.st.votes 1 }) n))
  unfolding win_election
  win_election-IsValid = record {
    from_start = v.from_start;
    synced = v.synced;
    commit_fits = v.commit_fits;
    last_fits = v.last_fits;
    some_peer = v.some_peer;
    peers_fit = v.peers_fit;
    peers_distinct = v.peers_distinct;
    tracks = Tracks-win n.peers n.st _ n.st.commit_index v.tracks v.commit_fits refl;
  }

  pub vote_response-IsValid :
      (msg : Message) (res : RequestVoteResponse) → IsValid (handle_request_vote_response n msg res)
  unfolding is_stale count_vote handle_higher_term handle_request_vote_response
  vote_response-IsValid msg res = ground (arith, win_election-IsValid)

  pub election-IsValid : IsValid (start_election n)
  unfolding start_election
  election-IsValid = ground arith

  append_ok-IsValid :
      (id index : ℕ)
      → contains id n.peers ≡ true
      → index < u64_mod
      → IsValid
          (with_status (update_match_index id index (update_next_index id (add64 index 1) n.st)) n)
  unfolding update_match_index update_next_index
  append_ok-IsValid id index c f = record {
    from_start = v.from_start;
    synced = v.synced;
    commit_fits = v.commit_fits;
    last_fits = v.last_fits;
    some_peer = v.some_peer;
    peers_fit = v.peers_fit;
    peers_distinct = v.peers_distinct;
    tracks = Tracks-assign n.peers n.st _ id index v.tracks c f refl refl;
  }

  pub append_response-IsValid :
      (msg : Message) (res : AppendEntriesResponse)
      → contains msg.node_id n.peers ≡ true
      → res.last_log_index < u64_mod
      → IsValid (handle_append_entries_response n msg res)
  unfolding handle_append_entries_response
  append_response-IsValid msg res c f =
      ground (arith, append_ok-IsValid msg.node_id res.last_log_index c f)

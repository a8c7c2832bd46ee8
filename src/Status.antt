-- ===== src/Status.antt =====
-- RaftStatus of embkv/include/raft/node.h, and its methods in embkv/src/raft/node.cpp.
use embkv.Base.{ℕ, Option, none, some, []}
use embkv.Base.Map.{Map, assign}

pub data Role : Type 0 where
  follower candidate leader learner unknown : Role

pub record RaftStatus : Type 0 where
  pub current_term : ℕ
  pub voted_for : Option ℕ
  pub role : Role
  pub leader_id : Option ℕ
  pub commit_index : ℕ
  pub last_applied : ℕ
  pub votes : ℕ
  pub last_heartbeat : ℕ
  pub next_index : Map ℕ
  pub match_index : Map ℕ

abbrev pub initial_status : RaftStatus
initial_status = record {
  current_term = 0;
  voted_for = none;
  role = Role.follower;
  leader_id = none;
  commit_index = 0;
  last_applied = 0;
  votes = 0;
  last_heartbeat = 0;
  next_index = [];
  match_index = [];
}

unfoldable pub increase_term_to : ℕ → RaftStatus → RaftStatus
increase_term_to new_term st = record st { current_term = new_term }

unfoldable pub become_leader : RaftStatus → RaftStatus
become_leader st = record st { role = Role.leader }

unfoldable pub handle_higher_term : ℕ → RaftStatus → RaftStatus
unfolding increase_term_to
handle_higher_term term st = record (increase_term_to term st) {
  role = Role.follower;
  votes = 0;
  voted_for = none;
}

-- `voted_for(id)`
unfoldable pub set_voted_for : Option ℕ → RaftStatus → RaftStatus
set_voted_for none st = record st { voted_for = none }
set_voted_for (some id) st = record st { voted_for = some id }

unfoldable pub update_next_index : ℕ → ℕ → RaftStatus → RaftStatus
update_next_index id index st = record st { next_index = assign id index st.next_index }

unfoldable pub update_match_index : ℕ → ℕ → RaftStatus → RaftStatus
update_match_index id index st = record st { match_index = assign id index st.match_index }

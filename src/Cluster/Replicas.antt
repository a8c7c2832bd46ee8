-- ===== src/Cluster/Replicas.antt =====
-- A leader and other nodes (embkv/src/raft/node.cpp) while the leader stays and what it enqueues for its
-- peers reaches each other node at once, in order and once.
pub mod Follower
pub mod Leader
pub mod Answers
pub mod Heartbeat
pub mod Pair
pub mod Heard
pub mod Agree
pub mod Vote
pub mod Elect
pub mod Failover
use embkv.Base.{ℕ, true, false, List, [], ◌∷◌, drop, length, Result, ok, ◌>>=◌}
use embkv.Proto.{Message, ClientRequest, AppendEntriesResponse}
use embkv.Node.{RaftNode, Services, Effect, Revents}
use embkv.Node.Append.{handle_append_entries_response}
use embkv.Node.Client.{handle_client_request}
use embkv.Node.Timers.{handle_all, handle_heartbeat_timeout}
use embkv.Cluster.{message_for, with_time}

-- What a leader does: it is asked by a client, hears the reply of a peer, or its heartbeat timer fires.
pub data Act : Type 0 where
  request : Message → ClientRequest → Act
  reply : Message → AppendEntriesResponse → Act
  heartbeat : Act

abbrev pub fired : Revents
fired = record { timeout = true; error = false }

-- The messages for the node with this id among the effects, which it handles at this time.
abbrev pub messages_for : ℕ → ℕ → List Effect → List (Message × ℕ)
messages_for id now [] = []
messages_for id now (e ∷ es) = with_time (message_for id e) now (messages_for id now es)

module _ {M : Type 0} (s : Services M) where
  unfoldable pub lead_act : RaftNode M → Act → Result (RaftNode M)
  lead_act n (Act.request msg req) = handle_client_request s n msg req
  lead_act n (Act.reply msg res) = ok (handle_append_entries_response n msg res)
  lead_act n Act.heartbeat = handle_heartbeat_timeout s n fired

  -- What another node does on what the leader has enqueued since.
  unfoldable pub hear : ℕ → RaftNode M → RaftNode M → RaftNode M → Result (RaftNode M)
  hear now before after f =
      handle_all s f (messages_for f.config.node_id now (drop (length before.out) after.out))

  -- All of them, each on its own.
  unfoldable pub hear_each :
      ℕ → RaftNode M → RaftNode M → List (RaftNode M) → Result (List (RaftNode M))
  unfolding hear
  hear_each now before after [] = ok []
  hear_each now before after (f ∷ fs) =
      hear now before after f >>= λ g. (hear_each now before after fs >>= λ gs. ok (g ∷ gs))

  unfoldable pub exchange :
      RaftNode M → List (RaftNode M) → Act × ℕ → Result (RaftNode M × List (RaftNode M))
  unfolding lead_act hear_each
  exchange n fs (act, now) = lead_act n act >>= λ m. (hear_each now n m fs >>= λ gs. ok (m, gs))

  unfoldable pub exchange_all :
      RaftNode M → List (RaftNode M) → List (Act × ℕ) → Result (RaftNode M × List (RaftNode M))
  unfolding exchange
  exchange_all n fs [] = ok (n, fs)
  exchange_all n fs (a ∷ acts) = exchange n fs a >>= λ p. exchange_all p.0 p.1 acts

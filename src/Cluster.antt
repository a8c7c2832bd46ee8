-- ===== src/Cluster.antt =====
-- Several nodes (embkv/src/raft/node.cpp) and what passes between them: each node's event loop calls
-- its callbacks at any time, and what a node has enqueued for its peers can reach a peer at any later
-- time, in any order, more than once or never.
pub mod Sound
pub mod Safety
pub mod Replicas
pub mod Rivals
use embkv.Base.{
  ℕ, zero, suc, Bool, true, false, Option, none, some, List, [], ◌∷◌, ◌==◌, if◌then◌else◌,
  get_elem?, Result, ok, ◌>>=◌,
}
use embkv.Proto.{Message, ClientRequest, Content}
use embkv.Node.{RaftNode, Services, Effect, Revents}
use embkv.Node.Run.{Event, step}

-- Where a message comes from: the effect of a node, by their positions, or a request of the client with
-- this id.
pub data Source : Type 0 where
  sent : ℕ → ℕ → Source
  asked : ℕ → ClientRequest → Source

-- A callback, with the sources of the messages that it dequeues and the times at which it handles them.
pub data Input : Type 0 where
  election_timeout : Revents → ℕ → Input
  heartbeat_timeout : Revents → Input
  parse_timeout : Revents → List (Source × ℕ) → Input
  reissue_timeout : Revents → Input

-- The position of a node, and what happens at it.
abbrev pub Action : Type 0
Action = ℕ × Input

-- What the node with this id gets of an effect.
abbrev pub message_for : ℕ → Effect → Option Message
message_for id (Effect.to_pipelines m priority) = some m
message_for id (Effect.to_peer peer m) = if peer == id then some m else none
message_for id _ = none

abbrev pub set_at {ℓ} : {A : Type ℓ} → ℕ → A → List A → List A
set_at i a [] = []
set_at zero a (x ∷ xs) = a ∷ xs
set_at (suc i) a (x ∷ xs) = x ∷ set_at i a xs

abbrev pub effect_message : ℕ → Option Effect → Option Message
effect_message id none = none
effect_message id (some e) = message_for id e

abbrev pub with_time : Option Message → ℕ → List (Message × ℕ) → List (Message × ℕ)
with_time none now batch = batch
with_time (some m) now batch = (m, now) ∷ batch

module _ {M : Type 0} where
  abbrev pub sent_by : ℕ → ℕ → Option (RaftNode M) → Option Message
  sent_by id k none = none
  sent_by id k (some n) = effect_message id (get_elem? n.out k)

  -- A message that is not there is not delivered.
  abbrev pub message_from : List (RaftNode M) → ℕ → Source → Option Message
  message_from nodes id (Source.sent i k) = sent_by id k (get_elem? nodes i)
  message_from nodes id (Source.asked client r) =
      some (record { cluster_id = 0; node_id = client; content = Content.client_request r })

  abbrev pub batch_of : List (RaftNode M) → ℕ → List (Source × ℕ) → List (Message × ℕ)
  batch_of nodes id [] = []
  batch_of nodes id ((source, now) ∷ rest) =
      with_time (message_from nodes id source) now (batch_of nodes id rest)

  abbrev pub event_of : List (RaftNode M) → ℕ → Input → Event
  event_of nodes id (Input.election_timeout revents now) = Event.election_timeout revents now
  event_of nodes id (Input.heartbeat_timeout revents) = Event.heartbeat_timeout revents
  event_of nodes id (Input.parse_timeout revents sources) =
      Event.parse_timeout revents (batch_of nodes id sources)
  event_of nodes id (Input.reissue_timeout revents) = Event.reissue_timeout revents

  module _ (s : Services M) where
    abbrev pub act_at :
        List (RaftNode M) → ℕ → Input → Option (RaftNode M) → Result (List (RaftNode M))
    act_at nodes i input none = ok nodes
    act_at nodes i input (some n) =
        step s n (event_of nodes n.config.node_id input) >>= λ m. ok (set_at i m nodes)

    unfoldable pub act : List (RaftNode M) → Action → Result (List (RaftNode M))
    act nodes (i, input) = act_at nodes i input (get_elem? nodes i)

    unfoldable pub act_all : List (RaftNode M) → List Action → Result (List (RaftNode M))
    unfolding act
    act_all nodes [] = ok nodes
    act_all nodes (a ∷ actions) = act nodes a >>= λ after. act_all after actions

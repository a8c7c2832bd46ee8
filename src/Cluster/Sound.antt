-- ===== src/Cluster/Sound.antt =====
-- What is delivered in a cluster: every message is sound for every node.
use embkv.Base.{
  ℕ, zero, suc, ◌≡◌, true, Option, none, some, List, [], ◌∷◌, All, Holds, ◌==◌, Bool-cases, inl,
  inr, get_elem?,
}
use embkv.Base.Sets.{contains}
use embkv.Proto.{Message, Content}
use embkv.Node.{RaftNode, Services, Effect}
use embkv.Node.Client.{handle_install_snapshot_request, handle_install_snapshot_response}
use embkv.Node.Timers.{dispatch, handle_all}
use embkv.Node.Valid.{IsValid}
use embkv.Node.Run.Safety.{IsSound, AllSound}
use embkv.Node.Speaks.{
  Promise, EntriesFit-indices, ContentFits, IsSent, EffectFits, Speaks, Holds-bind,
}
use embkv.Node.Speaks.Handlers.{
  vote_request-Speaks, vote_response-Speaks, append_request-Speaks, append_response-Speaks,
}
use embkv.Node.Speaks.Timers.{client_request-Speaks}
use embkv.Cluster.{
  Source, Input, message_for, effect_message, sent_by, message_from, with_time, batch_of,
}

-- Of an element that may not be there.
abbrev pub Each {ℓ κ} : {A : Type ℓ} → (A → Type κ) → Option A → Type κ
Each P none = Unit
Each P (some a) = P a

pub All-Each {ℓ κ} :
    {A : Type ℓ} (P : A → Type κ) (xs : List A) (i : ℕ) → All P xs → Each P (get_elem? xs i)
All-Each P [] i h = tt
All-Each P (x ∷ xs) zero h = h.0
All-Each P (x ∷ xs) (suc i) h = All-Each P xs i h.1

module _ {M : Type 0} (s : Services M) (p : Promise s) (ps : List ℕ) where
  -- Clients have an id that is one of the peers' ids, as the client of the main program does.
  abbrev pub SourceFits : Source × ℕ → Type 0
  SourceFits (Source.sent i k, now) = Unit {0}
  SourceFits (Source.asked client r, now) =
      (contains client ps ≡ true) × p.Asked (s.serialize_request r)

  abbrev pub InputFits : Input → Type 0
  InputFits (Input.parse_timeout revents sources) = All (SourceFits) sources
  InputFits _ = Unit {0}

module _ {M : Type 0} (s : Services M) (p : Promise s) (bound : ℕ) (ps : List ℕ) where
  -- A node of a cluster in which no term is above `bound`.
  pub record IsMember (n : RaftNode M) : Type 0 where
    pub valid : IsValid n
    pub speaks : Speaks s p bound ps n

  -- What is delivered: a message of a peer, or a client request under the id of one.
  abbrev pub Delivered : Message × ℕ → Type 0
  Delivered (m, now) = IsSent s p bound ps m

  IsSent-IsSound :
      (id : ℕ) (c : Content) → contains id ps ≡ true → ContentFits s p bound c → IsSound ps id c
  IsSent-IsSound id (Content.append_entries_request r) h f =
      (f.1, EntriesFit-indices s p r.entries f.2)
  IsSent-IsSound id (Content.append_entries_response r) h f = (h, f.1)
  IsSent-IsSound id (Content.client_request r) h f = h
  IsSent-IsSound id _ h f = tt

  pub message_for-IsSent :
      (id : ℕ) (e : Effect)
      → EffectFits s p bound ps e
      → Each (IsSent s p bound ps) (message_for id e)
  message_for-IsSent id (Effect.to_pipelines m priority) f = f
  message_for-IsSent id (Effect.to_peer peer m) f = elim (Bool-cases (peer == id)) [
    | inl mine ↦ rw mine f
    | inr other ↦ rw other tt
  ]
  message_for-IsSent id (Effect.to_client client m) f = tt
  message_for-IsSent id Effect.reset_timer f = tt

  pub effect_message-IsSent :
      (id : ℕ) (e : Option Effect)
      → Each (EffectFits s p bound ps) e
      → Each (IsSent s p bound ps) (effect_message id e)
  effect_message-IsSent id none f = tt
  effect_message-IsSent id (some e) f = message_for-IsSent id e f

  pub with_time-Delivered :
      (m : Option Message) (now : ℕ) (batch : List (Message × ℕ))
      → Each (IsSent s p bound ps) m
      → All (Delivered) batch
      → All (Delivered) (with_time m now batch)
  with_time-Delivered none now batch f g = g
  with_time-Delivered (some m) now batch f g = (f, g)

  pub Delivered-AllSound : (batch : List (Message × ℕ)) → All (Delivered) batch → AllSound ps batch
  Delivered-AllSound [] f = tt
  Delivered-AllSound ((m, now) ∷ rest) f =
      (IsSent-IsSound m.node_id m.content f.0.0 f.0.1, Delivered-AllSound rest f.1)

  dispatch-Speaks :
      (now : ℕ) (n : RaftNode M) (msg : Message) (c : Content)
      → ContentFits s p bound c
      → Speaks s p bound ps n
      → Holds (Speaks s p bound ps) (dispatch s now n msg c)
  unfolding dispatch
  dispatch-Speaks now n msg (Content.request_vote_request r) f v =
      vote_request-Speaks s p bound ps n msg r f v
  dispatch-Speaks now n msg (Content.request_vote_response r) f v =
      vote_response-Speaks s p bound ps n msg r f v
  dispatch-Speaks now n msg (Content.append_entries_request r) f v =
      append_request-Speaks s p bound ps now n msg r f v
  dispatch-Speaks now n msg (Content.append_entries_response r) f v =
      append_response-Speaks s p bound ps n msg r f.0 v
  dispatch-Speaks now n msg (Content.snapshot_request r) f v =
      unfold handle_install_snapshot_request in v
  dispatch-Speaks now n msg (Content.snapshot_response r) f v =
      unfold handle_install_snapshot_response in v
  dispatch-Speaks now n msg (Content.client_request r) f v =
      client_request-Speaks s p bound ps n msg r f v
  dispatch-Speaks now n msg _ f v = v

  pub handle_all-Speaks :
      (n : RaftNode M) (batch : List (Message × ℕ))
      → All (Delivered) batch
      → Speaks s p bound ps n
      → Holds (Speaks s p bound ps) (handle_all s n batch)
  unfolding handle_all
  handle_all-Speaks n [] f v = v
  handle_all-Speaks n ((msg, now) ∷ rest) f v =
      Holds-bind (Speaks s p bound ps) (Speaks s p bound ps) (dispatch s now n msg msg.content)
        (λ m. handle_all s m rest) (dispatch-Speaks now n msg msg.content f.0.1 v)
        (λ m q. handle_all-Speaks m rest f.1 q)

  sent_by-IsSent :
      (id k : ℕ) (n : Option (RaftNode M))
      → Each (IsMember) n
      → Each (IsSent s p bound ps) (sent_by id k n)
  sent_by-IsSent id k none v = tt
  sent_by-IsSent id k (some n) v =
      effect_message-IsSent id (get_elem? n.out k)
        (All-Each (EffectFits s p bound ps) n.out k v.speaks.sent)

  message_from-IsSent :
      (nodes : List (RaftNode M)) (id : ℕ) (source : Source) (now : ℕ)
      → All (IsMember) nodes
      → SourceFits s p ps (source, now)
      → Each (IsSent s p bound ps) (message_from nodes id source)
  message_from-IsSent nodes id (Source.sent i k) now v f =
      sent_by-IsSent id k (get_elem? nodes i) (All-Each (IsMember) nodes i v)
  message_from-IsSent nodes id (Source.asked client r) now v f = f

  pub batch_of-Delivered :
      (nodes : List (RaftNode M)) (id : ℕ) (sources : List (Source × ℕ))
      → All (IsMember) nodes
      → All (SourceFits s p ps) sources
      → All (Delivered) (batch_of nodes id sources)
  batch_of-Delivered nodes id [] v f = tt
  batch_of-Delivered nodes id ((source, now) ∷ rest) v f =
      with_time-Delivered (message_from nodes id source) now (batch_of nodes id rest)
        (message_from-IsSent nodes id source now v f.0) (batch_of-Delivered nodes id rest v f.1)

-- ===== src/Node/Speaks.antt =====
-- What a node says: the messages in `out` are sound for every node with the same peers, and carry no
-- term above a bound.
pub mod Handlers
pub mod Timers
use embkv.Base.{
  ℕ, zero, suc, ◌+◌, ◌-◌, ◌≤◌, ◌<◌, ◌≡◌, refl, sym, ap, Bool, true, false, Option, none, some, List,
  [], ◌∷◌, ◌++◌, arith, u64_mod, All, Result, ok, fault, ◌>>=◌, Holds, ltb, ◌==◌, Bool-cases, inl,
  inr,
}
use embkv.Base.Sets.{contains}
use embkv.Proto.{
  Bytes, Message, Content, EntryMeta, RequestVoteRequest, RequestVoteResponse, AppendEntriesRequest,
  AppendEntriesResponse,
}
use embkv.Status.{RaftStatus}
use embkv.Log.{RaftLog, entry_at, append_all}
use embkv.Node.{RaftNode, Services, Effect, emit, with_status}
use embkv.Node.Valid.Moves.{IndicesFit}

-- What is to hold of a cluster's data: of the requests that clients make, serialized, and of the state
-- machines, which keep it when such a request is applied.
pub record Promise {M : Type 0} (s : Services M) : Type 1 where
  pub Asked : Bytes → Type 0
  pub Kept : M → Type 0
  pub apply-Kept : (e : EntryMeta) (m : M) → Asked e.client_request → Kept m → Kept (s.apply e m).1

module _ {M : Type 0} (s : Services M) (p : Promise s) where
  -- An entry with a 64-bit index, made of a client's request.
  abbrev pub EntryFits : EntryMeta → Type 0
  EntryFits e = (e.index < u64_mod) × p.Asked e.client_request

  abbrev pub EntriesFit : List EntryMeta → Type 0
  EntriesFit = All EntryFits

  -- A message's term is at most `bound`, its indices are 64-bit numbers, and its entries and requests
  -- are a client's.
  abbrev pub ContentFits : ℕ → Content → Type 0
  ContentFits bound (Content.request_vote_request r) = r.term ≤ bound
  ContentFits bound (Content.request_vote_response r) = r.term ≤ bound
  ContentFits bound (Content.append_entries_request r) =
      (r.term ≤ bound) × (r.leader_commit < u64_mod) × EntriesFit r.entries
  ContentFits bound (Content.append_entries_response r) =
      (r.term ≤ bound) × (r.last_log_index < u64_mod)
  ContentFits bound (Content.client_request r) = p.Asked (s.serialize_request r)
  ContentFits bound _ = Unit {0}

  -- A message of one of the peers.
  abbrev pub IsSent : ℕ → List ℕ → Message → Type 0
  IsSent bound ps m = (contains m.node_id ps ≡ true) × ContentFits bound m.content

  abbrev pub EffectFits : ℕ → List ℕ → Effect → Type 0
  EffectFits bound ps (Effect.to_pipelines m priority) = IsSent bound ps m
  EffectFits bound ps (Effect.to_peer id m) = IsSent bound ps m
  EffectFits bound ps _ = Unit {0}

  pub record Speaks (bound : ℕ) (ps : List ℕ) (n : RaftNode M) : Type 0 where
    pub same_peers : n.peers ≡ ps
    pub named : contains n.config.node_id ps ≡ true
    pub term : n.st.current_term ≤ bound
    pub commit_fits : n.st.commit_index < u64_mod
    pub last_fits : n.log.last_log_index < u64_mod
    pub entries_fit : EntriesFit n.log.entries
    pub machine : p.Kept n.state_machine
    pub sent : All (EffectFits bound ps) n.out

  pub EntriesFit-indices : (es : List EntryMeta) → EntriesFit es → IndicesFit es
  EntriesFit-indices [] f = tt
  EntriesFit-indices (e ∷ es) f = (f.0.0, EntriesFit-indices es f.1)

pub All-append :
    {A : Type 0} (P : A → Type 0) (xs ys : List A) → All P xs → All P ys → All P (xs ++ ys)
All-append P [] ys h k = k
All-append P (x ∷ xs) ys h k = (h.0, All-append P xs ys h.1 k)

pub Holds-any : {A : Type 0} (m : Result A) → Holds (λ a. Unit {0}) m
Holds-any (ok a) = tt
Holds-any (fault e) = tt

pub Holds-bind :
    {A B : Type 0} (P : A → Type 0) (Q : B → Type 0) (m : Result A) (f : A → Result B)
    → Holds P m
    → ((a : A) → P a → Holds Q (f a))
    → Holds Q (m >>= f)
Holds-bind P Q (ok a) f h k = k a h
Holds-bind P Q (fault e) f h k = tt

module _ {M : Type 0} (s : Services M) (p : Promise s) (bound : ℕ) (ps : List ℕ) where
  pub emit-Speaks :
      (e : Effect) (n : RaftNode M)
      → EffectFits s p bound ps e
      → Speaks s p bound ps n
      → Speaks s p bound ps (emit e n)
  emit-Speaks e n f v = record {
    same_peers = v.same_peers;
    named = v.named;
    term = v.term;
    commit_fits = v.commit_fits;
    last_fits = v.last_fits;
    entries_fit = v.entries_fit;
    machine = v.machine;
    sent = All-append (EffectFits s p bound ps) n.out (e ∷ []) v.sent (f, tt);
  }

  -- A change of the status that keeps its numbers in bounds.
  pub status-Speaks :
      (st : RaftStatus) (n : RaftNode M)
      → st.current_term ≤ bound
      → st.commit_index < u64_mod
      → Speaks s p bound ps n
      → Speaks s p bound ps (with_status st n)
  status-Speaks st n f g v = record {
    same_peers = v.same_peers;
    named = v.named;
    term = f;
    commit_fits = g;
    last_fits = v.last_fits;
    entries_fit = v.entries_fit;
    machine = v.machine;
    sent = v.sent;
  }

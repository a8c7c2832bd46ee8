-- ===== src/Node/Valid.antt =====
-- The invariant of a node: its log starts at 0, it has applied what it has committed, and its
-- book-keeping of the peers is about its peers.
pub mod Keep
pub mod Moves
pub mod Leader
pub mod Commit
use embkv.Base.{ℕ, suc, ◌+◌, ◌<◌, ◌≡◌, refl, true, List, [], ◌∷◌, arith, u64_mod, length, All, ◌≢◌}
use embkv.Base.Sets.{
  contains, Distinct, Subset, All-assign, Distinct-keys-assign, Subset-keys-assign,
  contains-keys-assign, Subset-refl,
}
use embkv.Base.Map.{Map, keys, assign}
use embkv.Status.{RaftStatus, Role}
use embkv.Node.{RaftNode}
use embkv.Node.Vote.{assign_all}

-- The match indices are of distinct peers, and of all of them once the node leads.
pub record Tracks (peers : List ℕ) (st : RaftStatus) : Type 0 where
  pub known : All (λ e. (contains e.0 peers ≡ true) × (e.1 < u64_mod)) st.match_index
  pub keys_distinct : Distinct (keys st.match_index)
  pub covered : st.role ≡ Role.leader → Subset peers (keys st.match_index)

pub record IsValid {M : Type 0} (n : RaftNode M) : Type 0 where
  pub from_start : n.log.start_index ≡ 0
  pub synced : n.st.last_applied ≡ n.st.commit_index
  pub commit_fits : n.st.commit_index < u64_mod
  pub last_fits : n.log.last_log_index < u64_mod
  pub some_peer : 0 < length n.peers
  pub peers_fit : length n.peers < u64_mod
  pub peers_distinct : Distinct n.peers
  pub tracks : Tracks n.peers n.st

-- A status with the same match indices, of a node that does not lead.
pub Tracks-step_down :
    (ps : List ℕ) (a b : RaftStatus)
    → Tracks ps a
    → b.match_index ≡ a.match_index
    → b.role ≢ Role.leader
    → Tracks ps b
Tracks-step_down ps a b t e ne = record {
  known = rw e t.known;
  keys_distinct = rw e t.keys_distinct;
  covered = λ l. absurd (ne l);
}

-- A status with the same match indices and role.
pub Tracks-same :
    (ps : List ℕ) (a b : RaftStatus)
    → Tracks ps a
    → b.match_index ≡ a.match_index
    → b.role ≡ a.role
    → Tracks ps b
Tracks-same ps a b t e same = record {
  known = rw e t.known;
  keys_distinct = rw e t.keys_distinct;
  covered = λ l. rw e (t.covered (cc));
}

pub Tracks-assign :
    (ps : List ℕ) (a b : RaftStatus) (id index : ℕ)
    → Tracks ps a
    → contains id ps ≡ true
    → index < u64_mod
    → b.match_index ≡ assign id index a.match_index
    → b.role ≡ a.role
    → Tracks ps b
Tracks-assign ps a b id index t c f e same = record {
  known = rw e (All-assign _ id index a.match_index (c, f) t.known);
  keys_distinct = rw e (Distinct-keys-assign id index a.match_index t.keys_distinct);
  covered = λ l. rw e (Subset-keys-assign id index a.match_index ps (t.covered (cc)));
}

abbrev Known : List ℕ → Map ℕ → Type 0
Known ps m = All (λ e. (contains e.0 ps ≡ true) × (e.1 < u64_mod)) m × Distinct (keys m)

assign_all-Known :
    (ps qs : List ℕ) (v : ℕ) (m : Map ℕ)
    → Subset qs ps
    → v < u64_mod
    → Known ps m
    → Known ps (assign_all qs v m)
unfolding assign_all
assign_all-Known ps [] v m s f k = k
assign_all-Known ps (q ∷ qs) v m s f k =
    assign_all-Known ps qs v (assign q v m) s.1 f
      (All-assign _ q v m (s.0, f) k.0, Distinct-keys-assign q v m k.1)

contains-assign_all :
    (j : ℕ) (qs : List ℕ) (v : ℕ) (m : Map ℕ)
    → contains j (keys m) ≡ true
    → contains j (keys (assign_all qs v m)) ≡ true
unfolding assign_all
contains-assign_all j [] v m h = h
contains-assign_all j (q ∷ qs) v m h =
    contains-assign_all j qs v (assign q v m) (ground (arith, contains-keys-assign q j v m))

Subset-assign_all : (qs : List ℕ) (v : ℕ) (m : Map ℕ) → Subset qs (keys (assign_all qs v m))
unfolding assign_all
Subset-assign_all [] v m = tt
Subset-assign_all (q ∷ qs) v m = (
  contains-assign_all q qs v (assign q v m) (ground (arith, contains-keys-assign q q v m)),
  Subset-assign_all qs v (assign q v m),
)

-- A new leader has an index for each peer.
pub Tracks-win :
    (ps : List ℕ) (a b : RaftStatus) (v : ℕ)
    → Tracks ps a
    → v < u64_mod
    → b.match_index ≡ assign_all ps v a.match_index
    → Tracks ps b
Tracks-win ps a b v t f e =
    let k = assign_all-Known ps ps v a.match_index (Subset-refl ps) f (t.known, t.keys_distinct) in
    record {
      known = rw e k.0;
      keys_distinct = rw e k.1;
      covered = λ l. rw e (Subset-assign_all ps v a.match_index);
    }

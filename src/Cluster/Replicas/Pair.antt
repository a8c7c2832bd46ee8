-- ===== src/Cluster/Replicas/Pair.antt =====
-- The leader and another node, and the acts that they are followed over.
use embkv.Base.{
  ℕ, suc, ◌≤◌, ◌<◌, ◌≡◌, sym, ap, ap₂, ◌∙◌, true, List, [], ◌∷◌, arith, u64_mod, length,
  length-append, take,
}
use embkv.Base.Sets.{contains}
use embkv.Log.{RaftLog}
use embkv.Log.Contiguous.{Fits}
use embkv.Node.{RaftNode, Services}
use embkv.Node.Apply.Machine.{apply_all}
use embkv.Node.Apply.Replay.{Replays}
use embkv.Node.Valid.{IsValid}
use embkv.Cluster.Replicas.{Act}
use embkv.Proto.{ClientRequest}
use embkv.Log.{append_entry}
use embkv.Node.Client.{new_entry}
use embkv.Cluster.Replicas.Leader.{Leading, Asks, Hears}
use embkv.Cluster.Replicas.Heartbeat.{Beats}

-- With so many entries in the leader's log, the act is one of a peer: a reply is of no later term and
-- about no entry that the leader does not have.
abbrev pub ActFits : List ℕ → ℕ → ℕ → Act → Type 0
ActFits ps term len (Act.request msg req) = (contains msg.node_id ps ≡ true) × (suc len < u64_mod)
ActFits ps term len (Act.reply msg res) =
    (contains msg.node_id ps ≡ true) × (res.term ≤ term) × (res.last_log_index ≤ len)
ActFits ps term len Act.heartbeat = Unit {0}

abbrev pub length_after : ℕ → Act → ℕ
length_after len (Act.request msg req) = suc len
length_after len _ = len

abbrev pub ActsFit : List ℕ → ℕ → ℕ → List (Act × ℕ) → Type 0
ActsFit ps term len [] = Unit {0}
ActsFit ps term len ((act, now) ∷ acts) =
    ActFits ps term len act × ActsFit ps term (length_after len act) acts

module _ {M : Type 0} (s : Services M) (first : M) where
  -- The other node has the leader's log, and has committed and applied no more than the leader.
  pub record Follows (n f : RaftNode M) : Type 0 where
    pub valid : IsValid f
    pub log_same : f.log ≡ n.log
    pub same_cluster : f.config.cluster_id ≡ n.config.cluster_id
    pub term : f.st.current_term ≤ n.st.current_term
    pub commit : f.st.commit_index ≤ n.st.commit_index
    pub replays : Replays s first f

  -- The leader, with the ids of its peers, its term and the number of its entries.
  pub record Led (ps : List ℕ) (term len : ℕ) (n : RaftNode M) : Type 0 where
    pub leading : Leading s first n
    pub peers : n.peers ≡ ps
    pub term_is : n.st.current_term ≡ term
    pub length_is : length n.log.entries ≡ len
    pub small : len < u64_mod

  pub Asks-Led :
      (ps : List ℕ) (term len : ℕ) (n m : RaftNode M) (req : ClientRequest)
      → suc len < u64_mod
      → Led ps term len n
      → Asks s first n req m
      → Led ps term (suc len) m
  unfolding append_entry
  Asks-Led ps term len n m req room a q = record {
    leading = q.leading;
    peers = q.peers_same ∙ a.peers;
    term_is = q.term_same ∙ a.term_is;
    length_is = omega (
      arith,
      ap (λ (l : RaftLog). length l.entries) q.log_is,
      length-append n.log.entries (new_entry s n req ∷ []),
      a.length_is,
    );
    small = room;
  }

  pub Beats-Led :
      (ps : List ℕ) (term len : ℕ) (n m : RaftNode M)
      → Led ps term len n
      → Leading s first m
      → Beats s first n m
      → m.peers ≡ n.peers
      → Led ps term len m
  Beats-Led ps term len n m a l b peers = record {
    leading = l;
    peers = peers ∙ a.peers;
    term_is = b.commits.term_same ∙ a.term_is;
    length_is = ap (λ (l : RaftLog). length l.entries) b.commits.log_same ∙ a.length_is;
    small = a.small;
  }

  pub Hears-Led :
      (ps : List ℕ) (term len : ℕ) (n m : RaftNode M)
      → Led ps term len n
      → Hears s first n m
      → Led ps term len m
  Hears-Led ps term len n m a q = record {
    leading = q.leading;
    peers = q.peers_same ∙ a.peers;
    term_is = q.term_same ∙ a.term_is;
    length_is = ap (λ (l : RaftLog). length l.entries) q.log_same ∙ a.length_is;
    small = a.small;
  }

  -- Both are the same: the log, the term, what is committed, and what the state machine is.
  pub record Same (p : RaftNode M × RaftNode M) : Type 0 where
    pub log_same : p.1.log ≡ p.0.log
    pub term_same : p.1.st.current_term ≡ p.0.st.current_term
    pub commit_same : p.1.st.commit_index ≡ p.0.st.commit_index
    pub machine_same : p.1.state_machine ≡ p.0.state_machine
    pub machine : p.0.state_machine ≡ apply_all s (take p.0.st.commit_index p.0.log.entries) first

  pub caught-Same :
      (m g : RaftNode M)
      → IsValid m
      → IsValid g
      → Replays s first m
      → Replays s first g
      → g.log ≡ m.log
      → g.st.current_term ≡ m.st.current_term
      → g.st.commit_index ≡ m.st.commit_index
      → Same (m, g)
  caught-Same m g vm vg rm rg log term commit =
      let made : (RaftLog → ℕ → M) = λ l k. apply_all s (take k l.entries) first in
      record {
        log_same = log;
        term_same = term;
        commit_same = commit;
        machine_same =
            rg.machine ∙ ap₂ made log (vg.synced ∙ commit ∙ sym vm.synced) ∙ sym rm.machine;
        machine = rm.machine ∙ ap (made m.log) vm.synced;
      }

  pub Follows-Fits :
      (ps : List ℕ) (term len : ℕ) (n f : RaftNode M) → Led ps term len n → Follows n f → Fits f.log
  Follows-Fits ps term len n f a w = record {
    from_start = w.valid.from_start;
    small = omega (arith, a.small, a.length_is, ap (λ (l : RaftLog). length l.entries) w.log_same);
  }

  pub commit-within :
      (n : RaftNode M) → Leading s first n → n.st.commit_index ≤ length n.log.entries
  commit-within n l = omega (arith, l.valid.synced, l.replays.within)

-- ===== src/Cluster/Election.antt =====
-- The elections of src/cluster.rs.
use fix_engine.Base.{
  Bool, Bytes, arith, false, length, none, some, true, ℕ, ◌+◌, ◌<◌, ◌^◌, ◌↔◌, ◌≡◌, ◌≤◌,
}
use fix_engine.Cluster.{
  ClusterConfig, ClusterNode, LogEntry, new, start, step_down, begin_election, receive_vote,
  become_leader, majority, replicate_session_state, apply_log_entry, restore_snapshot, leader,
  candidate, follower, active,
}
use fix_engine.Cluster.Codec.{ReplicatedSessionState}

-- One call on a node: an election, a vote, a step down, replication, applying, restoring, and,
-- where `direct` is true, a call of `become_leader` from outside the node.
pub data Step (direct : Bool) (is_utf8 : Bytes → Bool) : ClusterNode → ClusterNode → Type 0 where
  started : (n : ClusterNode) → Step direct is_utf8 n (start n)
  elected : (n : ClusterNode) → Step direct is_utf8 n (begin_election n)
  stepped_down : (n : ClusterNode) (term : ℕ) → Step direct is_utf8 n (step_down n term)
  voted :
      (n : ClusterNode) (from_node term : ℕ) (granted : Bool)
      → Step direct is_utf8 n (receive_vote n from_node term granted)
  replicated :
      (n : ClusterNode) (s : ReplicatedSessionState)
      → Step direct is_utf8 n (replicate_session_state n s)
  applied : (n : ClusterNode) (e : LogEntry) → Step direct is_utf8 n (apply_log_entry is_utf8 n e)
  promoted : (n : ClusterNode) → direct ≡ true → Step direct is_utf8 n (become_leader n)
  restored :
      (n : ClusterNode) (bytes : Bytes) → Step direct is_utf8 n (restore_snapshot is_utf8 n bytes)

pub data Reach (direct : Bool) (is_utf8 : Bytes → Bool) (n : ClusterNode)
    : ClusterNode → Type 0 where
  here : Reach direct is_utf8 n n
  next :
      {m k : ClusterNode}
      → Reach direct is_utf8 n m
      → Step direct is_utf8 m k
      → Reach direct is_utf8 n k

pub record NodeInv (direct : Bool) (config : ClusterConfig) (n : ClusterNode) : Type 0 where
  pub same_config : n.config ≡ config
  pub leader_known : n.role ≡ leader → n.leader_id ≡ some config.node_id.id
  pub leader_voted : direct ≡ false → n.role ≡ leader → n.voted_for ≡ some config.node_id.id
  pub candidate_voted : n.role ≡ candidate → n.voted_for ≡ some config.node_id.id
  pub candidate_short :
      n.role ≡ candidate → (1 ≤ n.votes_received) × (n.votes_received < majority config)
  pub follower_idle : n.role ≡ follower → (n.leader_id ≡ none) × (n.votes_received ≡ 0)

module _ {direct : Bool} {config : ClusterConfig} (small : length config.peers < 2 ^ 31) where
  elected-Inv :
      (n : ClusterNode) → NodeInv direct config n → NodeInv direct config (begin_election n)
  unfolding begin_election majority
  elected-Inv n v = ground arith

  voted-Inv :
      (n : ClusterNode) (from_node term : ℕ) (granted : Bool)
      → NodeInv direct config n
      → NodeInv direct config (receive_vote n from_node term granted)
  unfolding receive_vote majority
  voted-Inv n from_node term granted v = ground arith

  Step-Inv :
      {is_utf8 : Bytes → Bool} {n m : ClusterNode}
      → Step direct is_utf8 n m
      → NodeInv direct config n
      → NodeInv direct config m
  unfolding become_leader start step_down replicate_session_state apply_log_entry restore_snapshot
  Step-Inv (started n) v = elected-Inv (record n { state = active }) (ground arith)
  Step-Inv (elected n) v = elected-Inv n v
  Step-Inv (stepped_down n term) v = ground arith
  Step-Inv (voted n from_node term granted) v = voted-Inv n from_node term granted v
  Step-Inv (replicated n s) v = ground arith
  Step-Inv (applied n e) v = ground arith
  Step-Inv (promoted n d) v = ground arith
  Step-Inv (restored n bytes) v = ground arith

  steps-Inv :
      {is_utf8 : Bytes → Bool} {n m : ClusterNode}
      → NodeInv direct config n
      → Reach direct is_utf8 n m
      → NodeInv direct config m
  steps-Inv v here = v
  steps-Inv v (next r st) = Step-Inv st (steps-Inv v r)

new-Inv : (direct : Bool) (config : ClusterConfig) → NodeInv direct config (new config)
new-Inv direct config = ground arith

-- With fewer than 2^31 peers, in every state that calls can lead a new node to, elections, votes,
-- step downs, log entries, snapshots and calls of `become_leader` in any order: the node leads only
-- with its own name as leader; a candidate has voted for itself and counts at least its own vote and
-- no majority; and a follower knows no leader and counts no votes. Where only the node itself calls
-- `become_leader`, a leader has voted for itself.
pub Reach-NodeInv :
    (direct : Bool) (config : ClusterConfig) (is_utf8 : Bytes → Bool) {n : ClusterNode}
    → length config.peers < 2 ^ 31
    → Reach direct is_utf8 (new config) n
    → NodeInv direct config n
Reach-NodeInv direct config is_utf8 small r = steps-Inv small (new-Inv direct config) r

-- A candidate with fewer than 2^32 - 1 votes becomes the leader exactly by a vote that is granted, of its own
-- term, and that completes a majority of the cluster.
wins_iff :
    (n : ClusterNode) (from_node term : ℕ) (granted : Bool)
    → n.role ≡ candidate
    → n.votes_received + 1 < 2 ^ 32
    → ((receive_vote n from_node term granted).role ≡ leader)
      ↔ ((term ≡ n.current_term) × (granted ≡ true) × (majority n.config ≤ n.votes_received + 1))
unfolding receive_vote
wins_iff n from_node term granted h small = ground arith

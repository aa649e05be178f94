-- ===== src/Cluster.antt =====
-- src/cluster.rs: a cluster node's elections, its log, and the replicated session states with their
-- encodings (Cluster/Codec). Strings are their bytes; which byte strings are UTF-8 is a parameter.
-- Counters wrap at their width, as in the release profile.
pub mod Codec
pub mod Election
pub mod RoundTrip
pub mod Snapshot
pub mod Tests
use fix_engine.Base.{
  Bool, Bytes, List, Option, [], bytes_eq, codes, drop, false, if◌then◌else◌, leb, length, ltb,
  none, not, some, suc, take, true, zero, ℕ, ◌%◌, ◌++◌, ◌+◌, ◌-◌, ◌/◌, ◌==◌, ◌^◌, ◌||◌, ◌∷◌,
}
use fix_engine.Cluster.Codec.{
  ReplicatedSessionState, encode_session_state, decode_session_state, le_bytes, from_le,
}

pub data NodeRole : Type 0 where
  leader follower candidate : NodeRole

pub data NodeState : Type 0 where
  joining active snapshotting left : NodeState

pub record NodeId : Type 0 where
  pub id : ℕ
  pub address : Bytes
  pub port : ℕ

pub record ClusterConfig : Type 0 where
  pub node_id : NodeId
  pub peers : List NodeId
  pub election_timeout_ms : ℕ
  pub heartbeat_interval_ms : ℕ
  pub snapshot_interval_msgs : ℕ
  pub log_dir : Bytes

abbrev pub default_config : ClusterConfig
default_config = record {
  node_id = record { id = 0; address = codes "127.0.0.1"; port = 9_000 };
  peers = [];
  election_timeout_ms = 300;
  heartbeat_interval_ms = 100;
  snapshot_interval_msgs = 10_000;
  log_dir = codes "/tmp/velocitas-cluster";
}

local_node : ℕ → NodeId
local_node id = record {
  id = id;
  address = codes "127.0.0.1";
  port = (9_000 + id % 2 ^ 16) % 2 ^ 16;
}

unfoldable pub single_node : ℕ → ClusterConfig
unfolding local_node
single_node id = record default_config { node_id = local_node id; peers = [] }

unfoldable pub three_node : ℕ → List NodeId → ClusterConfig
unfolding local_node
three_node id peers = record default_config { node_id = local_node id; peers = peers }

pub data LogEntryType : Type 0 where
  session_state_change sequence_update message_journal configuration snapshot : LogEntryType

pub record LogEntry : Type 0 where
  pub term : ℕ
  pub index : ℕ
  pub entry_type : LogEntryType
  pub data_bytes : Bytes

pub record ClusterNode : Type 0 where
  pub config : ClusterConfig
  pub role : NodeRole
  pub state : NodeState
  pub current_term : ℕ
  pub voted_for : Option ℕ
  pub commit_index : ℕ
  pub last_applied : ℕ
  pub log : List LogEntry
  pub session_states : List ReplicatedSessionState
  pub leader_id : Option ℕ
  pub votes_received : ℕ

abbrev pub new : ClusterConfig → ClusterNode
new config = record {
  config = config;
  role = follower;
  state = joining;
  current_term = 0;
  voted_for = none;
  commit_index = 0;
  last_applied = 0;
  log = [];
  session_states = [];
  leader_id = none;
  votes_received = 0;
}

abbrev pub is_candidate : NodeRole → Bool
is_candidate candidate = true
is_candidate _ = false

abbrev pub is_state_change : LogEntryType → Bool
is_state_change session_state_change = true
is_state_change _ = false

-- `self.log.last().map(|e| e.index).unwrap_or(0)`.
unfoldable pub last_index : List LogEntry → ℕ
last_index [] = 0
last_index (e ∷ []) = e.index
last_index (e ∷ d ∷ es) = last_index (d ∷ es)

unfoldable pub pending_entries : ClusterNode → ℕ
unfolding last_index
pending_entries n =
    if ltb n.commit_index (last_index n.log) then last_index n.log - n.commit_index else 0

unfoldable pub step_down : ClusterNode → ℕ → ClusterNode
step_down n new_term = record n {
  role = follower;
  current_term = new_term;
  voted_for = none;
  votes_received = 0;
  leader_id = none;
}

unfoldable pub become_leader : ClusterNode → ClusterNode
become_leader n = record n {
  role = leader;
  leader_id = some n.config.node_id.id;
  votes_received = 0;
}

abbrev is_empty : List NodeId → Bool
is_empty [] = true
is_empty (_ ∷ _) = false

candidacy : ClusterNode → ClusterNode
candidacy n = record n {
  current_term = (n.current_term + 1) % 2 ^ 64;
  role = candidate;
  voted_for = some n.config.node_id.id;
  votes_received = 1;
  leader_id = none;
}

unfoldable pub begin_election : ClusterNode → ClusterNode
unfolding candidacy become_leader
begin_election n = if is_empty n.config.peers then become_leader (candidacy n) else candidacy n

unfoldable pub start : ClusterNode → ClusterNode
unfolding begin_election
start n = begin_election (record n { state = active })

-- `cluster_size / 2 + 1`.
unfoldable pub majority : ClusterConfig → ℕ
majority c = (length c.peers % 2 ^ 32 + 1) % 2 ^ 32 / 2 + 1

counted : ClusterNode → ClusterNode
counted n = record n { votes_received = (n.votes_received + 1) % 2 ^ 32 }

-- The sender's name is not used.
unfoldable pub receive_vote : ClusterNode → ℕ → ℕ → Bool → ClusterNode
unfolding step_down become_leader majority counted
receive_vote n from_node term granted =
    if ltb n.current_term term
    then step_down n term
    else if not (is_candidate n.role) || not (term == n.current_term)
    then n
    else if not granted
    then n
    else if leb (majority n.config) (counted n).votes_received
    then become_leader (counted n)
    else counted n

unfoldable pub replicate_session_state : ClusterNode → ReplicatedSessionState → ClusterNode
unfolding last_index
replicate_session_state n s = record n {
  log =
      n.log
      ++ record {
        term = n.current_term;
        index = (last_index n.log + 1) % 2 ^ 64;
        entry_type = session_state_change;
        data_bytes = encode_session_state s;
      }
        ∷ [];
}

abbrev pub updated : ReplicatedSessionState → ReplicatedSessionState → ReplicatedSessionState
updated t s = record t {
  outbound_seq_num = s.outbound_seq_num;
  inbound_seq_num = s.inbound_seq_num;
  state = s.state;
  last_updated_ms = s.last_updated_ms;
}

-- Update the first state with the same session, or push the new one.
unfoldable pub upsert :
    ReplicatedSessionState → List ReplicatedSessionState → List ReplicatedSessionState
upsert s [] = s ∷ []
upsert s (t ∷ ts) =
    let later = upsert s ts in
    if bytes_eq t.session_id s.session_id then updated t s ∷ ts else t ∷ later

abbrev upsert_decoded :
    Option ReplicatedSessionState → List ReplicatedSessionState → List ReplicatedSessionState
upsert_decoded none ts = ts
upsert_decoded (some s) ts = upsert s ts

unfoldable pub find_session : Bytes → List ReplicatedSessionState → Option ReplicatedSessionState
find_session id [] = none
find_session id (t ∷ ts) =
    let later = find_session id ts in if bytes_eq t.session_id id then some t else later

unfoldable pub get_session_state : ClusterNode → Bytes → Option ReplicatedSessionState
get_session_state n id = find_session id n.session_states

abbrev pub max : ℕ → ℕ → ℕ
max a b = if ltb a b then b else a

-- The encoded states, each behind its length in four bytes.
unfoldable pub snapshot_entries : List ReplicatedSessionState → Bytes
snapshot_entries [] = []
snapshot_entries (s ∷ ss) =
    let encoded = encode_session_state s in
    le_bytes 4 (length encoded % 2 ^ 32) ++ (encoded ++ snapshot_entries ss)

unfoldable pub create_snapshot : ClusterNode → Bytes
unfolding snapshot_entries
create_snapshot n =
    le_bytes 4 (length n.session_states % 2 ^ 32) ++ snapshot_entries n.session_states

abbrev push_decoded :
    Option ReplicatedSessionState → List ReplicatedSessionState → List ReplicatedSessionState
push_decoded none ts = ts
push_decoded (some s) ts = s ∷ ts

module _ (is_utf8 : Bytes → Bool) where
  unfoldable pub apply_log_entry : ClusterNode → LogEntry → ClusterNode
  unfolding upsert
  apply_log_entry n e = record n {
    session_states =
        if is_state_change e.entry_type
        then upsert_decoded (decode_session_state is_utf8 e.data_bytes) n.session_states
        else n.session_states;
    last_applied = max n.last_applied e.index;
    commit_index = max n.commit_index e.index;
  }

  -- `for _ in 0..count` on the bytes from `offset` on; a `break` ends it.
  unfoldable pub restore_entries : ℕ → Bytes → List ReplicatedSessionState
  restore_entries zero rest = []
  restore_entries (suc n) rest =
      let len = from_le (take 4 rest) in
      let body = drop 4 rest in
      let later = restore_entries n (drop len body) in
      if ltb (length rest) 4
      then []
      else if ltb (length body) len
      then []
      else push_decoded (decode_session_state is_utf8 (take len body)) later

  unfoldable pub restore_snapshot : ClusterNode → Bytes → ClusterNode
  unfolding restore_entries
  restore_snapshot n bytes =
      if ltb (length bytes) 4 then record n { session_states = [] } else record n {
        session_states = restore_entries (from_le (take 4 bytes)) (drop 4 bytes);
        state = active;
      }

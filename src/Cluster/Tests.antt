-- ===== src/Cluster/Tests.antt =====
-- Runs of src/cluster.rs on concrete nodes, with every byte string taken for text.
use fix_engine.Base.{Bool, Bytes, [], arith, codes, false, none, refl, some, true, ℕ, ◌∷◌, ◌≡◌}
use fix_engine.Cluster.{
  become_leader, leader, ClusterConfig, ClusterNode, NodeId, new, three_node, begin_election,
  receive_vote, active, create_snapshot, restore_snapshot, get_session_state, apply_log_entry,
}
use fix_engine.Cluster.Codec.{ReplicatedSessionState}
use fix_engine.Cluster.Election.{NodeInv, here, next, elected, voted, Reach-NodeInv}
use fix_engine.Cluster.RoundTrip.{Fits}
use fix_engine.Cluster.Snapshot.{
  Agrees, state_entry, restore_snapshot-create_snapshot, get_session_state-apply_log_entry,
}

abbrev any_text : Bytes → Bool
any_text bytes = true

abbrev peer : ℕ → NodeId
peer id = record { id = id; address = codes "10.0.0.1"; port = 9_000 }

abbrev trio : ClusterConfig
unfolding three_node
trio = three_node 1 (peer 2 ∷ peer 3 ∷ [])

abbrev campaigning : ClusterNode
campaigning = begin_election (new trio)

-- A leader by a call from outside has no vote of its own.
promoted_unvoted :
    ((become_leader (new trio)).role ≡ leader) × ((become_leader (new trio)).voted_for ≡ none)
unfolding become_leader
promoted_unvoted = (refl, refl)

Reach-NodeInv_example : NodeInv false trio (receive_vote campaigning 2 1 true)
Reach-NodeInv_example =
    Reach-NodeInv false trio any_text (unfold three_node in omega arith)
      (next (next here (elected (new trio))) (voted campaigning 2 1 true))

abbrev state_one : ReplicatedSessionState
state_one = record {
  session_id = codes "S1";
  sender_comp_id = codes "BUY";
  target_comp_id = codes "SELL";
  outbound_seq_num = 70_000;
  inbound_seq_num = 12;
  state = 3;
  last_updated_ms = 1_700_000_000_000;
}

state_one-Fits : Fits any_text state_one
state_one-Fits = record {
  session_id = (omega arith, refl);
  sender_comp_id = (omega arith, refl);
  target_comp_id = (omega arith, refl);
  outbound_seq_num = omega arith;
  inbound_seq_num = omega arith;
  last_updated_ms = omega arith;
}

abbrev holding : ClusterNode
holding = record (new trio) { session_states = state_one ∷ [] }

restore_snapshot-create_snapshot_example :
    restore_snapshot any_text (new trio) (create_snapshot holding)
    ≡ record (new trio) { session_states = state_one ∷ []; state = active }
restore_snapshot-create_snapshot_example =
    restore_snapshot-create_snapshot any_text holding (new trio) (state_one-Fits, tt) (omega arith)

get_session_state-apply_log_entry_example :
    let applied = apply_log_entry any_text (new trio) (state_entry state_one 1 1) in
    ((t : ReplicatedSessionState) × (get_session_state applied (codes "S1") ≡ some t)
      × Agrees t state_one)
    × (get_session_state applied (codes "S2") ≡ get_session_state (new trio) (codes "S2"))
get_session_state-apply_log_entry_example =
    get_session_state-apply_log_entry any_text (new trio) state_one 1 1 (codes "S2") state_one-Fits
      (ground arith)

-- ===== src/Cluster/Snapshot.antt =====
-- The table of session states of src/cluster.rs: log entries and snapshots.
use fix_engine.Base.{
  All, Bool, Bool-cases, Bytes, List, [], arith, bytes_eq, bytes_eq_iff, drop-length_append, false,
  inl, inr, length, length-append, le→not_ltb, refl, some, take-length_append, true, ℕ, ◌%◌, ◌++◌,
  ◌<◌, ◌^◌, ◌∷◌, ◌≡◌, ◌≢◌,
}
use fix_engine.Cluster.{
  ClusterNode, LogEntry, active, create_snapshot, snapshot_entries, restore_entries,
  restore_snapshot, upsert, find_session, get_session_state, apply_log_entry, session_state_change,
  updated,
}
use fix_engine.Cluster.Codec.{ReplicatedSessionState, encode_session_state, le_bytes}
use fix_engine.Cluster.RoundTrip.{
  Fits, length-encode, decode_session_state-encode_session_state, number-le_bytes, drop-le_bytes,
  length-le_bytes,
}

module _ (is_utf8 : Bytes → Bool) where
  restore_entries-snapshot_entries :
      (ss : List ReplicatedSessionState)
      → All (Fits is_utf8) ss
      → restore_entries is_utf8 (length ss) (snapshot_entries ss) ≡ ss
  unfolding restore_entries snapshot_entries
  restore_entries-snapshot_entries [] h = refl
  restore_entries-snapshot_entries (s ∷ ss) (f, fs) =
      let e = encode_session_state s in
      let m = length e % 2 ^ 32 in
      let fits : m ≡ length e =
        omega (arith, length-encode s, f.session_id.0, f.sender_comp_id.0, f.target_comp_id.0) in
      let rest = snapshot_entries ss in
      rw (
        number-le_bytes 4 m (e ++ rest) (omega arith),
        drop-le_bytes 4 m (e ++ rest),
        take-length_append m e rest fits,
        drop-length_append m e rest fits,
        le→not_ltb (length (e ++ rest)) m (omega (arith, length-append e rest)),
        le→not_ltb (length (le_bytes 4 m ++ (e ++ rest))) 4
            (omega (arith, length-append (le_bytes 4 m) (e ++ rest), length-le_bytes 4 m)),
        decode_session_state-encode_session_state is_utf8 s f,
        restore_entries-snapshot_entries ss fs,
      )

  -- Restoring a node's snapshot gives any node that node's session states, and makes it active,
  -- provided they are fewer than 2^32 and each fits its encoding.
  pub restore_snapshot-create_snapshot :
      (n m : ClusterNode)
      → All (Fits is_utf8) n.session_states
      → length n.session_states < 2 ^ 32
      → restore_snapshot is_utf8 m (create_snapshot n)
        ≡ record m { session_states = n.session_states; state = active }
  unfolding restore_snapshot create_snapshot
  restore_snapshot-create_snapshot n m h small =
      let k = length n.session_states % 2 ^ 32 in
      let fits : k ≡ length n.session_states = omega arith in
      let rest = snapshot_entries n.session_states in
      rw (
        number-le_bytes 4 k rest (omega arith),
        drop-le_bytes 4 k rest,
        le→not_ltb (length (le_bytes 4 k ++ rest)) 4
            (omega (arith, length-append (le_bytes 4 k) rest, length-le_bytes 4 k)),
        fits,
        restore_entries-snapshot_entries n.session_states h,
      )

-- What a state says beside its names.
abbrev pub Agrees : ReplicatedSessionState → ReplicatedSessionState → Type 0
Agrees t s =
    (t.session_id ≡ s.session_id)
    × (t.outbound_seq_num ≡ s.outbound_seq_num)
    × (t.inbound_seq_num ≡ s.inbound_seq_num)
    × (t.state ≡ s.state)
    × (t.last_updated_ms ≡ s.last_updated_ms)

bytes_eq_refl : (a : Bytes) → bytes_eq a a ≡ true
bytes_eq_refl a = let same = bytes_eq_iff a a in ground arith

find_session-upsert :
    (s : ReplicatedSessionState) (ss : List ReplicatedSessionState)
    → (t : ReplicatedSessionState) × (find_session s.session_id (upsert s ss) ≡ some t) × Agrees t s
unfolding find_session upsert
find_session-upsert s [] = (s, rw (bytes_eq_refl s.session_id), (refl, refl, refl, refl, refl))
find_session-upsert s (u ∷ ss) =
    let (t, found, agrees) = find_session-upsert s ss in
    elim (Bool-cases (bytes_eq u.session_id s.session_id)) [
      | inl e ↦ (
        updated u s,
        rw (e, e),
        ((bytes_eq_iff u.session_id s.session_id).0 e, refl, refl, refl, refl),
      )
      | inr e ↦ (t, rw (e, e) found, agrees)
    ]

find_session-upsert_other :
    (s : ReplicatedSessionState) (ss : List ReplicatedSessionState) (id : Bytes)
    → id ≢ s.session_id
    → find_session id (upsert s ss) ≡ find_session id ss
unfolding find_session upsert
find_session-upsert_other s [] id ne = let same = bytes_eq_iff s.session_id id in ground arith
find_session-upsert_other s (u ∷ ss) id ne =
    let later = find_session-upsert_other s ss id ne in
    elim (Bool-cases (bytes_eq u.session_id s.session_id)) [
      | inl e ↦
          let not_id : bytes_eq u.session_id id ≡ false =
            let same = (bytes_eq_iff u.session_id s.session_id).0 e in
            let other = bytes_eq_iff u.session_id id in ground arith in
          rw (e, not_id)
      | inr e ↦ rw (e, later)
    ]

abbrev pub state_entry : ReplicatedSessionState → ℕ → ℕ → LogEntry
state_entry s term index = record {
  term = term;
  index = index;
  entry_type = session_state_change;
  data_bytes = encode_session_state s;
}

-- Applying an entry that carries a session state that fits its encoding makes the node answer that
-- state's numbers for its session, whether the session was known or not; what it answers for any
-- other session stays as it was.
pub get_session_state-apply_log_entry :
    (is_utf8 : Bytes → Bool) (n : ClusterNode) (s : ReplicatedSessionState) (term index : ℕ)
    (other : Bytes)
    → Fits is_utf8 s
    → other ≢ s.session_id
    → let applied = apply_log_entry is_utf8 n (state_entry s term index) in
      ((t : ReplicatedSessionState) × (get_session_state applied s.session_id ≡ some t)
        × Agrees t s)
      × (get_session_state applied other ≡ get_session_state n other)
unfolding get_session_state apply_log_entry
get_session_state-apply_log_entry is_utf8 n s term index other f ne =
    rw (decode_session_state-encode_session_state is_utf8 s f) (
      find_session-upsert s n.session_states,
      find_session-upsert_other s n.session_states other ne,
    )

-- ===== src/Session/Tests.antt =====
-- Runs of src/session.rs from concrete sessions.
use fix_engine.Base.{[], arith, refl, ℕ, ◌+◌, ◌∷◌, ◌≡◌}
use fix_engine.Session.{
  on_reconnect_attempt, Session, new, default_config, from_secs, resending, no_action, on_logon,
  validate_inbound_seq, check_heartbeat,
}
use fix_engine.Session.Sequence.{
  new_from, accepted, receive_all, count_from, accepted-consecutive, Received,
}
use fix_engine.Session.Rate.{allowed, allowed-eq-min}
use fix_engine.Session.Lifecycle.{
  Inv, here, next, logged_on, sequenced, retried, Reach-Inv, Waits, gap_silences,
}

abbrev fresh : Session
fresh = new default_config 0

abbrev received : Received
received = (1, 0) ∷ (1, 0) ∷ (4, 0) ∷ (2, 0) ∷ []

-- A repeated number is answered `Ok` too.
repeated_ok : accepted fresh received ≡ 1 ∷ 1 ∷ 2 ∷ []
unfolding accepted validate_inbound_seq
repeated_ok = refl

accepted-consecutive_example :
    (k : ℕ) × (new_from 1 (accepted fresh received) ≡ count_from 1 k)
    × ((receive_all fresh received).inbound_seq_num ≡ 1 + k)
accepted-consecutive_example = accepted-consecutive received fresh (omega arith)

abbrev limited : Session
limited = new (record default_config { max_msg_rate = 2 }) 0

allowed-eq-min_example : allowed limited (0 ∷ 5 ∷ 9 ∷ []) ≡ 2
allowed-eq-min_example = allowed-eq-min (0 ∷ 5 ∷ 9 ∷ []) limited (omega arith) (omega arith)

Reach-Inv_example :
    Inv default_config (on_reconnect_attempt (validate_inbound_seq (on_logon fresh 3) 7 4).0)
Reach-Inv_example =
    Reach-Inv default_config 0
      (next (next (next here (logged_on fresh 3)) (sequenced _ 7 4)) (retried _))

gap_silences_example :
    let t = (validate_inbound_seq fresh 7 4).0 in
    (t.state ≡ resending) × (check_heartbeat t (from_secs 90) ≡ (t, no_action))
gap_silences_example = gap_silences fresh 7 4 (from_secs 90) (omega arith) Waits.here

-- ===== src/Session/Lifecycle.antt =====
-- The life of a session of src/session.rs as a step relation, and what holds at every point of it.
use fix_engine.Base.{arith, false, none, true, ℕ, ◌<◌, ◌^◌, ◌≡◌, ◌≢◌}
use fix_engine.Session.{
  Session, disconnected, logon_sent, initiator, SessionConfig, next_outbound_seq_num, on_connected,
  on_logon, validate_inbound_seq, on_gap_filled, on_logout_sent, on_disconnected, check_heartbeat,
  on_message_sent, on_message_received, on_reconnect_attempt, reset_sequences, check_rate_limit,
  resending, new, no_action,
}

-- One call of a method, of any that changes the session.
pub data Step : Session → Session → Type 0 where
  numbered : (s : Session) → Step s (next_outbound_seq_num s).0
  connected :
      (s : Session) (received_now sent_now : ℕ) → Step s (on_connected s received_now sent_now)
  logged_on : (s : Session) (now : ℕ) → Step s (on_logon s now)
  sequenced : (s : Session) (seq now : ℕ) → Step s (validate_inbound_seq s seq now).0
  gap_filled : (s : Session) (new_seq : ℕ) → Step s (on_gap_filled s new_seq)
  logout : (s : Session) → Step s (on_logout_sent s)
  down : (s : Session) → Step s (on_disconnected s)
  polled : (s : Session) (now : ℕ) → Step s (check_heartbeat s now).0
  sent : (s : Session) (now : ℕ) → Step s (on_message_sent s now)
  received : (s : Session) (now : ℕ) → Step s (on_message_received s now)
  retried : (s : Session) → Step s (on_reconnect_attempt s)
  reset : (s : Session) → Step s (reset_sequences s)
  limited : (s : Session) (now : ℕ) → Step s (check_rate_limit s now).0

pub data Reach (s : Session) : Session → Type 0 where
  here : Reach s s
  next : {t u : Session} → Reach s t → Step t u → Reach s u

-- What holds of a session with a configuration.
pub record Inv (config : SessionConfig) (s : Session) : Type 0 where
  pub same_config : s.config ≡ config
  pub quiet_down : s.state ≡ disconnected → s.test_request_pending ≡ false
  pub probe_timed : s.test_request_pending ≡ true → s.test_request_sent_time ≢ none
  pub logon_by_initiator : s.state ≡ logon_sent → config.role ≡ initiator
  pub outbound_fits : s.outbound_seq_num < 2 ^ 64
  pub attempts_fit : s.reconnect_attempts < 2 ^ 32

new-Inv : (config : SessionConfig) (now : ℕ) → Inv config (new config now)
new-Inv config now = ground arith

module _ {config : SessionConfig} where
  connected-Inv :
      (s : Session) (received_now sent_now : ℕ)
      → Inv config s
      → Inv config (on_connected s received_now sent_now)
  unfolding on_connected
  connected-Inv s a b v = ground arith

  sequenced-Inv :
      (s : Session) (seq now : ℕ) → Inv config s → Inv config (validate_inbound_seq s seq now).0
  unfolding validate_inbound_seq
  sequenced-Inv s seq now v = ground arith

  polled-Inv : (s : Session) (now : ℕ) → Inv config s → Inv config (check_heartbeat s now).0
  unfolding check_heartbeat
  polled-Inv s now v = ground arith

  Step-Inv : {s t : Session} → Step s t → Inv config s → Inv config t
  unfolding next_outbound_seq_num on_logon on_gap_filled on_logout_sent on_disconnected
      on_message_sent on_message_received reset_sequences check_rate_limit on_reconnect_attempt
  Step-Inv (numbered s) v = ground arith
  Step-Inv (connected s a b) v = connected-Inv s a b v
  Step-Inv (logged_on s now) v = ground arith
  Step-Inv (sequenced s seq now) v = sequenced-Inv s seq now v
  Step-Inv (gap_filled s new_seq) v = ground arith
  Step-Inv (logout s) v = ground arith
  Step-Inv (down s) v = ground arith
  Step-Inv (polled s now) v = polled-Inv s now v
  Step-Inv (sent s now) v = ground arith
  Step-Inv (received s now) v = ground arith
  Step-Inv (retried s) v = ground arith
  Step-Inv (reset s) v = ground arith
  Step-Inv (limited s now) v = ground arith

  steps-Inv : {s t : Session} → Inv config s → Reach s t → Inv config t
  steps-Inv v here = v
  steps-Inv v (next r st) = Step-Inv st (steps-Inv v r)

-- In every state that calls of its methods, in any order, can lead a new session to: the
-- configuration is as given; a session that is disconnected has no test request outstanding; the
-- time of an outstanding test request is recorded; only an initiator is ever in `logon_sent`; and
-- the next outbound number and the count of reconnects keep within 64 and 32 bits.
pub Reach-Inv :
    (config : SessionConfig) (now : ℕ) {t : Session} → Reach (new config now) t → Inv config t
Reach-Inv config now r = steps-Inv (new-Inv config now) r

-- The calls between a gap and its repair that the receive loop and the timer make.
pub data Waits : Session → Session → Type 0 where
  here : {s : Session} → Waits s s
  numbered : {s t : Session} → Waits s t → Waits s (next_outbound_seq_num t).0
  sequenced : {s t : Session} (seq now : ℕ) → Waits s t → Waits s (validate_inbound_seq t seq now).0
  polled : {s t : Session} (now : ℕ) → Waits s t → Waits s (check_heartbeat t now).0
  sent : {s t : Session} (now : ℕ) → Waits s t → Waits s (on_message_sent t now)
  received : {s t : Session} (now : ℕ) → Waits s t → Waits s (on_message_received t now)
  limited : {s t : Session} (now : ℕ) → Waits s t → Waits s (check_rate_limit t now).0

Waits-resending : {s t : Session} → Waits s t → s.state ≡ resending → t.state ≡ resending
unfolding next_outbound_seq_num validate_inbound_seq check_heartbeat on_message_sent
    on_message_received check_rate_limit
Waits-resending here h = h
Waits-resending (numbered w) h = let ih = Waits-resending w h in ground arith
Waits-resending (sequenced {t = t} seq now w) h = let ih = Waits-resending w h in ground arith
Waits-resending (polled {t = t} now w) h = let ih = Waits-resending w h in ground arith
Waits-resending (sent now w) h = let ih = Waits-resending w h in ground arith
Waits-resending (received now w) h = let ih = Waits-resending w h in ground arith
Waits-resending (limited {t = t} now w) h = let ih = Waits-resending w h in ground arith

-- After a message with a number beyond the expected one the session is in `resending`, and stays
-- there through any receiving, sending, numbering, polling and rate limiting; all that time the
-- timer asks for nothing: no heartbeat, no test request and no disconnect.
pub gap_silences :
    (s : Session) (seq now now' : ℕ) {t : Session}
    → s.inbound_seq_num < seq
    → Waits (validate_inbound_seq s seq now).0 t
    → (t.state ≡ resending) × (check_heartbeat t now' ≡ (t, no_action))
unfolding check_heartbeat validate_inbound_seq
gap_silences s seq now now' gap w =
    let still = Waits-resending w (ground arith) in (still, ground arith)

-- ===== src/Session.antt =====
-- src/session.rs: the session's state machine, its sequence numbers, timers and rate limit.
-- `Instant` and `Duration` are counts of nanoseconds; `Instant::now()` is an argument for each
-- call; `duration_since` stops at zero. Counters wrap at their width, as in the release profile.
pub mod Sequence
pub mod Lifecycle
pub mod Rate
pub mod Tests
use fix_engine.Base.{
  Bool, Bytes, Option, Result, [], codes, err, false, if◌then◌else◌, leb, ltb, none, not, ok, some,
  true, ℕ, ◌%◌, ◌&&◌, ◌*◌, ◌+◌, ◌-◌, ◌==◌, ◌^◌,
}

pub data SessionState : Type 0 where
  disconnected connecting logon_sent active resending logout_sent : SessionState

pub data SessionRole : Type 0 where
  initiator acceptor : SessionRole

pub data SequenceResetPolicy : Type 0 where
  always daily weekly never : SequenceResetPolicy

pub record SessionConfig : Type 0 where
  pub session_id : Bytes
  pub fix_version : Bytes
  pub sender_comp_id : Bytes
  pub target_comp_id : Bytes
  pub role : SessionRole
  pub heartbeat_interval : ℕ
  pub reconnect_interval : ℕ
  pub max_reconnect_attempts : ℕ
  pub sequence_reset_policy : SequenceResetPolicy
  pub validate_comp_ids : Bool
  pub max_msg_rate : ℕ

-- `Duration::from_secs`.
abbrev pub from_secs : ℕ → ℕ
from_secs n = n * 1_000_000_000

-- `SessionConfig::default`.
abbrev pub default_config : SessionConfig
default_config = record {
  session_id = [];
  fix_version = codes "FIX.4.4";
  sender_comp_id = [];
  target_comp_id = [];
  role = initiator;
  heartbeat_interval = from_secs 30;
  reconnect_interval = from_secs 1;
  max_reconnect_attempts = 0;
  sequence_reset_policy = daily;
  validate_comp_ids = true;
  max_msg_rate = 50_000;
}

-- `none` of the source is `no_action`.
pub data SessionAction : Type 0 where
  send : Bytes → SessionAction
  disconnect no_action : SessionAction

pub record Session : Type 0 where
  pub config : SessionConfig
  pub state : SessionState
  pub outbound_seq_num : ℕ
  pub inbound_seq_num : ℕ
  pub last_sent_time : ℕ
  pub last_received_time : ℕ
  pub test_request_pending : Bool
  pub test_request_sent_time : Option ℕ
  pub reconnect_attempts : ℕ
  pub msg_count_window : ℕ
  pub window_start : ℕ

abbrev pub new : SessionConfig → ℕ → Session
new config now = record {
  config = config;
  state = disconnected;
  outbound_seq_num = 1;
  inbound_seq_num = 1;
  last_sent_time = now;
  last_received_time = now;
  test_request_pending = false;
  test_request_sent_time = none;
  reconnect_attempts = 0;
  msg_count_window = 0;
  window_start = now;
}

abbrev pub is_active : SessionState → Bool
is_active active = true
is_active _ = false

abbrev pub is_disconnected : SessionState → Bool
is_disconnected disconnected = true
is_disconnected _ = false

abbrev pub is_initiator : SessionRole → Bool
is_initiator initiator = true
is_initiator acceptor = false

-- `&mut self` returns the new session, with the result where there is one.
unfoldable pub next_outbound_seq_num : Session → Session × ℕ
next_outbound_seq_num s =
    (record s { outbound_seq_num = (s.outbound_seq_num + 1) % 2 ^ 64 }, s.outbound_seq_num)

-- The branch of `on_connected` for a session that is down; the clock is read twice.
connect_from_down : Session → ℕ → ℕ → Session
connect_from_down s received_now sent_now = record s {
  state = if is_initiator s.config.role then logon_sent else connecting;
  last_received_time = received_now;
  last_sent_time = sent_now;
  reconnect_attempts = 0;
}

on_connected_in : SessionState → Session → ℕ → ℕ → Session
on_connected_in disconnected s received_now sent_now = connect_from_down s received_now sent_now
on_connected_in connecting s received_now sent_now = connect_from_down s received_now sent_now
on_connected_in _ s received_now sent_now = s

unfoldable pub on_connected : Session → ℕ → ℕ → Session
unfolding on_connected_in connect_from_down
on_connected s = on_connected_in s.state s

unfoldable pub on_logon : Session → ℕ → Session
on_logon s now = record s { state = active; last_received_time = now; test_request_pending = false }

-- `Err((gap_start, gap_end))` on a gap.
unfoldable pub validate_inbound_seq : Session → ℕ → ℕ → Session × Result (Unit {0}) (ℕ × ℕ)
validate_inbound_seq s received_seq now =
    if received_seq == s.inbound_seq_num
    then (
      record s { inbound_seq_num = (s.inbound_seq_num + 1) % 2 ^ 64; last_received_time = now },
      ok tt,
    )
    else if ltb s.inbound_seq_num received_seq
    then (record s { state = resending }, err (s.inbound_seq_num, received_seq))
    else (s, ok tt)

unfoldable pub on_gap_filled : Session → ℕ → Session
on_gap_filled s new_seq = record s { inbound_seq_num = new_seq; state = active }

unfoldable pub on_logout_sent : Session → Session
on_logout_sent s = record s { state = logout_sent }

unfoldable pub on_disconnected : Session → Session
on_disconnected s = record s { state = disconnected; test_request_pending = false }

-- The part of `check_heartbeat` behind the test of the send timer.
check_received : Session → ℕ → Session × SessionAction
check_received s now =
    if leb (s.config.heartbeat_interval + from_secs 5) (now - s.last_received_time)
    then (if s.test_request_pending
        then (s, disconnect)
        else (record s { test_request_pending = true; test_request_sent_time = some now }, send []))
    else (s, no_action)

unfoldable pub check_heartbeat : Session → ℕ → Session × SessionAction
unfolding check_received
check_heartbeat s now =
    if is_active s.state
    then (if leb s.config.heartbeat_interval (now - s.last_sent_time)
        then (record s { last_sent_time = now }, send [])
        else check_received s now)
    else (s, no_action)

unfoldable pub on_message_sent : Session → ℕ → Session
on_message_sent s now = record s { last_sent_time = now }

unfoldable pub on_message_received : Session → ℕ → Session
on_message_received s now = record s { last_received_time = now; test_request_pending = false }

unfoldable pub should_reconnect : Session → Bool
should_reconnect s =
    if not (is_disconnected s.state)
    then false
    else if not (is_initiator s.config.role)
    then false
    else if ltb 0 s.config.max_reconnect_attempts
        && leb s.config.max_reconnect_attempts s.reconnect_attempts
    then false
    else true

unfoldable pub on_reconnect_attempt : Session → Session
on_reconnect_attempt s = record s {
  reconnect_attempts = (s.reconnect_attempts + 1) % 2 ^ 32;
  state = connecting;
}

unfoldable pub reset_sequences : Session → Session
reset_sequences s = record s { outbound_seq_num = 1; inbound_seq_num = 1 }

-- The window starts anew once a second has gone by.
roll_window : Session → ℕ → Session
roll_window s now =
    if leb (from_secs 1) (now - s.window_start)
    then record s { msg_count_window = 0; window_start = now }
    else s

unfoldable pub check_rate_limit : Session → ℕ → Session × Bool
unfolding roll_window
check_rate_limit s now =
    let rolled = roll_window s now in
    let counted = record rolled { msg_count_window = (rolled.msg_count_window + 1) % 2 ^ 32 } in
    (counted, leb counted.msg_count_window counted.config.max_msg_rate)

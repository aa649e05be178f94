-- ===== src/Server.antt =====
-- src/server.rs and src/client.rs: an acceptor's thread for one connection, and an initiator.
-- The socket is what its reads give, whether its options can be set, and the transport of the engine.
-- The acceptor is shared by the threads: what others do with it while this one runs is a function. A
-- failed `io::Result` of the engine is `engine_failed`; a failure to set the socket's options at the
-- start is a read that fails. What is printed on the console is left out.
pub mod Start
pub mod Leak
pub mod Tests
use fix_engine.Base.{
  Bool, Bytes, List, Option, Outcome, Result, [], bytes_eq, codes, err, false, if◌then◌else◌,
  length, none, not, ok, returns, some, take, true, ℕ, ◌++◌, ◌-◌, ◌==◌, ◌>>=◌, ◌∷◌,
}
use fix_engine.Tags
use fix_engine.Decimal.{decimal}
use fix_engine.Message.{MessageView, get_field, msg_type}
use fix_engine.Parser
use fix_engine.Parser.{find_message_boundary, parse}
use fix_engine.Session
use fix_engine.Session.{SessionConfig, from_secs, initiator, acceptor, daily}
use fix_engine.Acceptor
use fix_engine.Acceptor.{Acceptor, accept_connection, release_connection}
use fix_engine.Acceptor.Pool
use fix_engine.Acceptor.Pool.{AcceptorConfig, AcceptorError}
use fix_engine.Engine.{App, Event, FixEngine, new_initiator, handle_inbound_logon}
use fix_engine.Engine.Loop.{Ending, finished, io_failed, waiting, run_loop, run_initiator}

pub record FixServerConfig : Type 0 where
  pub bind_address : Bytes
  pub port : ℕ
  pub sender_comp_id : Bytes
  pub fix_version : Bytes
  pub heartbeat_interval : ℕ
  pub allowed_comp_ids : List Bytes
  pub max_connections : ℕ
  pub connection_pool_size : ℕ

abbrev pub default_server : FixServerConfig
default_server = record {
  bind_address = codes "0.0.0.0";
  port = 9_878;
  sender_comp_id = codes "VELOCITAS";
  fix_version = codes "FIX.4.4";
  heartbeat_interval = from_secs 30;
  allowed_comp_ids = [];
  max_connections = 256;
  connection_pool_size = 64;
}

-- The acceptor that `start` shares.
abbrev pub acceptor_config : FixServerConfig → AcceptorConfig
acceptor_config c = record Pool.default_config {
  bind_address = c.bind_address;
  port = c.port;
  max_connections = c.max_connections;
  connection_pool_size = c.connection_pool_size;
  allowed_comp_ids = c.allowed_comp_ids;
}

-- Why a thread ends with an error.
pub data ServerError : Type 0 where
  read_failed closed_before_logon no_msg_type no_sender stream_failed engine_failed : ServerError
  parse_error : Parser.ParseError → ServerError
  not_logon : Bytes → ServerError
  refused : AcceptorError → ServerError

-- The session of a connection that was accepted.
abbrev pub session_config : FixServerConfig → ℕ → Bytes → SessionConfig
session_config c conn_id comp_id = record {
  session_id = codes "ACC-" ++ decimal conn_id;
  fix_version = c.fix_version;
  sender_comp_id = c.sender_comp_id;
  target_comp_id = comp_id;
  role = acceptor;
  heartbeat_interval = c.heartbeat_interval;
  reconnect_interval = from_secs 0;
  max_reconnect_attempts = 0;
  sequence_reset_policy = daily;
  validate_comp_ids = true;
  max_msg_rate = 50_000;
}

-- What a thread has come to: its result, or it still runs the engine.
pub data Progress : Type 0 where
  ended : Result (Unit {0}) ServerError → Progress
  running : Progress

-- The thread when the engine's loop stands as given: the loop's result is its own.
abbrev pub thread_for : Ending → Progress
thread_for finished = ended (ok tt)
thread_for io_failed = ended (err engine_failed)
thread_for waiting = running

-- The acceptor then: behind the loop the connection is released.
unfoldable pub left_by : (Acceptor → Acceptor) → ℕ → Acceptor → Ending → Acceptor
unfolding release_connection
left_by meanwhile conn_id acc finished = (release_connection (meanwhile acc) conn_id).0
left_by meanwhile conn_id acc io_failed = (release_connection (meanwhile acc) conn_id).0
left_by meanwhile conn_id acc waiting = meanwhile acc

-- The acceptor and the thread.
abbrev pub Served : Type 0
Served = Acceptor × Progress

module _ (is_utf8 : Bytes → Bool) where
  -- `sender_comp_id`.
  unfoldable pub sender_of : Option Bytes → Result Bytes ServerError
  sender_of none = err no_sender
  sender_of (some v) = if is_utf8 v then ok v else err no_sender

  unfoldable pub typed : MessageView → Option Bytes → Outcome (Result Bytes ServerError)
  unfolding sender_of
  typed view none = returns (err no_msg_type)
  typed view (some t) =
      if not (bytes_eq t (codes "A"))
      then returns (err (not_logon t))
      else (get_field view Tags.sender_comp_id >>= λ v. returns (sender_of v))

  -- The counterparty that the first message names.
  unfoldable pub logon_of :
      Result (MessageView × ℕ) Parser.ParseError → Outcome (Result Bytes ServerError)
  unfolding typed
  logon_of (err e) = returns (err (parse_error e))
  logon_of (ok (view, _)) = msg_type view >>= typed view

  -- The loop that reads the first message into a buffer of 4096 bytes; a read into a full buffer
  -- gives nothing. `none` is a read that fails, or that times out.
  unfoldable pub read_logon : List (Option Bytes) → Bytes → Outcome (Result Bytes ServerError)
  unfolding logon_of find_message_boundary parse
  read_logon [] buf = returns (err read_failed)
  read_logon (none ∷ reads) buf = returns (err read_failed)
  read_logon (some bytes ∷ reads) buf =
      let got = take (4_096 - length buf) bytes in
      let pos = buf ++ got in
      let more = read_logon reads pos in
      if length got == 0
      then returns (err closed_before_logon)
      else elim (find_message_boundary pos) [
        | none ↦ more
        | some boundary ↦ logon_of (parse Parser.new (take boundary pos))
      ]

  module _ {A : Type 0} (app : App A) (accepts : List Bytes → Bytes → Bool)
      (clock wall : ℕ → ℕ) where
    -- The engine of the thread, when its Logon is answered.
    unfoldable pub start_engine : FixServerConfig → ℕ → Bytes → A → Outcome (FixEngine A × Bool)
    unfolding handle_inbound_logon new_initiator
    start_engine config conn_id comp_id state =
        let session = Session.new (session_config config conn_id comp_id) (clock 0) in
        handle_inbound_logon app accepts clock wall
          (new_initiator (record { session = session; sent = []; reads = 1 }) state)

    unfoldable pub serve :
        (Acceptor → Acceptor) → List Event → ℕ → Acceptor → FixEngine A × Bool → Outcome Served
    unfolding run_loop left_by
    serve meanwhile events conn_id acc (e, false) = returns (acc, ended (err engine_failed))
    serve meanwhile events conn_id acc (e, true) = run_loop app accepts clock wall events e >>= λ r.
        returns (left_by meanwhile conn_id acc r.1, thread_for r.1)

    unfoldable pub admitted :
        FixServerConfig
        → (Acceptor → Acceptor)
        → Bool
        → List Event
        → A
        → Bytes
        → Acceptor × Result ℕ AcceptorError
        → Outcome Served
    unfolding start_engine serve
    admitted config meanwhile stream_ok events state comp_id (acc, err e) =
        returns (acc, ended (err (refused e)))
    admitted config meanwhile stream_ok events state comp_id (acc, ok conn_id) =
        if not stream_ok
        then returns (acc, ended (err stream_failed))
        else (start_engine config conn_id comp_id state >>= serve meanwhile events conn_id acc)

    unfoldable pub registered :
        FixServerConfig
        → (Acceptor → Acceptor)
        → Bool
        → List Event
        → A
        → Acceptor
        → Bytes
        → ℕ
        → Result Bytes ServerError
        → Outcome Served
    unfolding admitted
    registered config meanwhile stream_ok events state acc remote now_ms (err e) =
        returns (acc, ended (err e))
    registered config meanwhile stream_ok events state acc remote now_ms (ok comp_id) =
        admitted config meanwhile stream_ok events state comp_id
          (accept_connection acc remote comp_id now_ms (clock 0))

    -- `handle_connection`, with the state of the fresh application.
    unfoldable pub handle_connection :
        FixServerConfig
        → (Acceptor → Acceptor)
        → List (Option Bytes)
        → Bool
        → List Event
        → A
        → Acceptor
        → Bytes
        → ℕ
        → Outcome Served
    unfolding read_logon registered
    handle_connection config meanwhile reads stream_ok events state acc remote now_ms =
        read_logon reads [] >>= registered config meanwhile stream_ok events state acc remote now_ms

pub record FixClientConfig : Type 0 where
  pub remote_host : Bytes
  pub remote_port : ℕ
  pub sender_comp_id : Bytes
  pub target_comp_id : Bytes
  pub fix_version : Bytes
  pub heartbeat_interval : ℕ
  pub reconnect_attempts : ℕ

abbrev pub default_client : FixClientConfig
default_client = record {
  remote_host = codes "127.0.0.1";
  remote_port = 9_878;
  sender_comp_id = [];
  target_comp_id = [];
  fix_version = codes "FIX.4.4";
  heartbeat_interval = from_secs 30;
  reconnect_attempts = 3;
}

abbrev pub client_session : FixClientConfig → SessionConfig
client_session c = record {
  session_id = c.sender_comp_id ++ (b'-' ∷ c.target_comp_id);
  fix_version = c.fix_version;
  sender_comp_id = c.sender_comp_id;
  target_comp_id = c.target_comp_id;
  role = initiator;
  heartbeat_interval = c.heartbeat_interval;
  reconnect_interval = from_secs 1;
  max_reconnect_attempts = c.reconnect_attempts;
  sequence_reset_policy = daily;
  validate_comp_ids = true;
  max_msg_rate = 50_000;
}

-- `connect_and_run`, for whether the connection succeeds.
unfoldable pub connect_and_run :
    {A : Type 0}
    → App A
    → (List Bytes → Bytes → Bool)
    → (ℕ → ℕ)
    → (ℕ → ℕ)
    → FixClientConfig
    → Bool
    → List Event
    → A
    → Outcome (Option (FixEngine A) × Ending)
unfolding run_initiator new_initiator
connect_and_run app accepts clock wall config connected events state =
    let session = Session.new (client_session config) (clock 0) in
    if not connected
    then returns (none, io_failed)
    else (run_initiator app accepts clock wall events
          (new_initiator (record { session = session; sent = []; reads = 1 }) state)
        >>= λ r. returns (some r.0, r.1))

-- ===== src/Server/Leak.antt =====
-- src/server.rs: whether a thread that ends gives its connection back.
use fix_engine.Base.{
  All, Bool, Bytes, List, Option, [], arith, err, false, if◌then◌else◌, length, none, ok, refl,
  returns, some, true, ℕ, ◌/◌, ◌<◌, ◌^◌, ◌≡◌, ◌≤◌,
}
use fix_engine.Acceptor.{Acceptor, accept_connection, find_by_comp_id, holds}
use fix_engine.Acceptor.Pool.{already_connected}
use fix_engine.Acceptor.Accept.{
  find_by_comp_id-accept_connection, release_connection-accept_connection, accept_connection-again,
}
use fix_engine.Engine.{App, Event, FixEngine, handle_inbound_logon, new_initiator, connect}
use fix_engine.Engine.Loop.{Ending, finished, io_failed, waiting, run_loop, Ending}
use fix_engine.Session.{on_connected, on_logon}
use fix_engine.Server.Start.{logon_reply, ready, send_logon-refused}
use fix_engine.Server.{
  FixServerConfig, left_by, thread_for, ended, engine_failed, handle_connection, read_logon,
  registered, start_engine, admitted, serve,
}

-- Whether the loop waits for more of the transport.
abbrev pub waits : Ending → Bool
waits waiting = true
waits finished = false
waits io_failed = false

left_by-holds :
    (acc : Acceptor) (remote comp_id : Bytes) (now_ms now : ℕ)
    → (accept_connection acc remote comp_id now_ms now).1 ≡ ok acc.next_conn_id
    → All (λ c. holds acc.next_conn_id c ≡ false) acc.connections
    → (end : Ending)
    → find_by_comp_id
        (left_by (λ a. a) acc.next_conn_id (accept_connection acc remote comp_id now_ms now).0 end)
        comp_id
      ≡ (if waits end then some acc.next_conn_id else none)
unfolding left_by
left_by-holds acc remote comp_id now_ms now accepted fresh finished =
    (release_connection-accept_connection acc remote comp_id now_ms now accepted fresh).1
left_by-holds acc remote comp_id now_ms now accepted fresh io_failed =
    (release_connection-accept_connection acc remote comp_id now_ms now accepted fresh).1
left_by-holds acc remote comp_id now_ms now accepted fresh waiting =
    find_by_comp_id-accept_connection acc remote comp_id now_ms now accepted

-- A thread whose first message names a counterparty that the acceptor takes, under a number that no
-- live connection has, and whose Logon is answered, stands as its engine's loop does: while the loop
-- waits for the transport the thread runs and its counterparty holds the connection; when the loop
-- has returned, with an error or not, the thread has ended with its result and the counterparty
-- holds none. No other thread uses the acceptor meanwhile.
pub handle_connection-released :
    (is_utf8 : Bytes → Bool) {A : Type 0} (app : App A) (accepts : List Bytes → Bytes → Bool)
    (clock wall : ℕ → ℕ) (config : FixServerConfig) (reads : List (Option Bytes))
    (events : List Event) (state : A) (acc : Acceptor) (remote comp_id : Bytes) (now_ms : ℕ)
    {f g : FixEngine A} {end : Ending}
    → read_logon is_utf8 reads [] ≡ returns (ok comp_id)
    → (accept_connection acc remote comp_id now_ms (clock 0)).1 ≡ ok acc.next_conn_id
    → All (λ c. holds acc.next_conn_id c ≡ false) acc.connections
    → start_engine is_utf8 app accepts clock wall config acc.next_conn_id comp_id state
      ≡ returns (f, true)
    → run_loop app accepts clock wall events f ≡ returns (g, end)
    → (left : Acceptor) × (handle_connection is_utf8 app accepts clock wall config
          (λ a. a)
          reads
          true
          events
          state
          acc
          remote
          now_ms
        ≡ returns (left, thread_for end))
      × (find_by_comp_id left comp_id ≡ (if waits end then some acc.next_conn_id else none))
unfolding handle_connection registered admitted serve
handle_connection-released is_utf8 app accepts clock wall config reads events state acc remote
      comp_id now_ms {end = end} read accepted fresh started ran =
    let opened = (accept_connection acc remote comp_id now_ms (clock 0)).0 in
    (
      left_by (λ a. a) acc.next_conn_id opened end,
      rw (read, accepted, started, ran) refl,
      left_by-holds acc remote comp_id now_ms (clock 0) accepted fresh end,
    )

-- A thread whose Logon cannot be sent does not: where the counterparty is taken and the Logon fits
-- into the send buffer, but the transport refuses it, the thread ends with an error and the
-- counterparty still holds the connection, so that it is refused when it connects again.
pub handle_connection-held :
    (is_utf8 : Bytes → Bool) {A : Type 0} (app : App A) (accepts : List Bytes → Bytes → Bool)
    (clock wall : ℕ → ℕ) (config : FixServerConfig) (meanwhile : Acceptor → Acceptor)
    (reads : List (Option Bytes)) (events : List Event) (state : A) (acc : Acceptor)
    (remote comp_id : Bytes) (now_ms : ℕ) (addr : Bytes) (t now : ℕ)
    → let out =
        logon_reply app accepts clock wall
          (ready app accepts clock wall config acc.next_conn_id comp_id state) in
      read_logon is_utf8 reads [] ≡ returns (ok comp_id)
      → (accept_connection acc remote comp_id now_ms (clock 0)).1 ≡ ok acc.next_conn_id
      → config.heartbeat_interval / 1_000_000_000 < 2 ^ 64
      → length out ≤ 4_096
      → accepts [] out ≡ false
      → (left : Acceptor) × (handle_connection is_utf8 app accepts clock wall config meanwhile reads
            true events state acc remote now_ms
          ≡ returns (left, ended (err engine_failed)))
        × (find_by_comp_id left comp_id ≡ some acc.next_conn_id)
        × ((accept_connection left addr comp_id t now).1 ≡ err (already_connected comp_id))
unfolding handle_connection registered admitted serve start_engine handle_inbound_logon
    new_initiator connect on_connected on_logon
handle_connection-held is_utf8 app accepts clock wall config meanwhile reads events state acc remote
      comp_id now_ms addr t now read accepted interval fits refused =
    let (f, started) =
      send_logon-refused app accepts clock wall
        (ready app accepts clock wall config acc.next_conn_id comp_id state) (omega arith) interval
        fits refused in
    (
      (accept_connection acc remote comp_id now_ms (clock 0)).0,
      rw (read, accepted, started) refl,
      find_by_comp_id-accept_connection acc remote comp_id now_ms (clock 0) accepted,
      accept_connection-again acc remote addr comp_id now_ms (clock 0) t now accepted,
    )

-- ===== src/Engine.antt =====
-- src/engine.rs: the engine of one connection, which drives a session over a transport.
-- The transport, the application and the clocks are parameters: `accepts` says whether a `send` of
-- these bytes succeeds behind what was sent before, an `App` holds the callbacks, the n-th reading of
-- a clock shows `clock n` and `wall n`, and what the calls of `recv` give is a list of events. A
-- failed `io::Result` is `false`. `recv_buf` is its first `recv_pos` bytes.
pub mod Sends
pub mod Loop
pub mod Keeps
pub mod Fuel
pub mod Timer
pub mod Context
pub mod Tests
use fix_engine.Base.{
  Bool, Bytes, List, Outcome, [], bytes_eq, codes, false, if◌then◌else◌, not, replicate, returns,
  slice, true, ℕ, ◌&&◌, ◌++◌, ◌+◌, ◌/◌, ◌>>=◌, ◌||◌, ◌∷◌,
}
use fix_engine.Message.{MessageView}
use fix_engine.Parser
use fix_engine.Serializer.Build.{build_logon, build_heartbeat, build_logout}
use fix_engine.Session.{
  Session, SessionState, connecting, logon_sent, logout_sent, is_disconnected, is_initiator,
  next_outbound_seq_num, on_connected, on_disconnected, on_logon, on_logout_sent, on_message_sent,
}
use fix_engine.Timestamp.{reading, system, to_fix_timestamp}

-- What a callback may change: the session, and what was sent and read of the clock.
pub record EngineContext : Type 0 where
  pub session : Session
  pub sent : List Bytes
  pub reads : ℕ

-- The callbacks of the application, on its own state.
pub record App (A : Type 0) : Type 0 where
  pub on_logon_app : A → EngineContext → A × EngineContext × Bool
  pub on_message_app : Bytes → MessageView → A → EngineContext → A × EngineContext × Bool
  pub on_logout_app : A → A × Bool

pub record FixEngine (A : Type 0) : Type 0 where
  pub ctx : EngineContext
  pub recv : Bytes
  pub send_buf : Bytes
  pub should_stop : Bool
  pub app : A

-- What `recv` gives: some bytes or none, a connection that ended, or another error.
pub data Event : Type 0 where
  received : Bytes → Event
  closed failed : Event

unfoldable pub new_initiator : {A : Type 0} → EngineContext → A → FixEngine A
new_initiator ctx app = record {
  ctx = ctx;
  recv = [];
  send_buf = replicate 4_096 0;
  should_stop = false;
  app = app;
}

abbrev pub is_connecting : SessionState → Bool
is_connecting connecting = true
is_connecting _ = false

abbrev pub is_logon_sent : SessionState → Bool
is_logon_sent logon_sent = true
is_logon_sent _ = false

abbrev pub is_logout_sent : SessionState → Bool
is_logout_sent logout_sent = true
is_logout_sent _ = false

-- `?` on an `io::Result`.
abbrev pub and_then :
    {A : Type 0}
    → Outcome (FixEngine A × Bool)
    → (FixEngine A → Outcome (FixEngine A × Bool))
    → Outcome (FixEngine A × Bool)
and_then m f = m >>= λ r. if r.1 then f r.0 else returns r

module _ {A : Type 0} (app : App A) (accepts : List Bytes → Bytes → Bool) (clock wall : ℕ → ℕ) where
  -- A change of the session that reads the clock once.
  abbrev pub tick : FixEngine A → (Session → ℕ → Session) → FixEngine A
  tick e f = record e {
    ctx = record e.ctx { session = f e.ctx.session (clock e.ctx.reads); reads = e.ctx.reads + 1 };
  }

  abbrev pub with_session : FixEngine A → (Session → Session) → FixEngine A
  with_session e f = record e { ctx = record e.ctx { session = f e.ctx.session } }

  -- `on_connected`, which reads the clock twice.
  unfoldable pub connect : FixEngine A → FixEngine A
  connect e = record e {
    ctx = record e.ctx {
      session = on_connected e.ctx.session (clock e.ctx.reads) (clock (e.ctx.reads + 1));
      reads = e.ctx.reads + 2;
    };
  }

  -- `transport.send` of the first `len` bytes of the buffer.
  unfoldable pub transport_send : FixEngine A → Bytes × ℕ → Outcome (FixEngine A × Bool)
  unfolding slice
  transport_send e (buffer, len) = slice buffer 0 len >>= λ out. returns (
      if accepts e.ctx.sent out
      then (
        record e { ctx = record e.ctx { sent = e.ctx.sent ++ (out ∷ []) }; send_buf = buffer },
        true,
      )
      else (record e { send_buf = buffer }, false))

  unfoldable pub now_timestamp : FixEngine A → Bytes
  unfolding reading to_fix_timestamp
  now_timestamp e =
      to_fix_timestamp (reading system (record { wall_nanos = wall e.ctx.reads; ticks = 0 }))

  -- The engine with the next number taken and the timestamp read.
  unfoldable pub numbered : FixEngine A → FixEngine A
  unfolding next_outbound_seq_num
  numbered e = record e {
    ctx = record e.ctx {
      session = (next_outbound_seq_num e.ctx.session).0;
      reads = e.ctx.reads + 1;
    };
  }

  unfoldable pub send_logon : FixEngine A → Outcome (FixEngine A × Bool)
  unfolding numbered now_timestamp transport_send build_logon
  send_logon e =
      let c = e.ctx.session.config in
      and_then
        (build_logon e.send_buf c.fix_version c.sender_comp_id c.target_comp_id
            (next_outbound_seq_num e.ctx.session).1 (now_timestamp e)
            (c.heartbeat_interval / 1_000_000_000)
          >>= transport_send (numbered e))
        (λ f. returns (tick f on_message_sent, true))

  unfoldable pub send_heartbeat : FixEngine A → Outcome (FixEngine A × Bool)
  unfolding numbered now_timestamp transport_send build_heartbeat
  send_heartbeat e =
      let c = e.ctx.session.config in
      and_then
        (build_heartbeat e.send_buf c.fix_version c.sender_comp_id c.target_comp_id
            (next_outbound_seq_num e.ctx.session).1 (now_timestamp e)
          >>= transport_send (numbered e))
        (λ f. returns (tick f on_message_sent, true))

  -- The logout on the wire, which `send_logout` and the end of the loop share.
  unfoldable pub write_logout : FixEngine A → Outcome (FixEngine A × Bool)
  unfolding numbered now_timestamp transport_send build_logout
  write_logout e =
      let c = e.ctx.session.config in
      build_logout e.send_buf c.fix_version c.sender_comp_id c.target_comp_id
        (next_outbound_seq_num e.ctx.session).1 (now_timestamp e)
      >>= transport_send (numbered e)

  unfoldable pub send_logout : FixEngine A → Outcome (FixEngine A × Bool)
  unfolding write_logout
  send_logout e =
      and_then (write_logout e)
        λ f. returns (tick (with_session f on_logout_sent) on_message_sent, true)

  unfoldable pub handle_inbound_logon : FixEngine A → Outcome (FixEngine A × Bool)
  unfolding connect send_logon
  handle_inbound_logon e = send_logon (tick (connect e) on_logon)

  unfoldable pub call_on_logon : FixEngine A → FixEngine A × Bool
  call_on_logon e =
      let (a, ctx, done) = app.on_logon_app e.app e.ctx in (record e { app = a; ctx = ctx }, done)

  unfoldable pub on_logon_message : FixEngine A → Outcome (FixEngine A × Bool)
  unfolding connect send_logon call_on_logon
  on_logon_message e =
      let s = e.ctx.session in
      if not (is_initiator s.config.role) && (is_disconnected s.state || is_connecting s.state)
      then and_then (send_logon (tick (if is_disconnected s.state then connect e else e) on_logon))
          (λ f. returns (call_on_logon f))
      else if is_logon_sent s.state
      then returns (call_on_logon (tick e on_logon))
      else returns (e, true)

  unfoldable pub on_logout_message : FixEngine A → Outcome (FixEngine A × Bool)
  unfolding send_logout
  on_logout_message e =
      let (a, done) = app.on_logout_app e.app in
      let called = record e { app = a } in
      let stopped : FixEngine A → Outcome (FixEngine A × Bool) =
        λ f. returns (record (with_session f on_disconnected) { should_stop = true }, true) in
      if not done
      then returns (called, false)
      else if is_logout_sent called.ctx.session.state
      then stopped called
      else and_then (send_logout called) stopped

  unfoldable pub on_application_message : Bytes → MessageView → FixEngine A → FixEngine A × Bool
  on_application_message t view e =
      let (a, ctx, done) = app.on_message_app t view e.app e.ctx in
      (record e { app = a; ctx = ctx }, done)

  -- The dispatch by message type.
  unfoldable pub dispatch : Bytes → MessageView → FixEngine A → Outcome (FixEngine A × Bool)
  unfolding on_logon_message send_heartbeat on_logout_message on_application_message bytes_eq
  dispatch t view e =
      if bytes_eq t (codes "A")
      then on_logon_message e
      else if bytes_eq t (codes "0")
      then returns (e, true)
      else if bytes_eq t (codes "1")
      then send_heartbeat e
      else if bytes_eq t (codes "5")
      then on_logout_message e
      else returns (on_application_message t view e)

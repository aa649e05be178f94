-- ===== src/Engine/Loop.antt =====
-- src/engine.rs: the messages of the receive buffer, and `run_loop` over what `recv` gives.
use fix_engine.Base.{
  Bool, Bytes, List, Option, Outcome, Result, [], drop, err, false, if◌then◌else◌, length, none, ok,
  returns, some, suc, take, true, zero, ℕ, ◌++◌, ◌>>=◌, ◌∷◌,
}
use fix_engine.Message.{MessageView, msg_seq_num, msg_type}
use fix_engine.Parser
use fix_engine.Parser.{parse, find_message_boundary}
use fix_engine.Session.{
  SessionState, SessionAction, send, disconnect, no_action, is_active, check_heartbeat,
  on_disconnected, on_message_received, validate_inbound_seq, disconnected, logout_sent,
}
use fix_engine.Engine.{
  App, Event, FixEngine, and_then, closed, failed, received, connect, dispatch, send_heartbeat,
  send_logon, tick, with_session, write_logout,
}

-- How `run_loop` stands: it has returned `Ok`, or an error, or it goes on with the next `recv`.
pub data Ending : Type 0 where
  finished io_failed waiting : Ending

-- `?` on an `io::Result` in the loop.
abbrev pub go_on :
    {A : Type 0}
    → Outcome (FixEngine A × Bool)
    → (FixEngine A → Outcome (FixEngine A × Ending))
    → Outcome (FixEngine A × Ending)
go_on m f = m >>= λ r. if r.1 then f r.0 else returns (r.0, io_failed)

module _ {A : Type 0} (app : App A) (accepts : List Bytes → Bytes → Bool) (clock wall : ℕ → ℕ) where
  -- The sequence number is validated where there is one; the answer is ignored.
  unfoldable pub validated : FixEngine A → Option ℕ → FixEngine A
  validated f none = f
  validated f (some seq) =
      tick app accepts clock wall f (λ s now. (validate_inbound_seq s seq now).0)

  unfoldable pub dispatched :
      MessageView → Option Bytes → FixEngine A → Outcome (FixEngine A × Bool)
  unfolding dispatch
  dispatched view none f = returns (f, true)
  dispatched view (some t) f = dispatch app accepts clock wall t view f

  -- What follows a message that parses.
  unfoldable pub handle_view : MessageView → FixEngine A → Outcome (FixEngine A × Bool)
  unfolding validated dispatched
  handle_view view e =
      let heard = tick app accepts clock wall e on_message_received in
      msg_seq_num view >>= λ seq.
      let checked = validated heard seq in msg_type view >>= λ t. dispatched view t checked

  unfoldable pub handled :
      FixEngine A → Result (MessageView × ℕ) Parser.ParseError → Outcome (FixEngine A × Bool)
  unfolding handle_view
  handled e (err _) = returns (e, true)
  handled e (ok (view, _)) = handle_view view e

  -- A complete message, which is skipped when it does not parse.
  unfoldable pub handle_message : Bytes → FixEngine A → Outcome (FixEngine A × Bool)
  unfolding handled parse
  handle_message bytes e = handled e (parse Parser.new bytes)

  -- A turn of the inner loop, with the turns behind it.
  unfoldable pub take_message :
      (FixEngine A → Outcome (FixEngine A × Bool))
      → FixEngine A
      → Option ℕ
      → Outcome (FixEngine A × Bool)
  unfolding handle_message
  take_message rest e none = returns (e, true)
  take_message rest e (some boundary) =
      and_then (handle_message (take boundary e.recv) (record e { recv = drop boundary e.recv }))
        rest

  -- The inner loop; each turn takes a message of at least eight bytes off the buffer, so its length
  -- is enough fuel.
  unfoldable pub process : ℕ → FixEngine A → Outcome (FixEngine A × Bool)
  unfolding take_message find_message_boundary
  process zero e = returns (e, true)
  process (suc fuel) e = take_message (λ f. process fuel f) e (find_message_boundary e.recv)

  -- The check of the state behind the messages; the result of the last `send` is ignored.
  unfoldable pub check_state : SessionState → FixEngine A → Outcome (FixEngine A × Bool)
  unfolding write_logout
  check_state disconnected e = returns (record e { should_stop = true }, true)
  check_state logout_sent e = write_logout app accepts clock wall e >>= λ r. returns (
    record (with_session app accepts clock wall r.0 on_disconnected) { should_stop = true },
    true,
  )
  check_state _ e = returns (e, true)

  -- The heartbeat timer: whether the loop goes on.
  unfoldable pub drive_timer : FixEngine A → Outcome (FixEngine A × Bool)
  unfolding send_heartbeat
  drive_timer e =
      acted (check_heartbeat e.ctx.session (clock e.ctx.reads)).1
        (tick app accepts clock wall e (λ s now. (check_heartbeat s now).0))
    where
      acted : SessionAction → FixEngine A → Outcome (FixEngine A × Bool)
      acted (send _) f =
          if is_active f.ctx.session.state
          then send_heartbeat app accepts clock wall f
          else returns (f, true)
      acted disconnect f = returns (record f { should_stop = true }, true)
      acted no_action f = returns (f, true)

  -- A turn of the loop behind the timer, for what `recv` gives.
  unfoldable pub on_event : Event → FixEngine A → Outcome (FixEngine A × Bool)
  unfolding process check_state
  on_event closed e =
      returns (
        record (with_session app accepts clock wall e on_disconnected) { should_stop = true },
        true,
      )
  on_event failed e = returns (e, false)
  on_event (received []) e = returns (e, true)
  on_event (received (b ∷ bytes)) e =
      let more = e.recv ++ (b ∷ bytes) in
      and_then (process (length more) (record e { recv = more }))
        λ f. check_state f.ctx.session.state f

  -- `run_loop`, up to the events that are given: where they run out before the loop ends, it waits.
  unfoldable pub run_loop : List Event → FixEngine A → Outcome (FixEngine A × Ending)
  unfolding drive_timer on_event
  run_loop [] e = returns (e, if e.should_stop then finished else waiting)
  run_loop (event ∷ events) e =
      if e.should_stop
      then returns (e, finished)
      else go_on (drive_timer e) λ f.
        if f.should_stop then returns (f, finished) else go_on (on_event event f) (run_loop events)

  unfoldable pub run_initiator : List Event → FixEngine A → Outcome (FixEngine A × Ending)
  unfolding connect send_logon run_loop
  run_initiator events e =
      go_on (send_logon app accepts clock wall (connect app accepts clock wall e)) (run_loop events)

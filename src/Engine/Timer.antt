-- ===== src/Engine/Timer.antt =====
-- src/engine.rs: what the timer of the loop does when the counterparty is silent.
use fix_engine.Base.{
  Bool, Bytes, List, [], ap, arith, codes, false, length, refl, returns, some, true, ℕ, ◌++◌, ◌+◌,
  ◌-◌, ◌<◌, ◌^◌, ◌∙◌, ◌∷◌, ◌≡◌, ◌≤◌,
}
use fix_engine.Engine.{App, FixEngine, send_heartbeat, tick}
use fix_engine.Engine.Loop.{drive_timer}
use fix_engine.Engine.Sends.{outbound, after_send, send_heartbeat-accepted}
use fix_engine.Session.{
  Session, active, from_secs, check_heartbeat, disconnect, next_outbound_seq_num, on_message_sent,
  send, is_active,
}

module _ (s : Session) (now : ℕ) where
  -- The first time that the silence is noticed.
  noticed :
      s.state ≡ active
      → s.test_request_pending ≡ false
      → now - s.last_sent_time < s.config.heartbeat_interval
      → s.config.heartbeat_interval + from_secs 5 ≤ now - s.last_received_time
      → check_heartbeat s now
        ≡ (record s { test_request_pending = true; test_request_sent_time = some now }, send [])
  unfolding check_heartbeat
  noticed a p sent silent = ground arith

  given_up :
      s.state ≡ active
      → s.test_request_pending ≡ true
      → now - s.last_sent_time < s.config.heartbeat_interval
      → s.config.heartbeat_interval + from_secs 5 ≤ now - s.last_received_time
      → check_heartbeat s now ≡ (s, disconnect)
  unfolding check_heartbeat
  given_up a p sent silent = ground arith

module _ {A : Type 0} (app : App A) (accepts : List Bytes → Bytes → Bool) (clock wall : ℕ → ℕ) where
  -- The engine behind the first turn of the timer, before it sends.
  abbrev pub probing : FixEngine A → FixEngine A
  probing e =
      tick app accepts clock wall e
        λ s now. record s { test_request_pending = true; test_request_sent_time = some now }

module _ {A : Type 0} (app : App A) (accepts : List Bytes → Bytes → Bool) (clock wall : ℕ → ℕ) where
  drive_timer-send :
      (e : FixEngine A) (s : Session)
      → check_heartbeat e.ctx.session (clock e.ctx.reads) ≡ (s, send [])
      → is_active s.state ≡ true
      → drive_timer app accepts clock wall e
        ≡ send_heartbeat app accepts clock wall (tick app accepts clock wall e (λ _ _. s))
  unfolding drive_timer
  drive_timer-send e s h a = rw (h, a) refl

  drive_timer-disconnect :
      (e : FixEngine A) (s : Session)
      → check_heartbeat e.ctx.session (clock e.ctx.reads) ≡ (s, disconnect)
      → drive_timer app accepts clock wall e
        ≡ returns (record (tick app accepts clock wall e (λ _ _. s)) { should_stop = true }, true)
  unfolding drive_timer
  drive_timer-disconnect e s h = rw h refl

-- A silent counterparty, as the loop's timer treats it. The session is active, has sent within the
-- heartbeat interval, has nothing outstanding, and has heard nothing for the interval and five
-- seconds at the first turn; the heartbeat fits into the send buffer and the transport takes it; and
-- the clock does not run backwards, nor the interval pass, between the two turns. The first turn
-- sends exactly one message, a heartbeat and no test request, and lets the loop go on; the second,
-- however soon it comes, sends nothing and stops the loop.
pub dead_peer :
    {A : Type 0} (app : App A) (accepts : List Bytes → Bytes → Bool) (clock wall : ℕ → ℕ)
    (e : FixEngine A)
    → let s = e.ctx.session in
      let r = e.ctx.reads in
      let out = outbound app accepts clock wall (probing app accepts clock wall e) (codes "0") in
      s.state ≡ active
      → s.test_request_pending ≡ false
      → clock r - s.last_sent_time < s.config.heartbeat_interval
      → s.config.heartbeat_interval + from_secs 5 ≤ clock r - s.last_received_time
      → s.outbound_seq_num < 2 ^ 64
      → length out ≤ length e.send_buf
      → accepts e.ctx.sent out ≡ true
      → clock r ≤ clock (r + 3)
      → clock (r + 3) - clock (r + 2) < s.config.heartbeat_interval
      → (f : FixEngine A) × (g : FixEngine A) × (drive_timer app accepts clock wall e
          ≡ returns (f, true))
        × (f.ctx.sent ≡ e.ctx.sent ++ (out ∷ []))
        × (f.should_stop ≡ e.should_stop)
        × (drive_timer app accepts clock wall f ≡ returns (g, true))
        × (g.ctx.sent ≡ f.ctx.sent)
        × (g.should_stop ≡ true)
unfolding on_message_sent next_outbound_seq_num
dead_peer app accepts clock wall e a p sent silent small fits accepted later soon =
    let r = e.ctx.reads in
    let two : r + 1 + 1 ≡ r + 2 = omega arith in
    let three : r + 1 + 1 + 1 ≡ r + 3 = omega arith in
    let probe = probing app accepts clock wall e in
    let f =
      tick app accepts clock wall
        (after_send app accepts clock wall probe
          (outbound app accepts clock wall probe (codes "0")))
        on_message_sent in
    (
      f,
      record (tick app accepts clock wall f (λ s now. s)) { should_stop = true },
      drive_timer-send app accepts clock wall e probe.ctx.session
            (noticed e.ctx.session (clock r) a p sent silent) (ap is_active a)
          ∙ send_heartbeat-accepted app accepts clock wall probe small fits accepted,
      refl,
      refl,
      drive_timer-disconnect app accepts clock wall f f.ctx.session (
          given_up f.ctx.session (clock f.ctx.reads) a refl (rw (three, two) soon)
            (rw three (omega arith))),
      refl,
      refl,
    )

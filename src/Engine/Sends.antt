-- ===== src/Engine/Sends.antt =====
-- src/engine.rs: what the engine puts on the wire, and what it does with session messages.
use fix_engine.Serializer.Builders.{build_heartbeat_lem, build_logout_lem}
use fix_engine.Base.{
  Bool, Bool-cases, Bytes, List, [], ap, bytes_eq, codes, drop, if◌then◌else◌, inl, inr, length,
  le→leb, refl, returns, slice-append, true, ℕ, ◌%◌, ◌++◌, ◌+◌, ◌<◌, ◌>>=◌, ◌^◌, ◌∙◌, ◌∷◌, ◌≡◌, ◌≤◌,
}
use fix_engine.Decimal.{decimal}
use fix_engine.Engine.{
  App, FixEngine, numbered, now_timestamp, transport_send, dispatch, send_heartbeat, send_logout,
  tick, on_logout_message, write_logout, and_then, with_session, is_logout_sent,
}
use fix_engine.Serializer.Contract.{serialized}
use fix_engine.Serializer.Finalize.{message}
use fix_engine.Serializer.Writers.{field, wire}
use fix_engine.Message.{MessageView}
use fix_engine.Session.{
  next_outbound_seq_num, on_message_sent, on_disconnected, on_logout_sent, disconnected,
}

module _ {A : Type 0} (app : App A) (accepts : List Bytes → Bytes → Bool) (clock wall : ℕ → ℕ) where
  -- The message of a type with the engine's header: the comp ids of the configuration, the next
  -- outbound number and the time.
  abbrev pub outbound : FixEngine A → Bytes → Bytes
  outbound e msg_type =
      let c = e.ctx.session.config in
      message c.fix_version (
        field 35 msg_type
        ++ wire (
            (49, c.sender_comp_id)
            ∷ (56, c.target_comp_id)
            ∷ (34, decimal e.ctx.session.outbound_seq_num)
            ∷ (52, now_timestamp app accepts clock wall e)
            ∷ []))

  -- The engine behind a message that went out, before its clock is read again.
  abbrev pub after_send : FixEngine A → Bytes → FixEngine A
  after_send e out = record e {
    ctx = record e.ctx {
      session = (next_outbound_seq_num e.ctx.session).0;
      sent = e.ctx.sent ++ (out ∷ []);
      reads = e.ctx.reads + 1;
    };
    send_buf = out ++ drop (length out) e.send_buf;
  }

  transport_send-accepts :
      (e : FixEngine A) (out rest : Bytes)
      → accepts e.ctx.sent out ≡ true
      → transport_send app accepts clock wall e (out ++ rest, length out)
        ≡ returns (
          record e {
            ctx = record e.ctx { sent = e.ctx.sent ++ (out ∷ []) };
            send_buf = out ++ rest;
          },
          true,
        )
  unfolding transport_send
  transport_send-accepts e out rest accepted =
      rw (slice-append [] out rest 0 (length out) refl refl, accepted) refl

  pub serialized-fits :
      (buffer begin_string msg_type tail : Bytes)
      → length (message begin_string (field 35 msg_type ++ tail)) ≤ length buffer
      → serialized buffer begin_string msg_type tail
        ≡ returns (
          message begin_string (field 35 msg_type ++ tail)
              ++ drop (length (message begin_string (field 35 msg_type ++ tail))) buffer,
          length (message begin_string (field 35 msg_type ++ tail)),
        )
  unfolding serialized
  serialized-fits buffer begin_string msg_type tail fits =
      rw (le→leb (length (message begin_string (field 35 msg_type ++ tail))) (length buffer) fits)
        refl

  -- `serialized` and `transport.send`: the message goes out.
  pub goes_out :
      (e : FixEngine A) (begin_string msg_type tail : Bytes)
      → let out = message begin_string (field 35 msg_type ++ tail) in
        length out ≤ length e.send_buf
        → accepts e.ctx.sent out ≡ true
        → (serialized e.send_buf begin_string msg_type tail
            >>= transport_send app accepts clock wall (numbered app accepts clock wall e))
          ≡ returns (after_send e out, true)
  unfolding numbered
  goes_out e begin_string msg_type tail fits accepted =
      let out = message begin_string (field 35 msg_type ++ tail) in
      ap (λ m. m >>= transport_send app accepts clock wall (numbered app accepts clock wall e))
        (serialized-fits e.send_buf begin_string msg_type tail fits)
      ∙ transport_send-accepts (numbered app accepts clock wall e) out
          (drop (length out) e.send_buf) accepted

  pub send_heartbeat-accepted :
      (e : FixEngine A)
      → e.ctx.session.outbound_seq_num < 2 ^ 64
      → length (outbound e (codes "0")) ≤ length e.send_buf
      → accepts e.ctx.sent (outbound e (codes "0")) ≡ true
      → send_heartbeat app accepts clock wall e
        ≡ returns (
          tick app accepts clock wall (after_send e (outbound e (codes "0"))) on_message_sent,
          true,
        )
  unfolding send_heartbeat
  send_heartbeat-accepted e small fits accepted =
      let c = e.ctx.session.config in
      ap (λ m. and_then m (λ f. returns (tick app accepts clock wall f on_message_sent, true)))
        (ap (λ m. m >>= transport_send app accepts clock wall (numbered app accepts clock wall e))
            (build_heartbeat_lem e.send_buf c.fix_version c.sender_comp_id c.target_comp_id
              e.ctx.session.outbound_seq_num (now_timestamp app accepts clock wall e) small)
          ∙ goes_out e c.fix_version (codes "0") _ fits accepted)

  send_logout-accepted :
      (e : FixEngine A)
      → e.ctx.session.outbound_seq_num < 2 ^ 64
      → length (outbound e (codes "5")) ≤ length e.send_buf
      → accepts e.ctx.sent (outbound e (codes "5")) ≡ true
      → send_logout app accepts clock wall e
        ≡ returns (
          tick app accepts clock wall
              (with_session app accepts clock wall
                (after_send e (outbound e (codes "5")))
                on_logout_sent)
              on_message_sent,
          true,
        )
  unfolding send_logout write_logout
  send_logout-accepted e small fits accepted =
      let c = e.ctx.session.config in
      ap
        (λ m. and_then m (λ f. returns (
          tick app accepts clock wall (with_session app accepts clock wall f on_logout_sent)
              on_message_sent,
          true,
        )))
        (ap (λ m. m >>= transport_send app accepts clock wall (numbered app accepts clock wall e))
            (build_logout_lem e.send_buf c.fix_version c.sender_comp_id c.target_comp_id
              e.ctx.session.outbound_seq_num (now_timestamp app accepts clock wall e) small)
          ∙ goes_out e c.fix_version (codes "5") _ fits accepted)

-- A test request is answered: with the next outbound number below 2 ^ 64, a heartbeat that fits into
-- the send buffer and a transport that accepts it, exactly this heartbeat goes out, behind what was
-- sent before, the next number is one further, modulo 2 ^ 64, and the state and the flag that stops
-- the loop stay.
pub dispatch-test_request :
    {A : Type 0} (app : App A) (accepts : List Bytes → Bytes → Bool) (clock wall : ℕ → ℕ)
    (view : MessageView) (e : FixEngine A)
    → e.ctx.session.outbound_seq_num < 2 ^ 64
    → length (outbound app accepts clock wall e (codes "0")) ≤ length e.send_buf
    → accepts e.ctx.sent (outbound app accepts clock wall e (codes "0")) ≡ true
    → (f : FixEngine A) × (dispatch app accepts clock wall (codes "1") view e ≡ returns (f, true))
      × (f.ctx.sent ≡ e.ctx.sent ++ (outbound app accepts clock wall e (codes "0") ∷ []))
      × (f.ctx.session.outbound_seq_num ≡ (e.ctx.session.outbound_seq_num + 1) % 2 ^ 64)
      × (f.ctx.session.state ≡ e.ctx.session.state)
      × (f.should_stop ≡ e.should_stop)
unfolding dispatch bytes_eq on_message_sent next_outbound_seq_num
dispatch-test_request app accepts clock wall view e small fits accepted = (
  _,
  send_heartbeat-accepted app accepts clock wall e small fits accepted,
  refl,
  refl,
  refl,
  refl,
)

-- A logout that the application's callback lets pass ends the session: it is disconnected and the
-- loop stops. Where the session's state is not `logout_sent` (with the next outbound number below
-- 2 ^ 64, a logout that fits into the send buffer and a transport that accepts it) exactly this
-- logout goes out; where it is, nothing does, also when a callback's `request_stop` has set that
-- state and no logout was sent yet.
pub dispatch-logout :
    {A : Type 0} (app : App A) (accepts : List Bytes → Bytes → Bool) (clock wall : ℕ → ℕ)
    (view : MessageView) (e : FixEngine A)
    → (app.on_logout_app e.app).1 ≡ true
    → e.ctx.session.outbound_seq_num < 2 ^ 64
    → length (outbound app accepts clock wall e (codes "5")) ≤ length e.send_buf
    → accepts e.ctx.sent (outbound app accepts clock wall e (codes "5")) ≡ true
    → (f : FixEngine A) × (dispatch app accepts clock wall (codes "5") view e ≡ returns (f, true))
      × (f.ctx.sent ≡ (
          if is_logout_sent e.ctx.session.state
          then e.ctx.sent
          else e.ctx.sent ++ (outbound app accepts clock wall e (codes "5") ∷ [])))
      × (f.ctx.session.state ≡ disconnected)
      × (f.should_stop ≡ true)
unfolding dispatch bytes_eq on_logout_message on_disconnected now_timestamp
dispatch-logout {A} app accepts clock wall view e done small fits accepted =
    let called : FixEngine A = record e { app = (app.on_logout_app e.app).0 } in
    let stopped : FixEngine A → FixEngine A =
      λ f. record (with_session app accepts clock wall f on_disconnected) { should_stop = true } in
    let out = outbound app accepts clock wall e (codes "5") in
    elim (Bool-cases (is_logout_sent e.ctx.session.state)) [
      | inl k ↦ (stopped called, rw (done, k) refl, rw k refl, refl, refl)
      | inr k ↦ (
        stopped (
            tick app accepts clock wall
              (with_session app accepts clock wall (after_send app accepts clock wall called out)
                on_logout_sent)
              on_message_sent),
        rw (done, k)
            (ap (λ m. and_then m (λ f. returns (stopped f, true)))
              (send_logout-accepted app accepts clock wall called small fits accepted)),
        rw k refl,
        refl,
        refl,
      )
    ]

-- ===== src/Engine/Keeps.antt =====
-- src/engine.rs: the calls behind a message leave the receive buffer as it is.
use fix_engine.Base.{
  Bool, Bool-cases, Bytes, List, Option, Outcome, Result, err, false, if◌then◌else◌, inl, inr, none,
  ok, panics, refl, returns, slice, some, true, ℕ, ◌/◌, ◌>>=◌, ◌∙◌, ◌≡◌,
}
use fix_engine.Message.{MessageView, msg_seq_num, msg_type}
use fix_engine.Engine.{
  App, FixEngine, and_then, connect, dispatch, numbered, on_application_message, on_logon_message,
  on_logout_message, send_heartbeat, send_logon, send_logout, call_on_logon, tick, transport_send,
  with_session, write_logout, is_logon_sent, is_logout_sent,
}
use fix_engine.Engine.Loop.{validated, dispatched, handled, handle_view}
use fix_engine.Parser
use mathlib.Core.Path.{subst}
use fix_engine.Engine.{now_timestamp}
use fix_engine.Serializer.Build.{build_heartbeat, build_logon, build_logout}
use fix_engine.Session.{
  on_logon, on_message_received, on_message_sent, on_logout_sent, is_disconnected,
  next_outbound_seq_num,
}

-- Where a call returns, the receive buffer is `r`.
pub data Keeps {A : Type 0} (r : Bytes) : Outcome (FixEngine A × Bool) → Type 0 where
  kept : {f : FixEngine A} {b : Bool} → f.recv ≡ r → Keeps r (returns (f, b))
  gone : Keeps r panics

Keeps-bind :
    {A B : Type 0} (r : Bytes) (m : Outcome B) {k : B → Outcome (FixEngine A × Bool)}
    → ((b : B) → Keeps r (k b))
    → Keeps r (m >>= k)
Keeps-bind r (returns b) h = h b
Keeps-bind r panics h = gone

Keeps-and_then :
    {A : Type 0} {r : Bytes} {m : Outcome (FixEngine A × Bool)}
    {k : FixEngine A → Outcome (FixEngine A × Bool)}
    → Keeps r m
    → ((f : FixEngine A) → f.recv ≡ r → Keeps r (k f))
    → Keeps r (and_then m k)
Keeps-and_then (kept {f = f} {b = true} h) g = g f h
Keeps-and_then (kept {b = false} h) g = kept h
Keeps-and_then gone g = gone

Keeps-if :
    {A : Type 0} {r : Bytes} (b : Bool) {m n : Outcome (FixEngine A × Bool)}
    → Keeps r m
    → Keeps r n
    → Keeps r (if b then m else n)
Keeps-if true h k = h
Keeps-if false h k = k

module _ {A : Type 0} (app : App A) (accepts : List Bytes → Bytes → Bool) (clock wall : ℕ → ℕ) where
  transport_send-Keeps :
      (e : FixEngine A) (p : Bytes × ℕ) → Keeps e.recv (transport_send app accepts clock wall e p)
  unfolding transport_send
  transport_send-Keeps e (buffer, len) = Keeps-bind e.recv (slice buffer 0 len) λ out.
      elim (Bool-cases (accepts e.ctx.sent out)) [
        | inl h ↦ rw h (kept refl)
        | inr h ↦ rw h (kept refl)
      ]

  sends-Keeps :
      (e : FixEngine A) (m : Outcome (Bytes × ℕ)) (g : FixEngine A → FixEngine A)
      → ((f : FixEngine A) → (g f).recv ≡ f.recv)
      → Keeps e.recv (
          and_then
            (m >>= transport_send app accepts clock wall (numbered app accepts clock wall e))
            (λ f. returns (g f, true)))
  unfolding numbered
  sends-Keeps e m g same =
      Keeps-and_then {k = λ f. returns (g f, true)}
        (Keeps-bind e.recv m (transport_send-Keeps (numbered app accepts clock wall e)))
        (λ f h. kept (same f ∙ h))

  send_heartbeat-Keeps : (e : FixEngine A) → Keeps e.recv (send_heartbeat app accepts clock wall e)
  unfolding send_heartbeat
  send_heartbeat-Keeps e =
      let c = e.ctx.session.config in
      sends-Keeps e
        (build_heartbeat e.send_buf c.fix_version c.sender_comp_id c.target_comp_id
          (next_outbound_seq_num e.ctx.session).1 (now_timestamp app accepts clock wall e))
        (λ f. tick app accepts clock wall f on_message_sent) (λ f. refl)

  send_logon-Keeps : (e : FixEngine A) → Keeps e.recv (send_logon app accepts clock wall e)
  unfolding send_logon
  send_logon-Keeps e =
      let c = e.ctx.session.config in
      sends-Keeps e
        (build_logon e.send_buf c.fix_version c.sender_comp_id c.target_comp_id
          (next_outbound_seq_num e.ctx.session).1 (now_timestamp app accepts clock wall e)
          (c.heartbeat_interval / 1_000_000_000))
        (λ f. tick app accepts clock wall f on_message_sent) (λ f. refl)

  send_logout-Keeps : (e : FixEngine A) → Keeps e.recv (send_logout app accepts clock wall e)
  unfolding send_logout write_logout
  send_logout-Keeps e =
      let c = e.ctx.session.config in
      sends-Keeps e
        (build_logout e.send_buf c.fix_version c.sender_comp_id c.target_comp_id
          (next_outbound_seq_num e.ctx.session).1 (now_timestamp app accepts clock wall e))
        (λ f.
          tick app accepts clock wall (with_session app accepts clock wall f on_logout_sent)
            on_message_sent)
        (λ f. refl)

  connect_if : FixEngine A → Bool → FixEngine A
  connect_if e b = if b then connect app accepts clock wall e else e

  connect_if-recv : (e : FixEngine A) (b : Bool) → (connect_if e b).recv ≡ e.recv
  unfolding connect_if connect
  connect_if-recv e true = refl
  connect_if-recv e false = refl

  on_logon_message-Keeps :
      (e : FixEngine A) → Keeps e.recv (on_logon_message app accepts clock wall e)
  unfolding on_logon_message call_on_logon connect_if
  on_logon_message-Keeps e =
      let up = connect_if e (is_disconnected e.ctx.session.state) in
      let same : up.recv ≡ e.recv = connect_if-recv e (is_disconnected e.ctx.session.state) in
      let logged = tick app accepts clock wall up on_logon in
      Keeps-if _
        (Keeps-and_then
          (subst (λ r. Keeps r (send_logon app accepts clock wall logged)) same
            (send_logon-Keeps logged))
          (λ f h. kept h))
        (Keeps-if (is_logon_sent e.ctx.session.state) (kept refl) (kept refl))

  on_logout_message-Keeps :
      (e : FixEngine A) → Keeps e.recv (on_logout_message app accepts clock wall e)
  unfolding on_logout_message
  on_logout_message-Keeps e =
      let called : FixEngine A = record e { app = (app.on_logout_app e.app).0 } in
      Keeps-if _ (kept refl) (
        Keeps-if (is_logout_sent e.ctx.session.state) (kept refl)
          (Keeps-and_then (send_logout-Keeps called) (λ f h. kept h)))

  dispatch-Keeps :
      (t : Bytes) (view : MessageView) (e : FixEngine A)
      → Keeps e.recv (dispatch app accepts clock wall t view e)
  unfolding dispatch on_application_message
  dispatch-Keeps t view e = Keeps-if _ (on_logon_message-Keeps e) (
      Keeps-if _ (kept refl)
        (Keeps-if _ (send_heartbeat-Keeps e) (Keeps-if _ (on_logout_message-Keeps e) (kept refl))))

  validated-recv :
      (e : FixEngine A) (seq : Option ℕ) → (validated app accepts clock wall e seq).recv ≡ e.recv
  unfolding validated
  validated-recv e none = refl
  validated-recv e (some seq) = refl

  dispatched-Keeps :
      (view : MessageView) (e : FixEngine A) (t : Option Bytes)
      → Keeps e.recv (dispatched app accepts clock wall view t e)
  unfolding dispatched
  dispatched-Keeps view e none = kept refl
  dispatched-Keeps view e (some t) = dispatch-Keeps t view e

  handle_view-Keeps :
      (view : MessageView) (e : FixEngine A)
      → Keeps e.recv (handle_view app accepts clock wall view e)
  unfolding handle_view
  handle_view-Keeps view e = Keeps-bind e.recv (msg_seq_num view) λ seq.
      Keeps-bind e.recv (msg_type view) λ t.
        let heard = tick app accepts clock wall e on_message_received in
        subst
          (λ r.
            Keeps r (
              dispatched app accepts clock wall view t
                (validated app accepts clock wall heard seq)))
          (validated-recv heard seq)
          (dispatched-Keeps view (validated app accepts clock wall heard seq) t)

  pub handled-Keeps :
      (e : FixEngine A) (r : Result (MessageView × ℕ) Parser.ParseError)
      → Keeps e.recv (handled app accepts clock wall e r)
  unfolding handled
  handled-Keeps e (err _) = kept refl
  handled-Keeps e (ok (view, _)) = handle_view-Keeps view e

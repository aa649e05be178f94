-- ===== src/Server/Start.antt =====
-- src/server.rs: the engine that answers the Logon of a connection, and the message behind it.
use fix_engine.Base.{
  ap, arith, codes, drop, false, length, refl, returns, slice-append, some, true, ◌++◌, ◌/◌, ◌<◌,
  ◌>>=◌, ◌^◌, ◌∙◌, ◌∷◌, ◌≡◌, ◌≤◌,
}
use fix_engine.Serializer.Finalize.{message}
use fix_engine.Serializer.Writers.{field, wire}
use fix_engine.Decimal.{decimal}
use fix_engine.Serializer.Builders.{build_logon_lem}
use fix_engine.Engine.{
  App, FixEngine, numbered, now_timestamp, transport_send, send_logon, tick, connect, and_then,
  new_initiator, handle_inbound_logon,
}
use fix_engine.Engine.Sends.{after_send, goes_out, serialized-fits}
use fix_engine.Engine.Loop.{validated}
use fix_engine.Message.Numbers.{signed_decimal}
use fix_engine.Session
use fix_engine.Session.{
  active, resending, on_connected, on_logon, on_message_sent, validate_inbound_seq,
  next_outbound_seq_num,
}
use fix_engine.Server.{FixServerConfig, session_config, start_engine, List, Bytes, Bool, ℕ, []}

module _ {A : Type 0} (app : App A) (accepts : List Bytes → Bytes → Bool) (clock wall : ℕ → ℕ) where
  -- The Logon with the engine's header.
  abbrev pub logon_reply : FixEngine A → Bytes
  logon_reply e =
      let c = e.ctx.session.config in
      message c.fix_version (
        field 35 (codes "A")
        ++ wire (
            (49, c.sender_comp_id)
            ∷ (56, c.target_comp_id)
            ∷ (34, decimal e.ctx.session.outbound_seq_num)
            ∷ (52, now_timestamp app accepts clock wall e)
            ∷ (98, signed_decimal 0)
            ∷ (108, signed_decimal (c.heartbeat_interval / 1_000_000_000))
            ∷ []))

  transport_send-refuses :
      (e : FixEngine A) (out rest : Bytes)
      → accepts e.ctx.sent out ≡ false
      → transport_send app accepts clock wall e (out ++ rest, length out)
        ≡ returns (record e { send_buf = out ++ rest }, false)
  unfolding transport_send
  transport_send-refuses e out rest refused =
      rw (slice-append [] out rest 0 (length out) refl refl, refused) refl

  -- The transport refuses the Logon.
  pub send_logon-refused :
      (e : FixEngine A)
      → e.ctx.session.outbound_seq_num < 2 ^ 64
      → e.ctx.session.config.heartbeat_interval / 1_000_000_000 < 2 ^ 64
      → length (logon_reply e) ≤ length e.send_buf
      → accepts e.ctx.sent (logon_reply e) ≡ false
      → (f : FixEngine A) × (send_logon app accepts clock wall e ≡ returns (f, false))
  unfolding send_logon
  send_logon-refused e small interval fits refused =
      let c = e.ctx.session.config in
      let out = logon_reply e in
      (
        record (numbered app accepts clock wall e) {
          send_buf = out ++ drop (length out) e.send_buf;
        },
        ap (λ m. and_then m (λ f. returns (tick app accepts clock wall f on_message_sent, true)))
            (ap
                (λ m.
                  m >>= transport_send app accepts clock wall (numbered app accepts clock wall e))
                (build_logon_lem e.send_buf c.fix_version c.sender_comp_id c.target_comp_id
                    e.ctx.session.outbound_seq_num (now_timestamp app accepts clock wall e)
                    (c.heartbeat_interval / 1_000_000_000) small interval
                  ∙ serialized-fits app accepts clock wall e.send_buf c.fix_version (codes "A") _
                      fits)
              ∙ transport_send-refuses (numbered app accepts clock wall e) out
                  (drop (length out) e.send_buf) refused),
      )

  pub send_logon-accepted :
      (e : FixEngine A)
      → e.ctx.session.outbound_seq_num < 2 ^ 64
      → e.ctx.session.config.heartbeat_interval / 1_000_000_000 < 2 ^ 64
      → length (logon_reply e) ≤ length e.send_buf
      → accepts e.ctx.sent (logon_reply e) ≡ true
      → send_logon app accepts clock wall e
        ≡ returns (
          tick app accepts clock wall
              (after_send app accepts clock wall e (logon_reply e))
              on_message_sent,
          true,
        )
  unfolding send_logon
  send_logon-accepted e small interval fits accepted =
      let c = e.ctx.session.config in
      ap (λ m. and_then m (λ f. returns (tick app accepts clock wall f on_message_sent, true)))
        (ap (λ m. m >>= transport_send app accepts clock wall (numbered app accepts clock wall e))
            (build_logon_lem e.send_buf c.fix_version c.sender_comp_id c.target_comp_id
              e.ctx.session.outbound_seq_num (now_timestamp app accepts clock wall e)
              (c.heartbeat_interval / 1_000_000_000) small interval)
          ∙ goes_out app accepts clock wall e c.fix_version (codes "A") _ fits accepted)

  -- The engine of a connection, before its Logon is sent.
  abbrev pub ready : FixServerConfig → ℕ → Bytes → A → FixEngine A
  ready config conn_id comp_id state =
      tick app accepts clock wall
        (connect app accepts clock wall (
          new_initiator
            (record {
              session = Session.new (session_config config conn_id comp_id) (clock 0);
              sent = [];
              reads = 1;
            })
            state))
        on_logon

-- The server answers the Logon that it read with exactly one Logon, numbered 1, where that fits into
-- the send buffer and the transport takes it: the session is active. But the Logon that was read is
-- not counted: number 1 is still the next that the session expects, and any later number, as the 2
-- of a counterparty that goes on behind its Logon, is a gap.
pub start_engine-gap :
    (is_utf8 : Bytes → Bool) {A : Type 0} (app : App A) (accepts : List Bytes → Bytes → Bool)
    (clock wall : ℕ → ℕ) (config : FixServerConfig) (conn_id : ℕ) (comp_id : Bytes) (state : A)
    (seq : ℕ)
    → config.heartbeat_interval / 1_000_000_000 < 2 ^ 64
    → length (
        logon_reply app accepts clock wall
          (ready app accepts clock wall config conn_id comp_id state))
      ≤ 4_096
    → accepts [] (
        logon_reply app accepts clock wall
          (ready app accepts clock wall config conn_id comp_id state))
      ≡ true
    → 1 < seq
    → (f : FixEngine A) × (start_engine is_utf8 app accepts clock wall config conn_id comp_id state
        ≡ returns (f, true))
      × (f.ctx.sent
          ≡ logon_reply app accepts clock wall
              (ready app accepts clock wall config conn_id comp_id state)
            ∷ [])
      × (f.ctx.session.state ≡ active)
      × (f.ctx.session.outbound_seq_num ≡ 2)
      × (f.ctx.session.inbound_seq_num ≡ 1)
      × ((validated app accepts clock wall f (some seq)).ctx.session.state ≡ resending)
unfolding start_engine handle_inbound_logon validated validate_inbound_seq new_initiator connect
    on_connected next_outbound_seq_num on_message_sent on_logon
start_engine-gap is_utf8 app accepts clock wall config conn_id comp_id state seq interval fits
      accepted later =
    (
      _,
      send_logon-accepted app accepts clock wall
          (ready app accepts clock wall config conn_id comp_id state) (omega arith) interval fits
          accepted,
      refl,
      refl,
      refl,
      refl,
      ground arith,
    )

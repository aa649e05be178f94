-- ===== src/Engine/Tests.antt =====
-- Runs of src/engine.rs for an application that does nothing and a transport that takes everything.
use fix_engine.Base.{
  Bool, Bytes, List, [], arith, bytes_eq, codes, false, if◌then◌else◌, length, none, refl,
  replicate, returns, true, ℕ, ◌%◌, ◌++◌, ◌+◌, ◌^◌, ◌∷◌, ◌≡◌, ◌≤◌,
}
use fix_engine.Checksum.{compute, is_trailer_at}
use fix_engine.Decimal.{decimal, emit, padded}
use fix_engine.Engine.{App, FixEngine, dispatch, is_logout_sent, now_timestamp, on_logout_message}
use fix_engine.Engine.Context.{next_seq_num, request_stop, send_raw}
use fix_engine.Engine.Fuel.{process-drained}
use fix_engine.Engine.Loop.{process, drive_timer}
use fix_engine.Engine.Timer.{probing, dead_peer}
use fix_engine.Engine.Sends.{outbound, dispatch-test_request, dispatch-logout}
use fix_engine.Message
use fix_engine.Message.{MessageView}
use fix_engine.Parser.{find_message_boundary}
use fix_engine.Serializer.{checksum_field}
use fix_engine.Serializer.Finalize.{head, message}
use fix_engine.Session
use fix_engine.Session.{active, default_config, disconnected, from_secs, logout_sent}
use fix_engine.Timestamp.{to_fix_timestamp}

abbrev quiet : App (Unit {0})
quiet = record {
  on_logon_app = λ a ctx. (a, ctx, true);
  on_message_app = λ t view a ctx. (a, ctx, true);
  on_logout_app = λ a. (a, true);
}

abbrev takes_all : List Bytes → Bytes → Bool
takes_all sent out = true

abbrev still : ℕ → ℕ
still n = 0

abbrev engine : FixEngine (Unit {0})
engine = record {
  ctx = record {
    session = record (Session.new default_config 0) { state = active };
    sent = [];
    reads = 0;
  };
  recv = codes "8=FIX.4.4";
  send_buf = replicate 4_096 0;
  should_stop = false;
  app = tt;
}

abbrev view : MessageView
view = Message.new []

abbrev beat : Bytes
beat = outbound quiet takes_all still still engine (codes "0")

abbrev bye : Bytes
bye = outbound quiet takes_all still still engine (codes "5")

room : (length beat ≤ 4_096) × (length bye ≤ 4_096)
unfolding decimal emit message padded compute head checksum_field now_timestamp to_fix_timestamp
room = (omega arith, omega arith)

-- A raw message of a callback takes the next number.
raw_sent :
    (next_seq_num (send_raw takes_all still engine.ctx (codes "8=")).0 ≡ 2)
    × ((request_stop engine.ctx).session.state ≡ logout_sent)
unfolding send_raw next_seq_num request_stop
raw_sent = (refl, refl)

dispatch-test_request_example :
    (f : FixEngine (Unit {0})) × (dispatch quiet takes_all still still (codes "1") view engine
      ≡ returns (f, true))
    × (f.ctx.sent ≡ [] ++ (beat ∷ []))
    × (f.ctx.session.outbound_seq_num ≡ (1 + 1) % 2 ^ 64)
    × (f.ctx.session.state ≡ active)
    × (f.should_stop ≡ false)
dispatch-test_request_example =
    dispatch-test_request quiet takes_all still still view engine (omega arith) room.0 refl

dispatch-logout_example :
    (f : FixEngine (Unit {0})) × (dispatch quiet takes_all still still (codes "5") view engine
      ≡ returns (f, true))
    × (f.ctx.sent ≡ (if is_logout_sent active then [] else [] ++ (bye ∷ [])))
    × (f.ctx.session.state ≡ disconnected)
    × (f.should_stop ≡ true)
dispatch-logout_example =
    dispatch-logout quiet takes_all still still view engine refl (omega arith) room.1 refl

-- A logout that comes in behind a `request_stop` gets no reply, though none was sent.
unanswered :
    let stopping = record engine { ctx = request_stop engine.ctx } in
    (f : FixEngine (Unit {0})) × (dispatch quiet takes_all still still (codes "5") view stopping
      ≡ returns (f, true))
    × (f.ctx.sent ≡ [])
unfolding request_stop dispatch bytes_eq on_logout_message
unanswered = (_, refl, refl)

waiting : process quiet takes_all still still 9 engine ≡ returns (engine, true)
unfolding process find_message_boundary is_trailer_at
waiting = refl

process-drained_example : find_message_boundary (codes "8=FIX.4.4") ≡ none
process-drained_example =
    process-drained quiet takes_all still still 9 engine engine (omega arith) waiting

abbrev late : ℕ → ℕ
late n = from_secs 36 + n

abbrev silent : FixEngine (Unit {0})
silent = record engine {
  ctx = record {
    session = record (Session.new default_config 0) {
      state = active;
      last_sent_time = from_secs 10;
    };
    sent = [];
    reads = 0;
  };
}

abbrev probe : Bytes
probe = outbound quiet takes_all late still (probing quiet takes_all late still silent) (codes "0")

small_enough : length probe ≤ 4_096
unfolding decimal emit message padded compute head checksum_field now_timestamp to_fix_timestamp
small_enough = omega arith

dead_peer_example :
    (f : FixEngine (Unit {0})) × (g : FixEngine (Unit {0})) × (drive_timer quiet takes_all late
        still silent
      ≡ returns (f, true))
    × (f.ctx.sent ≡ probe ∷ [])
    × (f.should_stop ≡ false)
    × (drive_timer quiet takes_all late still f ≡ returns (g, true))
    × (g.ctx.sent ≡ f.ctx.sent)
    × (g.should_stop ≡ true)
dead_peer_example =
    dead_peer quiet takes_all late still silent refl refl (omega arith) (omega arith) (omega arith)
      small_enough refl (omega arith) (omega arith)

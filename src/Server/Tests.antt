-- ===== src/Server/Tests.antt =====
-- Runs of src/server.rs and src/client.rs for an application that does nothing.
use fix_engine.Parser.{
  parse_fields, scan_tag, scan_value, stated_length, check_structure, take_field,
  find_checksum_tag_start, body_length_wrong, finish,
}
use fix_engine.Checksum.{validate}
use fix_engine.Message.{get_field, add_field, msg_type, set_checksum_valid}
use fix_engine.Acceptor.{find_by_comp_id, accept_connection}
use fix_engine.Acceptor.Pool.{already_connected}
use fix_engine.Server.{engine_failed, handle_connection, ended}
use fix_engine.Engine.{connect, new_initiator}
use fix_engine.Session.{on_connected, on_logon}
use fix_engine.Base.{
  Bool, Bytes, List, [], arith, bytes_eq, codes, drop, err, false, length, none, ok, refl, returns,
  some, true, ℕ, ◌++◌, ◌+◌, ◌∷◌, ◌≡◌, ◌≤◌,
}
use fix_engine.Message.Numbers.{signed_decimal}
use fix_engine.Checksum.{compute, is_trailer_at}
use fix_engine.Decimal.{decimal, emit, padded}
use fix_engine.Engine.{now_timestamp}
use fix_engine.Server.Start.{send_logon-accepted}
use fix_engine.Engine.Sends.{after_send}
use fix_engine.Engine.{tick, handle_inbound_logon}
use fix_engine.Session.{on_message_sent, next_outbound_seq_num}
use fix_engine.Engine.Loop.{run_loop, validated, finished, waiting, drive_timer, on_event}
use fix_engine.Engine.{closed}
use fix_engine.Session.{on_disconnected, check_heartbeat}
use fix_engine.Serializer.{checksum_field}
use fix_engine.Serializer.Finalize.{head}
use fix_engine.Timestamp.{to_fix_timestamp}
use fix_engine.Session.{active, resending}
use fix_engine.Acceptor
use fix_engine.Acceptor.{Acceptor}
use fix_engine.Engine.{App, FixEngine}
use fix_engine.Serializer.Finalize.{message}
use fix_engine.Serializer.Writers.{field, wire}
use fix_engine.Server.{
  FixServerConfig, default_server, acceptor_config, read_logon, start_engine, not_logon,
  closed_before_logon,
}
use fix_engine.Server.Start.{logon_reply, ready, start_engine-gap}
use fix_engine.Server.Leak.{handle_connection-held, handle_connection-released}

abbrev quiet : App (Unit {0})
quiet = record {
  on_logon_app = λ a ctx. (a, ctx, true);
  on_message_app = λ t view a ctx. (a, ctx, true);
  on_logout_app = λ a. (a, true);
}

abbrev answering : Bool → List Bytes → Bytes → Bool
answering b sent out = b

abbrev ascii : Bytes → Bool
ascii v = true

abbrev still : ℕ → ℕ
still n = 0

abbrev config : FixServerConfig
config = record default_server { connection_pool_size = 2 }

abbrev acceptor : Acceptor
acceptor = Acceptor.new (acceptor_config config)

abbrev first_message : Bytes → Bytes
first_message t = message (codes "FIX.4.4") (field 35 t ++ wire ((49, codes "BUY") ∷ []))

abbrev buy : FixEngine (Unit {0})
buy = ready quiet (answering true) still still config 2 (codes "BUY") tt

-- A Logon in two reads names its sender.
logon_read :
    read_logon ascii (some (codes "8=FIX.4.4") ∷ some (drop 9 (first_message (codes "A"))) ∷ []) []
    ≡ returns (ok (codes "BUY"))
unfolding read_logon parse_fields scan_tag scan_value stated_length check_structure take_field
    find_checksum_tag_start body_length_wrong finish validate get_field add_field msg_type
    set_checksum_valid bytes_eq decimal emit message padded compute head checksum_field
    is_trailer_at
logon_read = refl

heartbeat_read :
    read_logon ascii (some (first_message (codes "0")) ∷ []) []
    ≡ returns (err (not_logon (codes "0")))
unfolding read_logon parse_fields scan_tag scan_value stated_length check_structure take_field
    find_checksum_tag_start body_length_wrong finish validate get_field add_field msg_type
    set_checksum_valid bytes_eq decimal emit message padded compute head checksum_field
    is_trailer_at
heartbeat_read = refl

closed_read :
    read_logon ascii (some (codes "8=FIX.4.4") ∷ some [] ∷ []) []
    ≡ returns (err closed_before_logon)
unfolding read_logon is_trailer_at
closed_read = refl

room : length (logon_reply quiet (answering true) still still buy) ≤ 4_096
unfolding decimal emit message padded compute head checksum_field now_timestamp to_fix_timestamp
    connect new_initiator on_connected on_logon signed_decimal
room = omega arith

start_engine-gap_example :
    (f : FixEngine (Unit {0})) × (start_engine ascii quiet
        (answering true)
        still
        still
        config
        2
        (codes "BUY")
        tt
      ≡ returns (f, true))
    × (f.ctx.sent ≡ logon_reply quiet (answering true) still still buy ∷ [])
    × (f.ctx.session.state ≡ active)
    × (f.ctx.session.outbound_seq_num ≡ 2)
    × (f.ctx.session.inbound_seq_num ≡ 1)
    × ((validated quiet (answering true) still still f (some 2)).ctx.session.state ≡ resending)
start_engine-gap_example =
    start_engine-gap ascii quiet (answering true) still still config 2 (codes "BUY") tt 2
      (omega arith) room refl (omega arith)

logon_alone :
    read_logon ascii (some (first_message (codes "A")) ∷ []) [] ≡ returns (ok (codes "BUY"))
unfolding read_logon parse_fields scan_tag scan_value stated_length check_structure take_field
    find_checksum_tag_start body_length_wrong finish validate get_field add_field msg_type
    set_checksum_valid bytes_eq decimal emit message padded compute head checksum_field
    is_trailer_at
logon_alone = refl

admitted_first :
    (accept_connection acceptor (codes "10.0.0.1") (codes "BUY") 5 0).1 ≡ ok acceptor.next_conn_id
admitted_first = unfold accept_connection Acceptor.new in refl

handle_connection-held_example :
    (left : Acceptor) × (handle_connection ascii quiet
        (answering false)
        still
        still
        config
        (λ a. a)
        (some (first_message (codes "A")) ∷ [])
        true
        []
        tt
        acceptor
        (codes "10.0.0.1")
        5
      ≡ returns (left, ended (err engine_failed)))
    × (find_by_comp_id left (codes "BUY") ≡ some 2)
    × ((accept_connection left (codes "10.0.0.2") (codes "BUY") 7 8).1
        ≡ err (already_connected (codes "BUY")))
unfolding Acceptor.new connect now_timestamp
handle_connection-held_example =
    handle_connection-held ascii quiet (answering false) still still config (λ a. a)
      (some (first_message (codes "A")) ∷ []) [] tt acceptor (codes "10.0.0.1") (codes "BUY") 5
      (codes "10.0.0.2") 7 8 logon_alone admitted_first (omega arith) room refl

-- The engine of the thread, behind its Logon.
abbrev served : FixEngine (Unit {0})
served =
    tick quiet (answering true) still still
      (after_send quiet (answering true) still still buy
        (logon_reply quiet (answering true) still still buy))
      on_message_sent

answered :
    start_engine ascii quiet
      (answering true)
      still
      still
      config
      acceptor.next_conn_id
      (codes "BUY")
      tt
    ≡ returns (served, true)
unfolding Acceptor.new start_engine handle_inbound_logon
answered =
    send_logon-accepted quiet (answering true) still still buy
      (unfold connect new_initiator on_connected on_logon in omega arith)
      (unfold connect new_initiator on_connected on_logon in omega arith) room refl

-- The engine of the thread, when the transport has closed.
abbrev closed_down : FixEngine (Unit {0})
closed_down = record served {
  ctx = record served.ctx {
    session = on_disconnected served.ctx.session;
    reads = served.ctx.reads + 1;
  };
  should_stop = true;
}

-- Without more from the transport, the loop waits and the thread runs on.
still_running : run_loop quiet (answering true) still still [] served ≡ returns (served, waiting)
unfolding run_loop connect new_initiator
still_running = refl

loop_ended :
    run_loop quiet (answering true) still still (closed ∷ []) served
    ≡ returns (closed_down, finished)
unfolding run_loop drive_timer on_event check_heartbeat on_disconnected connect new_initiator
    on_connected on_logon on_message_sent next_outbound_seq_num
loop_ended = refl

handle_connection-released_example :
    (left : Acceptor) × (handle_connection ascii quiet
        (answering true)
        still
        still
        config
        (λ a. a)
        (some (first_message (codes "A")) ∷ [])
        true
        (closed ∷ [])
        tt
        acceptor
        (codes "10.0.0.1")
        5
      ≡ returns (left, ended (ok tt)))
    × (find_by_comp_id left (codes "BUY") ≡ none)
handle_connection-released_example =
    handle_connection-released ascii quiet (answering true) still still config
      (some (first_message (codes "A")) ∷ []) (closed ∷ []) tt acceptor (codes "10.0.0.1")
      (codes "BUY") 5 {f = served} {g = closed_down} {end = finished} logon_alone admitted_first
      (unfold Acceptor.new in (refl, (refl, tt))) answered loop_ended

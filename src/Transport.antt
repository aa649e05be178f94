-- ===== src/Transport.antt =====
-- src/transport.rs and src/transport_aeron.rs: the configuration of a transport, the stub of a kernel
-- socket, and the endpoints of the process-wide buses.
-- The registry of buses is a map from channels; the shared pointer of an endpoint to its bus is the
-- channel, since a channel gets one bus, which is never removed.
pub mod KernelTcp
pub mod Fifo
pub mod Tests
use fix_engine.Base.{
  Bool, Bytes, List, Option, Result, [], bytes_eq, codes, err, false, if◌then◌else◌, length, ltb,
  none, ok, some, true, ℕ, ◌%◌, ◌&&◌, ◌++◌, ◌+◌, ◌==◌, ◌^◌, ◌∷◌,
}
use fix_engine.Decimal.{decimal}

pub data TransportMode : Type 0 where
  aeron kernel_tcp dpdk open_onload : TransportMode

pub record TransportConfig : Type 0 where
  pub mode : TransportMode
  pub bind_address : Option Bytes
  pub connect_address : Option Bytes
  pub port : ℕ
  pub recv_buffer_size : ℕ
  pub send_buffer_size : ℕ
  pub tcp_nodelay : Bool
  pub aeron_channel : Option Bytes
  pub aeron_stream_id : ℕ

abbrev pub default_config : TransportConfig
default_config = record {
  mode = aeron;
  bind_address = none;
  connect_address = none;
  port = 0;
  recv_buffer_size = 262_144;
  send_buffer_size = 262_144;
  tcp_nodelay = true;
  aeron_channel = some (codes "aeron:ipc");
  aeron_stream_id = 1_001;
}

abbrev pub aeron_ipc : ℕ → TransportConfig
aeron_ipc stream_id = record default_config { aeron_stream_id = stream_id }

abbrev pub kernel_tcp_config : TransportConfig
kernel_tcp_config = record default_config { mode = kernel_tcp }

-- The kinds of `io::Error` that a transport makes.
pub data IoError : Type 0 where
  not_connected invalid_input unsupported : IoError

pub data TransportEvent : Type 0 where
  data_received : ℕ → TransportEvent

pub record ChannelKey : Type 0 where
  pub channel : Bytes
  pub stream_id : ℕ

abbrev pub key_eq : ChannelKey → ChannelKey → Bool
key_eq a b = bytes_eq a.channel b.channel && (a.stream_id == b.stream_id)

pub record AeronFrame : Type 0 where
  pub sender_id : ℕ
  pub payload : Bytes

abbrev pub Frames : Type 0
Frames = List AeronFrame

abbrev pub Registry : Type 0
Registry = ChannelKey → Option Frames

-- The statics: `BUS_REGISTRY` and `NEXT_ENDPOINT_ID`.
pub record Statics : Type 0 where
  pub registry : Registry
  pub next_endpoint_id : ℕ

abbrev pub put : Statics → ChannelKey → Frames → Statics
put w key frames = record w { registry = λ k. if key_eq k key then some frames else w.registry k }

pub record AeronTransport : Type 0 where
  pub endpoint_id : ℕ
  pub connected : Bool
  pub config : TransportConfig
  pub bus : Option ChannelKey

unfoldable pub new : Statics → TransportConfig → Statics × AeronTransport
new w config = (
  record w { next_endpoint_id = (w.next_endpoint_id + 1) % 2 ^ 64 },
  record { endpoint_id = w.next_endpoint_id; connected = false; config = config; bus = none },
)

abbrev or_endpoint : Option Bytes → Bytes → ℕ → Bytes
or_endpoint (some channel) address port = channel
or_endpoint none address port = codes "aeron:udp?endpoint=" ++ (address ++ (b':' ∷ decimal port))

abbrev pub channel_key : AeronTransport → Bytes → ℕ → ChannelKey
channel_key t address port = record {
  channel = or_endpoint t.config.aeron_channel address port;
  stream_id = t.config.aeron_stream_id;
}

abbrev pub frames_or_none : Option Frames → Frames
frames_or_none none = []
frames_or_none (some frames) = frames

-- `connect` and `bind`: the bus of the channel, with no frames where there is none yet.
unfoldable pub open_bus : Statics → AeronTransport → Bytes → ℕ → Statics × AeronTransport
open_bus w t address port =
    let key = channel_key t address port in
    (put w key (frames_or_none (w.registry key)), record t { bus = some key; connected = true })

-- `iter().position(|frame| frame.sender_id != id)`, with the frame taken out there.
abbrev pub kept : AeronFrame → Option (AeronFrame × Frames) → Option (AeronFrame × Frames)
kept f none = none
kept f (some (g, rest)) = some (g, f ∷ rest)

unfoldable pub take_foreign : ℕ → Frames → Option (AeronFrame × Frames)
take_foreign id [] = none
take_foreign id (f ∷ fs) =
    let later = take_foreign id fs in if f.sender_id == id then kept f later else some (f, fs)

abbrev send_on : Statics → AeronTransport → Bytes → Option ChannelKey → Statics × Result ℕ IoError
send_on w t bytes none = (w, err not_connected)
send_on w t bytes (some key) = (
  put w key (
      frames_or_none (w.registry key)
      ++ (record { sender_id = t.endpoint_id; payload = bytes } ∷ [])),
  ok (length bytes),
)

unfoldable pub send : Statics → AeronTransport → Bytes → Statics × Result ℕ IoError
send w t bytes = send_on w t bytes t.bus

-- A frame that is taken out is gone, also where the buffer is too small for it.
abbrev pub received_frame :
    Statics → ChannelKey → ℕ → Option (AeronFrame × Frames) → Statics × Result Bytes IoError
received_frame w key room none = (w, ok [])
received_frame w key room (some (frame, rest)) =
    if ltb room (length frame.payload)
    then (put w key rest, err invalid_input)
    else (put w key rest, ok frame.payload)

abbrev recv_on : Statics → AeronTransport → ℕ → Option ChannelKey → Statics × Result Bytes IoError
recv_on w t room none = (w, err not_connected)
recv_on w t room (some key) =
    received_frame w key room (take_foreign t.endpoint_id (frames_or_none (w.registry key)))

-- The bytes that are put into a buffer of `room` bytes; none is the answer 0.
unfoldable pub recv : Statics → AeronTransport → ℕ → Statics × Result Bytes IoError
unfolding take_foreign
recv w t room = recv_on w t room t.bus

unfoldable pub close : AeronTransport → AeronTransport
close t = record t { connected = false }

abbrev event_of : Option (AeronFrame × Frames) → Option TransportEvent
event_of none = none
event_of (some (frame, rest)) = some (data_received (length frame.payload))

abbrev poll_on :
    Statics → AeronTransport → Option ChannelKey → Result (Option TransportEvent) IoError
poll_on w t none = err not_connected
poll_on w t (some key) =
    ok (event_of (take_foreign t.endpoint_id (frames_or_none (w.registry key))))

unfoldable pub poll : Statics → AeronTransport → Result (Option TransportEvent) IoError
unfolding take_foreign
poll w t = poll_on w t t.bus

-- What `build_transport` builds.
pub data Built : Type 0 where
  aeron_transport : AeronTransport → Built
  tcp_transport : TransportConfig → Built

abbrev built_for : TransportMode → Statics → TransportConfig → Statics × Result Built IoError
built_for aeron w config = let (v, t) = new w config in (v, ok (aeron_transport t))
built_for kernel_tcp w config = (w, ok (tcp_transport config))
built_for dpdk w config = (w, err unsupported)
built_for open_onload w config = (w, err unsupported)

unfoldable pub build_transport : Statics → TransportConfig → Statics × Result Built IoError
unfolding new
build_transport w config = built_for config.mode w config

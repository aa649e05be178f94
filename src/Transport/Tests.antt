-- ===== src/Transport/Tests.antt =====
-- Runs of src/transport_aeron.rs with two endpoints.
use fix_engine.Base.{
  Bytes, [], arith, bytes_eq, codes, err, none, ok, refl, some, true, ◌++◌, ◌∷◌, ◌≡◌,
}
use fix_engine.Transport.{
  AeronTransport, ChannelKey, Statics, aeron_ipc, build_transport, close, default_config,
  kernel_tcp_config, new, open_bus, poll, recv, send, tcp_transport, data_received, not_connected,
}
use fix_engine.Transport.Fifo.{pending, run, run-fifo, sends, receives, inbox}
use fix_engine.Transport.KernelTcp.{
  close_kernel, connect_kernel, new_kernel, recv_kernel, send_kernel,
}

abbrev nothing : Statics
nothing = record { registry = λ k. none; next_endpoint_id = 1 }

abbrev ping : Bytes
ping = codes "ping"

abbrev key : ChannelKey
key = record { channel = codes "aeron:ipc"; stream_id = 7 }

abbrev left : AeronTransport
left = record { endpoint_id = 1; connected = true; config = aeron_ipc 7; bus = some key }

abbrev right : AeronTransport
right = record { endpoint_id = 2; connected = true; config = aeron_ipc 7; bus = some key }

-- The two endpoints are what `new` and `connect` give.
opened :
    ((open_bus nothing (new nothing (aeron_ipc 7)).1 [] 0).1 ≡ left)
    × ((open_bus nothing (new (new nothing (aeron_ipc 7)).0 (aeron_ipc 7)).1 [] 0).1 ≡ right)
unfolding open_bus new
opened = (refl, refl)

-- An endpoint does not receive its own frame, and sees the other's.
own_frame :
    ((recv (send nothing left ping).0 left 16).1 ≡ ok [])
    × ((recv (send nothing left ping).0 right 16).1 ≡ ok ping)
    × (poll (send nothing left ping).0 right ≡ ok (some (data_received 4)))
unfolding recv send poll bytes_eq
own_frame = (refl, refl, refl)

-- A transport that was closed still sends.
closed_sends : (send nothing (close left) ping).1 ≡ ok 4
unfolding send close
closed_sends = refl

-- A transport that never was connected does not.
unconnected : (send nothing (new nothing (aeron_ipc 7)).1 ping).1 ≡ err not_connected
unfolding send new
unconnected = refl

built_tcp : (build_transport nothing kernel_tcp_config).1 ≡ ok (tcp_transport kernel_tcp_config)
unfolding build_transport
built_tcp = refl

kernel :
    (send_kernel (connect_kernel (new_kernel default_config)) ping ≡ ok 4)
    × (recv_kernel (close_kernel (connect_kernel (new_kernel default_config))) ≡ err not_connected)
unfolding send_kernel connect_kernel new_kernel recv_kernel close_kernel
kernel = (refl, refl)

run-fifo_example :
    (run left right 16 nothing (sends ping ∷ receives ∷ sends (codes "b") ∷ [])).1
      ++ pending left right 16
          (run left right 16 nothing (sends ping ∷ receives ∷ sends (codes "b") ∷ [])).0
          key
    ≡ pending left right 16 nothing key ++ (ping ∷ codes "b" ∷ [])
run-fifo_example =
    run-fifo left right 16 key nothing (sends ping ∷ receives ∷ sends (codes "b") ∷ []) refl refl
      refl (unfold inbox in tt) (omega arith)

-- ===== src/Transport/KernelTcp.antt =====
-- `KernelTcpTransport` of src/transport.rs, which keeps a flag and has no socket.
use fix_engine.Base.{Bool, Bytes, Result, err, false, if◌then◌else◌, length, not, ok, true, ℕ}
use fix_engine.Transport.{IoError, TransportConfig, not_connected}

pub record KernelTcpTransport : Type 0 where
  pub connected : Bool
  pub config : TransportConfig

unfoldable pub new_kernel : TransportConfig → KernelTcpTransport
new_kernel config = record { connected = false; config = config }

unfoldable pub connect_kernel : KernelTcpTransport → KernelTcpTransport
connect_kernel t = record t { connected = true }

unfoldable pub send_kernel : KernelTcpTransport → Bytes → Result ℕ IoError
send_kernel t bytes = if not t.connected then err not_connected else ok (length bytes)

unfoldable pub recv_kernel : KernelTcpTransport → Result ℕ IoError
recv_kernel t = if not t.connected then err not_connected else ok 0

unfoldable pub close_kernel : KernelTcpTransport → KernelTcpTransport
close_kernel t = record t { connected = false }

-- ===== src/Serializer/Build.antt =====
-- The convenience functions of src/serializer.rs.
use fix_engine.Base.{Bytes, Outcome, [], codes, returns, ℕ, ◌>>=◌, ◌∷◌}
use fix_engine.Serializer.{FixSerializer, new, begin, add_str, add_int, add_u64, finalize}
use fix_engine.Tags

-- The caller's buffer after the call, and the length of the message in it.
abbrev pub finish : FixSerializer → Outcome (Bytes × ℕ)
finish s = finalize s >>= λ r. returns (r.0.buffer, r.1)

unfoldable pub build_heartbeat : Bytes → Bytes → Bytes → Bytes → ℕ → Bytes → Outcome (Bytes × ℕ)
build_heartbeat buffer begin_string sender target seq_num sending_time = do
  s ← begin (new buffer) begin_string (codes "0")
  s ← add_str s Tags.sender_comp_id sender
  s ← add_str s Tags.target_comp_id target
  s ← add_u64 s Tags.msg_seq_num seq_num
  s ← add_str s Tags.sending_time sending_time
  finish s

unfoldable pub build_logon : Bytes → Bytes → Bytes → Bytes → ℕ → Bytes → ℕ → Outcome (Bytes × ℕ)
build_logon buffer begin_string sender target seq_num sending_time heartbeat_interval = do
  s ← begin (new buffer) begin_string (codes "A")
  s ← add_str s Tags.sender_comp_id sender
  s ← add_str s Tags.target_comp_id target
  s ← add_u64 s Tags.msg_seq_num seq_num
  s ← add_str s Tags.sending_time sending_time
  s ← add_int s Tags.encrypt_method 0
  s ← add_int s Tags.heartbt_int heartbeat_interval
  finish s

unfoldable pub build_logout : Bytes → Bytes → Bytes → Bytes → ℕ → Bytes → Outcome (Bytes × ℕ)
build_logout buffer begin_string sender target seq_num sending_time = do
  s ← begin (new buffer) begin_string (codes "5")
  s ← add_str s Tags.sender_comp_id sender
  s ← add_str s Tags.target_comp_id target
  s ← add_u64 s Tags.msg_seq_num seq_num
  s ← add_str s Tags.sending_time sending_time
  finish s

unfoldable pub build_test_request :
    Bytes → Bytes → Bytes → Bytes → ℕ → Bytes → Bytes → Outcome (Bytes × ℕ)
build_test_request buffer begin_string sender target seq_num sending_time test_req_id = do
  s ← begin (new buffer) begin_string (codes "1")
  s ← add_str s Tags.sender_comp_id sender
  s ← add_str s Tags.target_comp_id target
  s ← add_u64 s Tags.msg_seq_num seq_num
  s ← add_str s Tags.sending_time sending_time
  s ← add_str s Tags.test_req_id test_req_id
  finish s

unfoldable pub build_new_order_single :
    Bytes
    → Bytes
    → Bytes
    → Bytes
    → ℕ
    → Bytes
    → Bytes
    → Bytes
    → ℕ
    → ℕ
    → ℕ
    → Bytes
    → Outcome (Bytes × ℕ)
build_new_order_single buffer begin_string sender target seq_num sending_time cl_ord_id symbol side
      qty ord_type price =
    do
      s ← begin (new buffer) begin_string (codes "D")
      s ← add_str s Tags.sender_comp_id sender
      s ← add_str s Tags.target_comp_id target
      s ← add_u64 s Tags.msg_seq_num seq_num
      s ← add_str s Tags.sending_time sending_time
      s ← add_str s Tags.cl_ord_id cl_ord_id
      s ← add_str s Tags.symbol symbol
      s ← add_str s Tags.side (side ∷ [])
      s ← add_int s Tags.order_qty qty
      s ← add_str s Tags.ord_type (ord_type ∷ [])
      s ← add_str s Tags.price price
      s ← add_str s Tags.transact_time sending_time
      s ← add_str s Tags.handl_inst (codes "1")
      finish s

unfoldable pub build_execution_report :
    Bytes
    → Bytes
    → Bytes
    → Bytes
    → ℕ
    → Bytes
    → Bytes
    → Bytes
    → Bytes
    → Bytes
    → ℕ
    → ℕ
    → ℕ
    → Bytes
    → ℕ
    → ℕ
    → Bytes
    → ℕ
    → ℕ
    → Outcome (Bytes × ℕ)
build_execution_report buffer begin_string sender target seq_num sending_time order_id exec_id
      cl_ord_id symbol side ord_qty last_qty last_px leaves_qty cum_qty avg_px exec_type
      ord_status =
    do
      s ← begin (new buffer) begin_string (codes "8")
      s ← add_str s Tags.sender_comp_id sender
      s ← add_str s Tags.target_comp_id target
      s ← add_u64 s Tags.msg_seq_num seq_num
      s ← add_str s Tags.sending_time sending_time
      s ← add_str s Tags.order_id order_id
      s ← add_str s Tags.exec_id exec_id
      s ← add_str s Tags.cl_ord_id cl_ord_id
      s ← add_str s Tags.exec_type (exec_type ∷ [])
      s ← add_str s Tags.ord_status (ord_status ∷ [])
      s ← add_str s Tags.symbol symbol
      s ← add_str s Tags.side (side ∷ [])
      s ← add_int s Tags.order_qty ord_qty
      s ← add_int s Tags.last_qty last_qty
      s ← add_str s Tags.last_px last_px
      s ← add_int s Tags.leaves_qty leaves_qty
      s ← add_int s Tags.cum_qty cum_qty
      s ← add_str s Tags.avg_px avg_px
      s ← add_str s Tags.transact_time sending_time
      finish s

-- ===== src/Serializer/Builders.antt =====
-- Each convenience function of src/serializer.rs builds the message that its arguments describe.
use fix_engine.Decimal.{decimal}
use fix_engine.Message.Numbers.{signed_decimal}
use fix_engine.Base.{All, Bytes, List, Outcome, [], arith, codes, ℕ, ◌<◌, ◌>>=◌, ◌^◌, ◌∷◌, ◌≡◌}
use fix_engine.Serializer.{FixSerializer, new, begin, add_str, add_int, add_u64}
use fix_engine.Serializer.Build.{
  finish, build_heartbeat, build_logon, build_logout, build_test_request, build_new_order_single,
  build_execution_report,
}
use fix_engine.Serializer.Writers.{
  field, wire, add_str-Writes, add_int-Writes, add_u64-Writes, Writes,
}
use fix_engine.Serializer.Contract.{Ends, Ends-bind, finish-Ends, serialized, serialize_lem}

-- One call of the builder chain.
data Entry : Type 0 where
  str : ℕ → Bytes → Entry
  int : ℕ → ℕ → Entry
  num : ℕ → ℕ → Entry

abbrev entry_field : Entry → ℕ × Bytes
entry_field (str tag bytes) = (tag, bytes)
entry_field (int tag w) = (tag, signed_decimal w)
entry_field (num tag n) = (tag, decimal n)

abbrev Fits : Entry → Type 0
Fits (str tag bytes) = tag < 2 ^ 32
Fits (int tag w) = (tag < 2 ^ 32) × (w < 2 ^ 64)
Fits (num tag n) = (tag < 2 ^ 32) × (n < 2 ^ 64)

abbrev fields : List Entry → List (ℕ × Bytes)
fields [] = []
fields (e ∷ es) = entry_field e ∷ fields es

add : Entry → FixSerializer → Outcome FixSerializer
add (str tag bytes) s = add_str s tag bytes
add (int tag w) s = add_int s tag w
add (num tag n) s = add_u64 s tag n

run : List Entry → FixSerializer → Outcome (Bytes × ℕ)
run [] s = finish s
run (e ∷ es) s = add e s >>= run es

add-Writes : (e : Entry) → Fits e → Writes (add e) (field (entry_field e).0 (entry_field e).1)
unfolding add
add-Writes (str tag bytes) h = add_str-Writes tag bytes h
add-Writes (int tag w) (h, k) = add_int-Writes tag w h k
add-Writes (num tag n) (h, k) = add_u64-Writes tag n h k

run-Ends : (es : List Entry) → All Fits es → Ends (run es) (wire (fields es))
unfolding run
run-Ends [] h = finish-Ends
run-Ends (e ∷ es) (he, hs) =
    Ends-bind (add e) (run es) (field (entry_field e).0 (entry_field e).1) (wire (fields es))
      (add-Writes e he) (run-Ends es hs)

built :
    (buffer begin_string msg_type : Bytes) (es : List Entry)
    → All Fits es
    → (begin (new buffer) begin_string msg_type >>= run es)
      ≡ serialized buffer begin_string msg_type (wire (fields es))
built buffer begin_string msg_type es h =
    serialize_lem begin_string msg_type (run es) (wire (fields es)) (run-Ends es h) buffer

-- A heartbeat: when the sequence number is below 2 ^ 64, the call writes the whole message with
-- exactly the listed fields, in that order, to the front of the buffer and returns its length,
-- and panics where the buffer is shorter than the message.
pub build_heartbeat_lem :
    (buffer begin_string sender target : Bytes) (seq_num : ℕ) (sending_time : Bytes)
    → seq_num < 2 ^ 64
    → build_heartbeat buffer begin_string sender target seq_num sending_time
      ≡ serialized buffer begin_string
          (codes "0")
          (wire ((49, sender) ∷ (56, target) ∷ (34, decimal seq_num) ∷ (52, sending_time) ∷ []))
unfolding build_heartbeat run add
build_heartbeat_lem buffer begin_string sender target seq_num sending_time h =
    built buffer begin_string (codes "0")
      (str 49 sender ∷ str 56 target ∷ num 34 seq_num ∷ str 52 sending_time ∷ []) (omega arith)

-- A logon: when the sequence number and the heartbeat interval are below 2 ^ 64, the call writes
-- the whole message with exactly the listed fields, in that order, to the front of the buffer and
-- returns its length, and panics where the buffer is shorter than the message. Quantities and
-- intervals stand for the bit patterns of signed numbers, which are printed with their sign.
pub build_logon_lem :
    (buffer : Bytes) (begin_string : Bytes) (sender : Bytes) (target : Bytes) (seq_num : ℕ)
    (sending_time : Bytes) (heartbeat_interval : ℕ)
    → seq_num < 2 ^ 64
    → heartbeat_interval < 2 ^ 64
    → build_logon buffer begin_string sender target seq_num sending_time heartbeat_interval
      ≡ serialized buffer begin_string (codes "A") (
          wire (
            (49, sender)
            ∷ (56, target)
            ∷ (34, decimal seq_num)
            ∷ (52, sending_time)
            ∷ (98, signed_decimal 0)
            ∷ (108, signed_decimal heartbeat_interval)
            ∷ []))
unfolding build_logon run add
build_logon_lem buffer begin_string sender target seq_num sending_time heartbeat_interval h_seq_num
      h_heartbeat_interval =
    built buffer begin_string (codes "A")
      (str 49 sender
        ∷ str 56 target
        ∷ num 34 seq_num
        ∷ str 52 sending_time
        ∷ int 98 0
        ∷ int 108 heartbeat_interval
        ∷ [])
      (omega arith)

-- A logout: when the sequence number is below 2 ^ 64, the call writes the whole message with
-- exactly the listed fields, in that order, to the front of the buffer and returns its length,
-- and panics where the buffer is shorter than the message.
pub build_logout_lem :
    (buffer : Bytes) (begin_string : Bytes) (sender : Bytes) (target : Bytes) (seq_num : ℕ)
    (sending_time : Bytes)
    → seq_num < 2 ^ 64
    → build_logout buffer begin_string sender target seq_num sending_time
      ≡ serialized buffer begin_string
          (codes "5")
          (wire ((49, sender) ∷ (56, target) ∷ (34, decimal seq_num) ∷ (52, sending_time) ∷ []))
unfolding build_logout run add
build_logout_lem buffer begin_string sender target seq_num sending_time h_seq_num =
    built buffer begin_string (codes "5")
      (str 49 sender ∷ str 56 target ∷ num 34 seq_num ∷ str 52 sending_time ∷ []) (omega arith)

-- A test request: when the sequence number is below 2 ^ 64, the call writes the whole message
-- with exactly the listed fields, in that order, to the front of the buffer and returns its
-- length, and panics where the buffer is shorter than the message.
pub build_test_request_lem :
    (buffer : Bytes) (begin_string : Bytes) (sender : Bytes) (target : Bytes) (seq_num : ℕ)
    (sending_time : Bytes) (test_req_id : Bytes)
    → seq_num < 2 ^ 64
    → build_test_request buffer begin_string sender target seq_num sending_time test_req_id
      ≡ serialized buffer begin_string (codes "1") (
          wire (
            (49, sender)
            ∷ (56, target)
            ∷ (34, decimal seq_num)
            ∷ (52, sending_time)
            ∷ (112, test_req_id)
            ∷ []))
unfolding build_test_request run add
build_test_request_lem buffer begin_string sender target seq_num sending_time test_req_id
      h_seq_num =
    built buffer begin_string (codes "1")
      (str 49 sender
        ∷ str 56 target
        ∷ num 34 seq_num
        ∷ str 52 sending_time
        ∷ str 112 test_req_id
        ∷ [])
      (omega arith)

-- A new order: when the sequence number and the quantity are below 2 ^ 64, the call writes the
-- whole message with exactly the listed fields, in that order, to the front of the buffer and
-- returns its length, and panics where the buffer is shorter than the message. Quantities and
-- intervals stand for the bit patterns of signed numbers, which are printed with their sign.
pub build_new_order_single_lem :
    (buffer : Bytes) (begin_string : Bytes) (sender : Bytes) (target : Bytes) (seq_num : ℕ)
    (sending_time : Bytes) (cl_ord_id : Bytes) (symbol : Bytes) (side : ℕ) (qty : ℕ) (ord_type : ℕ)
    (price : Bytes)
    → seq_num < 2 ^ 64
    → qty < 2 ^ 64
    → build_new_order_single buffer begin_string sender target seq_num sending_time cl_ord_id symbol
        side qty ord_type price
      ≡ serialized buffer begin_string (codes "D") (
          wire (
            (49, sender)
            ∷ (56, target)
            ∷ (34, decimal seq_num)
            ∷ (52, sending_time)
            ∷ (11, cl_ord_id)
            ∷ (55, symbol)
            ∷ (54, side ∷ [])
            ∷ (38, signed_decimal qty)
            ∷ (40, ord_type ∷ [])
            ∷ (44, price)
            ∷ (60, sending_time)
            ∷ (21, codes "1")
            ∷ []))
unfolding build_new_order_single run add
build_new_order_single_lem buffer begin_string sender target seq_num sending_time cl_ord_id symbol
      side qty ord_type price h_seq_num h_qty =
    built buffer begin_string (codes "D")
      (str 49 sender
        ∷ str 56 target
        ∷ num 34 seq_num
        ∷ str 52 sending_time
        ∷ str 11 cl_ord_id
        ∷ str 55 symbol
        ∷ str 54 (side ∷ [])
        ∷ int 38 qty
        ∷ str 40 (ord_type ∷ [])
        ∷ str 44 price
        ∷ str 60 sending_time
        ∷ str 21 (codes "1")
        ∷ [])
      (omega arith)

-- An execution report: when the sequence number and the four quantities are below 2 ^ 64, the
-- call writes the whole message with exactly the listed fields, in that order, to the front of
-- the buffer and returns its length, and panics where the buffer is shorter than the message.
-- Quantities and intervals stand for the bit patterns of signed numbers, which are printed with
-- their sign.
build_execution_report_lem :
    (buffer : Bytes) (begin_string : Bytes) (sender : Bytes) (target : Bytes) (seq_num : ℕ)
    (sending_time : Bytes) (order_id : Bytes) (exec_id : Bytes) (cl_ord_id : Bytes) (symbol : Bytes)
    (side : ℕ) (ord_qty : ℕ) (last_qty : ℕ) (last_px : Bytes) (leaves_qty : ℕ) (cum_qty : ℕ)
    (avg_px : Bytes) (exec_type : ℕ) (ord_status : ℕ)
    → seq_num < 2 ^ 64
    → ord_qty < 2 ^ 64
    → last_qty < 2 ^ 64
    → leaves_qty < 2 ^ 64
    → cum_qty < 2 ^ 64
    → build_execution_report buffer begin_string sender target seq_num sending_time order_id exec_id
        cl_ord_id symbol side ord_qty last_qty last_px leaves_qty cum_qty avg_px exec_type
        ord_status
      ≡ serialized buffer begin_string (codes "8") (
          wire (
            (49, sender)
            ∷ (56, target)
            ∷ (34, decimal seq_num)
            ∷ (52, sending_time)
            ∷ (37, order_id)
            ∷ (17, exec_id)
            ∷ (11, cl_ord_id)
            ∷ (150, exec_type ∷ [])
            ∷ (39, ord_status ∷ [])
            ∷ (55, symbol)
            ∷ (54, side ∷ [])
            ∷ (38, signed_decimal ord_qty)
            ∷ (32, signed_decimal last_qty)
            ∷ (31, last_px)
            ∷ (151, signed_decimal leaves_qty)
            ∷ (14, signed_decimal cum_qty)
            ∷ (6, avg_px)
            ∷ (60, sending_time)
            ∷ []))
unfolding build_execution_report run add
build_execution_report_lem buffer begin_string sender target seq_num sending_time order_id exec_id
      cl_ord_id symbol side ord_qty last_qty last_px leaves_qty cum_qty avg_px exec_type ord_status
      h_seq_num h_ord_qty h_last_qty h_leaves_qty h_cum_qty =
    built buffer begin_string (codes "8")
      (str 49 sender
        ∷ str 56 target
        ∷ num 34 seq_num
        ∷ str 52 sending_time
        ∷ str 37 order_id
        ∷ str 17 exec_id
        ∷ str 11 cl_ord_id
        ∷ str 150 (exec_type ∷ [])
        ∷ str 39 (ord_status ∷ [])
        ∷ str 55 symbol
        ∷ str 54 (side ∷ [])
        ∷ int 38 ord_qty
        ∷ int 32 last_qty
        ∷ str 31 last_px
        ∷ int 151 leaves_qty
        ∷ int 14 cum_qty
        ∷ str 6 avg_px
        ∷ str 60 sending_time
        ∷ [])
      (omega arith)

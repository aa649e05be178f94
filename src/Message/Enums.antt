-- ===== src/Message/Enums.antt =====
-- The enumerations of src/message.rs: MsgType, Side and OrdType.
use fix_engine.Base.{
  Bool, Bool-cases, Bytes, Option, Outcome, ap, arith, bytes_eq, bytes_eq_iff, codes, false,
  if◌then◌else◌, inl, inr, none, refl, returns, some, true, ℕ, ◌+◌, ◌==◌, ◌>>=◌, ◌↔◌, ◌∙◌, ◌≡◌, ◌≢◌,
}
use fix_engine.Message.{MessageView, msg_type}

pub data MsgType : Type 0 where
  heartbeat test_request resend_request reject : MsgType
  sequence_reset logout logon new_order_single : MsgType
  order_cancel_request order_cancel_replace_request order_status_request execution_report : MsgType
  order_cancel_reject market_data_request market_data_snapshot market_data_incremental : MsgType
  quote_request quote trade_capture_report unknown : MsgType

-- `MsgType::from_bytes`: the slice patterns, tried in order.
unfoldable pub from_bytes : Bytes → Option MsgType
unfolding bytes_eq
from_bytes bytes =
    if bytes_eq bytes (codes "0")
    then some heartbeat
    else if bytes_eq bytes (codes "1")
    then some test_request
    else if bytes_eq bytes (codes "2")
    then some resend_request
    else if bytes_eq bytes (codes "3")
    then some reject
    else if bytes_eq bytes (codes "4")
    then some sequence_reset
    else if bytes_eq bytes (codes "5")
    then some logout
    else if bytes_eq bytes (codes "A")
    then some logon
    else if bytes_eq bytes (codes "D")
    then some new_order_single
    else if bytes_eq bytes (codes "F")
    then some order_cancel_request
    else if bytes_eq bytes (codes "G")
    then some order_cancel_replace_request
    else if bytes_eq bytes (codes "H")
    then some order_status_request
    else if bytes_eq bytes (codes "8")
    then some execution_report
    else if bytes_eq bytes (codes "9")
    then some order_cancel_reject
    else if bytes_eq bytes (codes "V")
    then some market_data_request
    else if bytes_eq bytes (codes "W")
    then some market_data_snapshot
    else if bytes_eq bytes (codes "X")
    then some market_data_incremental
    else if bytes_eq bytes (codes "R")
    then some quote_request
    else if bytes_eq bytes (codes "S")
    then some quote
    else if bytes_eq bytes (codes "AE")
    then some trade_capture_report
    else some unknown

unfoldable pub as_bytes : MsgType → Bytes
as_bytes heartbeat = codes "0"
as_bytes test_request = codes "1"
as_bytes resend_request = codes "2"
as_bytes reject = codes "3"
as_bytes sequence_reset = codes "4"
as_bytes logout = codes "5"
as_bytes logon = codes "A"
as_bytes new_order_single = codes "D"
as_bytes order_cancel_request = codes "F"
as_bytes order_cancel_replace_request = codes "G"
as_bytes order_status_request = codes "H"
as_bytes execution_report = codes "8"
as_bytes order_cancel_reject = codes "9"
as_bytes market_data_request = codes "V"
as_bytes market_data_snapshot = codes "W"
as_bytes market_data_incremental = codes "X"
as_bytes quote_request = codes "R"
as_bytes quote = codes "S"
as_bytes trade_capture_report = codes "AE"
as_bytes unknown = codes "?"

abbrev enum_of : Option Bytes → Option MsgType
enum_of none = none
enum_of (some b) = from_bytes b

-- `msg_type_enum`.
unfoldable pub msg_type_enum : MessageView → Outcome (Option MsgType)
unfolding msg_type from_bytes
msg_type_enum v = msg_type v >>= λ b. returns (enum_of b)

unfoldable pub is_session_level : MsgType → Bool
is_session_level heartbeat = true
is_session_level test_request = true
is_session_level resend_request = true
is_session_level reject = true
is_session_level sequence_reset = true
is_session_level logout = true
is_session_level logon = true
is_session_level _ = false

unfoldable pub is_admin : MsgType → Bool
unfolding is_session_level
is_admin t = is_session_level t

pub data Side : Type 0 where
  buy sell buy_minus sell_plus sell_short sell_short_exempt cross : Side

unfoldable pub side_from_byte : ℕ → Option Side
side_from_byte b =
    if b == b'1'
    then some buy
    else if b == b'2'
    then some sell
    else if b == b'3'
    then some buy_minus
    else if b == b'4'
    then some sell_plus
    else if b == b'5'
    then some sell_short
    else if b == b'6'
    then some sell_short_exempt
    else if b == b'8'
    then some cross
    else none

-- The discriminant, `Side as u8`.
unfoldable pub side_code : Side → ℕ
side_code buy = 1
side_code sell = 2
side_code buy_minus = 3
side_code sell_plus = 4
side_code sell_short = 5
side_code sell_short_exempt = 6
side_code cross = 8

pub data OrdType : Type 0 where
  market limit stop stop_limit : OrdType

unfoldable pub ord_type_from_byte : ℕ → Option OrdType
ord_type_from_byte b =
    if b == b'1'
    then some market
    else if b == b'2'
    then some limit
    else if b == b'3'
    then some stop
    else if b == b'4'
    then some stop_limit
    else none

-- The discriminant, `OrdType as u8`.
unfoldable pub ord_type_code : OrdType → ℕ
ord_type_code market = 1
ord_type_code limit = 2
ord_type_code stop = 3
ord_type_code stop_limit = 4

-- Whatever known type `o` is, `bs` is its wire form.
abbrev Known : Bytes → Option MsgType → Type 0
Known bs o = (u : MsgType) → o ≡ some u → u ≢ unknown → bs ≡ as_bytes u

guarded :
    (t : MsgType) (bs : Bytes) {o : Option MsgType}
    → Known bs o
    → Known bs (if bytes_eq bs (as_bytes t) then some t else o)
guarded t bs {o} k u e ne = elim (Bool-cases (bytes_eq bs (as_bytes t))) [
  | inl same_bytes ↦ (let same = bytes_eq_iff bs (as_bytes t) in ground arith)
  | inr differs ↦ k u (ground arith) ne
]

from_bytes-Known : (bs : Bytes) → Known bs (from_bytes bs)
unfolding from_bytes as_bytes
from_bytes-Known bs = guarded heartbeat bs (
    guarded test_request bs (
      guarded resend_request bs (
        guarded reject bs (
          guarded sequence_reset bs (
            guarded logout bs (
              guarded logon bs (
                guarded new_order_single bs (
                  guarded order_cancel_request bs (
                    guarded order_cancel_replace_request bs (
                      guarded order_status_request bs (
                        guarded execution_report bs (
                          guarded order_cancel_reject bs (
                            guarded market_data_request bs (
                              guarded market_data_snapshot bs (
                                guarded market_data_incremental bs (
                                  guarded quote_request bs (
                                    guarded quote bs (
                                      guarded trade_capture_report bs
                                        (λ u e ne. absurd (ne (ground arith)))))))))))))))))))))

read_back : (t : MsgType) → from_bytes (as_bytes t) ≡ some t
read_back heartbeat = unfold from_bytes as_bytes in refl
read_back _ = unfold from_bytes as_bytes in refl

-- Exactly the wire form of a known message type is read as that type.
from_bytes_iff :
    (bs : Bytes) (t : MsgType) → t ≢ unknown → (from_bytes bs ≡ some t) ↔ (bs ≡ as_bytes t)
from_bytes_iff bs t ne = ((λ h. from_bytes-Known bs t h ne), (λ e. ap from_bytes e ∙ read_back t))

-- A side or an order type is read from exactly the byte of its discriminant's digit.
pub side_from_byte_iff : (b : ℕ) (s : Side) → (side_from_byte b ≡ some s) ↔ (b ≡ b'0' + side_code s)
unfolding side_from_byte side_code
side_from_byte_iff b s = ground arith

pub ord_type_from_byte_iff :
    (b : ℕ) (t : OrdType) → (ord_type_from_byte b ≡ some t) ↔ (b ≡ b'0' + ord_type_code t)
unfolding ord_type_from_byte ord_type_code
ord_type_from_byte_iff b t = ground arith

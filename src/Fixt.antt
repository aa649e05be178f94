-- ===== src/Fixt.antt =====
-- src/fixt.rs: the FIXT 1.1 session, which wraps a session and negotiates the application version.
-- Each clock reading of the wrapped session is an argument.
pub mod Versions
pub mod Negotiation
pub mod Invariant
pub mod Tests
use fix_engine.Base.{
  Bool, Bytes, List, Option, Outcome, Result, [], bytes_eq, codes, err, false, if◌then◌else◌, none,
  not, ok, returns, some, true, value, ℕ, ◌++◌, ◌==◌, ◌>>=◌, ◌||◌, ◌∷◌,
}
use fix_engine.Message.{MessageView, get_field}
use fix_engine.Message.Enums.{msg_type_enum, is_session_level, MsgType}
use fix_engine.Session
use fix_engine.Session.{Session, SessionConfig, SessionAction, SessionState}

-- APPL_VER_ID, DEFAULT_APPL_VER_ID, CSTM_APPL_VER_ID and APPL_EXT_ID.
abbrev pub appl_ver_id : ℕ
appl_ver_id = 1_128

abbrev pub default_appl_ver_id : ℕ
default_appl_ver_id = 1_137

abbrev pub cstm_appl_ver_id : ℕ
cstm_appl_ver_id = 1_129

abbrev pub appl_ext_id : ℕ
appl_ext_id = 1_156

abbrev pub fixt_begin_string : Bytes
fixt_begin_string = codes "FIXT.1.1"

pub data ApplVerId : Type 0 where
  fix27 fix30 fix40 fix41 fix42 fix43 fix44 fix50 fix50_sp1 fix50_sp2 : ApplVerId

-- `ApplVerID::from_bytes`: the slice patterns, tried in order.
unfoldable pub from_bytes : Bytes → Option ApplVerId
unfolding bytes_eq
from_bytes bytes =
    if bytes_eq bytes (codes "0")
    then some fix27
    else if bytes_eq bytes (codes "1")
    then some fix30
    else if bytes_eq bytes (codes "2")
    then some fix40
    else if bytes_eq bytes (codes "3")
    then some fix41
    else if bytes_eq bytes (codes "4")
    then some fix42
    else if bytes_eq bytes (codes "5")
    then some fix43
    else if bytes_eq bytes (codes "6")
    then some fix44
    else if bytes_eq bytes (codes "7")
    then some fix50
    else if bytes_eq bytes (codes "8")
    then some fix50_sp1
    else if bytes_eq bytes (codes "9")
    then some fix50_sp2
    else none

unfoldable pub as_bytes : ApplVerId → Bytes
as_bytes fix27 = codes "0"
as_bytes fix30 = codes "1"
as_bytes fix40 = codes "2"
as_bytes fix41 = codes "3"
as_bytes fix42 = codes "4"
as_bytes fix43 = codes "5"
as_bytes fix44 = codes "6"
as_bytes fix50 = codes "7"
as_bytes fix50_sp1 = codes "8"
as_bytes fix50_sp2 = codes "9"

unfoldable pub as_fix_version_str : ApplVerId → Bytes
as_fix_version_str fix27 = codes "FIX.2.7"
as_fix_version_str fix30 = codes "FIX.3.0"
as_fix_version_str fix40 = codes "FIX.4.0"
as_fix_version_str fix41 = codes "FIX.4.1"
as_fix_version_str fix42 = codes "FIX.4.2"
as_fix_version_str fix43 = codes "FIX.4.3"
as_fix_version_str fix44 = codes "FIX.4.4"
as_fix_version_str fix50 = codes "FIX.5.0"
as_fix_version_str fix50_sp1 = codes "FIX.5.0SP1"
as_fix_version_str fix50_sp2 = codes "FIX.5.0SP2"

-- The derived `==` compares the positions of the variants.
abbrev discriminant : ApplVerId → ℕ
discriminant fix27 = 0
discriminant fix30 = 1
discriminant fix40 = 2
discriminant fix41 = 3
discriminant fix42 = 4
discriminant fix43 = 5
discriminant fix44 = 6
discriminant fix50 = 7
discriminant fix50_sp1 = 8
discriminant fix50_sp2 = 9

-- `contains` of a vector of versions.
unfoldable pub contains : List ApplVerId → ApplVerId → Bool
contains [] v = false
contains (w ∷ ws) v = discriminant w == discriminant v || contains ws v

pub record FixtSessionConfig : Type 0 where
  pub base : SessionConfig
  pub default_appl_ver_id : ApplVerId
  pub supported_versions : List ApplVerId

pub record FixtSession : Type 0 where
  pub base : Session
  pub config : FixtSessionConfig
  pub negotiated_version : Option ApplVerId

pub record LogonField : Type 0 where
  pub tag : ℕ
  pub value : Bytes

pub data FixtError : Type 0 where
  missing_default_appl_ver_id : FixtError
  unsupported_appl_ver_id : Bytes → FixtError
  invalid_appl_ver_id : Bytes → FixtError
  missing_appl_ver_id : FixtError

-- The configuration that `new` keeps.
unfoldable pub completed : FixtSessionConfig → FixtSessionConfig
unfolding contains
completed c = record {
  base = record c.base { fix_version = fixt_begin_string };
  default_appl_ver_id = c.default_appl_ver_id;
  supported_versions =
      if contains c.supported_versions c.default_appl_ver_id
      then c.supported_versions
      else c.supported_versions ++ (c.default_appl_ver_id ∷ []);
}

unfoldable pub new : FixtSessionConfig → ℕ → FixtSession
unfolding completed
new c now = record {
  base = Session.new (completed c).base now;
  config = completed c;
  negotiated_version = none;
}

abbrev pub is_fixt : FixtSession → Bool
is_fixt s = true

abbrev pub supported_as : FixtSession → Bytes → Option ApplVerId → Result ApplVerId FixtError
supported_as s ver_bytes none = err (invalid_appl_ver_id ver_bytes)
supported_as s ver_bytes (some ver) =
    if not (contains s.config.supported_versions ver)
    then err (unsupported_appl_ver_id ver_bytes)
    else ok ver

-- The version in the bytes of a field, one that the session supports.
unfoldable pub supported_version : FixtSession → Bytes → Result ApplVerId FixtError
unfolding from_bytes
supported_version s ver_bytes = supported_as s ver_bytes (from_bytes ver_bytes)

-- What `on_logon_received` does with the version.
pub negotiate :
    FixtSession → ℕ → Result ApplVerId FixtError → FixtSession × Result (Unit {0}) FixtError
negotiate s now (err e) = (s, err e)
negotiate s now (ok ver) =
    (record s { negotiated_version = some ver; base = Session.on_logon s.base now }, ok tt)

pub negotiate_field : FixtSession → ℕ → Option Bytes → FixtSession × Result (Unit {0}) FixtError
negotiate_field s now none = (s, err missing_default_appl_ver_id)
negotiate_field s now (some ver_bytes) = negotiate s now (supported_version s ver_bytes)

-- `on_logon_received`.
unfoldable pub on_logon_received :
    FixtSession → MessageView → ℕ → Outcome (FixtSession × Result (Unit {0}) FixtError)
unfolding negotiate_field negotiate
on_logon_received s msg now =
    get_field msg default_appl_ver_id >>= λ ver_bytes. returns (negotiate_field s now ver_bytes)

unfoldable pub build_logon_fields : FixtSession → List LogonField
unfolding as_bytes
build_logon_fields s =
    record { tag = default_appl_ver_id; value = as_bytes s.config.default_appl_ver_id } ∷ []

-- `ok_or` on the negotiated version.
negotiated : Option ApplVerId → Result ApplVerId FixtError
negotiated none = err missing_appl_ver_id
negotiated (some ver) = ok ver

version_field : FixtSession → Option Bytes → Result ApplVerId FixtError
version_field s none = negotiated s.negotiated_version
version_field s (some ver_bytes) = supported_version s ver_bytes

abbrev session_message : Option MsgType → Bool
session_message none = false
session_message (some mt) = is_session_level mt

-- `unwrap_or` on the negotiated version.
abbrev unwrap_or : Option ApplVerId → ApplVerId → ApplVerId
unwrap_or none ver = ver
unwrap_or (some ver) _ = ver

-- `validate_appl_ver`.
unfoldable pub validate_appl_ver : FixtSession → MessageView → Outcome (Result ApplVerId FixtError)
unfolding version_field negotiated
validate_appl_ver s msg = msg_type_enum msg >>= λ mt.
    if session_message mt
    then returns (ok (unwrap_or s.negotiated_version s.config.default_appl_ver_id))
    else (get_field msg appl_ver_id >>= λ ver_bytes. returns (version_field s ver_bytes))

-- The methods that pass a call on to the wrapped session.
unfoldable pub state : FixtSession → SessionState
state s = s.base.state

unfoldable pub on_connected : FixtSession → ℕ → ℕ → FixtSession
on_connected s a b = record s { base = Session.on_connected s.base a b }

unfoldable pub on_logon : FixtSession → ℕ → FixtSession
on_logon s now = record s { base = Session.on_logon s.base now }

unfoldable pub validate_inbound_seq : FixtSession → ℕ → ℕ → FixtSession × Result (Unit {0}) (ℕ × ℕ)
validate_inbound_seq s seq now =
    let (base, r) = Session.validate_inbound_seq s.base seq now in (record s { base = base }, r)

unfoldable pub on_gap_filled : FixtSession → ℕ → FixtSession
on_gap_filled s seq = record s { base = Session.on_gap_filled s.base seq }

unfoldable pub on_logout_sent : FixtSession → FixtSession
on_logout_sent s = record s { base = Session.on_logout_sent s.base }

unfoldable pub on_disconnected : FixtSession → FixtSession
on_disconnected s = record s { base = Session.on_disconnected s.base; negotiated_version = none }

unfoldable pub check_heartbeat : FixtSession → ℕ → FixtSession × SessionAction
check_heartbeat s now =
    let (base, a) = Session.check_heartbeat s.base now in (record s { base = base }, a)

unfoldable pub on_message_sent : FixtSession → ℕ → FixtSession
on_message_sent s now = record s { base = Session.on_message_sent s.base now }

unfoldable pub on_message_received : FixtSession → ℕ → FixtSession
on_message_received s now = record s { base = Session.on_message_received s.base now }

unfoldable pub should_reconnect : FixtSession → Bool
should_reconnect s = Session.should_reconnect s.base

unfoldable pub on_reconnect_attempt : FixtSession → FixtSession
on_reconnect_attempt s = record s { base = Session.on_reconnect_attempt s.base }

unfoldable pub reset_sequences : FixtSession → FixtSession
reset_sequences s = record s { base = Session.reset_sequences s.base }

unfoldable pub next_outbound_seq_num : FixtSession → FixtSession × ℕ
next_outbound_seq_num s =
    let (base, n) = Session.next_outbound_seq_num s.base in (record s { base = base }, n)

unfoldable pub check_rate_limit : FixtSession → ℕ → FixtSession × Bool
check_rate_limit s now =
    let (base, b) = Session.check_rate_limit s.base now in (record s { base = base }, b)

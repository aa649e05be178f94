-- ===== src/Fixt/Tests.antt =====
-- Runs of src/fixt.rs on concrete sessions and messages.
use fix_engine.Base.{
  Bytes, List, [], arith, codes, err, length, ok, refl, returns, some, true, ◌++◌, ◌∷◌, ◌≡◌, ◌⊎◌,
}
use fix_engine.Message.{entry_value, get_field}
use fix_engine.Session.{default_config}
use fix_engine.Parser
use fix_engine.Parser.{parse}
use fix_engine.Parser.Framed.{body, message_fields}
use fix_engine.Parser.Parsed.{parsed_view}
use fix_engine.Parser.View.{Field}
use fix_engine.Serializer.Finalize.{message}
use fix_engine.Fixt.{
  fix44, fix50_sp2, ApplVerId, FixtError, FixtSession, FixtSessionConfig, as_bytes, completed,
  contains, default_appl_ver_id, fixt_begin_string, new, on_logon_received, supported_version,
  validate_appl_ver, MessageView,
}
use fix_engine.Decimal.{decimal, emit, padded}
use fix_engine.Checksum.{compute}
use fix_engine.Serializer.{checksum_field}
use fix_engine.Serializer.Finalize.{head}
use fix_engine.Message.Enums.{msg_type_enum, is_session_level}
use fix_engine.Session.{on_logon}
use fix_engine.Fixt.{build_logon_fields}
use fix_engine.Fixt.Negotiation.{
  Refused, agreed, logon_fields, on_logon_received-decides, negotiation,
}
use fix_engine.Fixt.Invariant.{
  Reached, created, logon, Reached-negotiated, validate_appl_ver-supported,
}

abbrev config : FixtSessionConfig
config = record {
  base = default_config;
  default_appl_ver_id = fix50_sp2;
  supported_versions = fix44 ∷ [];
}

abbrev fresh : FixtSession
fresh = new config 0

-- `new` adds the default version.
added : fresh.config.supported_versions ≡ fix44 ∷ (fix50_sp2 ∷ [])
unfolding new completed contains
added = refl

both :
    (contains fresh.config.supported_versions fix44 ≡ true)
    × (contains fresh.config.supported_versions fix50_sp2 ≡ true)
unfolding new completed contains
both = (refl, refl)

abbrev inner : List Field
inner = (34, codes "1") ∷ ((98, codes "0") ∷ [])

abbrev logon_message : Bytes
logon_message =
    message fixt_begin_string (body fixt_begin_string (codes "A") (logon_fields inner fresh))

abbrev wire_view : MessageView
wire_view =
    parsed_view (logon_message ++ codes "8=F")
      (message_fields fixt_begin_string (codes "A") (logon_fields inner fresh))

negotiation_example :
    (parse Parser.new (logon_message ++ codes "8=F") ≡ ok (wire_view, length logon_message))
    × (on_logon_received fresh wire_view 5 ≡ returns (agreed fresh fix50_sp2 5, ok tt))
unfolding new completed contains build_logon_fields as_bytes decimal emit message padded compute
    head checksum_field
negotiation_example =
    negotiation fresh fresh (codes "8=F") inner 5 (ground arith) refl (omega arith) both.1
      (omega arith)

-- Views of one-byte values: a Logon and an order.
abbrev logon_view : MessageView
logon_view = record {
  buffer = codes "A9";
  fields =
      (record { tag = 35; offset = 0; length = 1 })
      ∷ ((record { tag = 1_137; offset = 1; length = 1 }) ∷ []);
  msg_type_idx = 0;
  checksum_valid = true;
}

abbrev order_view : MessageView
order_view = record {
  buffer = codes "D6";
  fields =
      (record { tag = 35; offset = 0; length = 1 })
      ∷ ((record { tag = 1_128; offset = 1; length = 1 }) ∷ []);
  msg_type_idx = 0;
  checksum_valid = true;
}

found : get_field logon_view default_appl_ver_id ≡ returns (some (codes "9"))
unfolding get_field entry_value
found = refl

on_logon_received-decides_example :
    ((v : ApplVerId) × (some (codes "9") ≡ some (as_bytes v))
      × (contains fresh.config.supported_versions v ≡ true)
      × (on_logon_received fresh logon_view 5 ≡ returns (agreed fresh v 5, ok tt)))
    ⊎ ((e : FixtError) × Refused fresh (some (codes "9")) e
        × (on_logon_received fresh logon_view 5 ≡ returns (fresh, err e)))
on_logon_received-decides_example =
    on_logon_received-decides fresh logon_view 5 (some (codes "9")) found

abbrev up : FixtSession
up = agreed fresh fix50_sp2 5

negotiated_up : on_logon_received fresh logon_view 5 ≡ returns (up, ok tt)
unfolding on_logon_received get_field supported_version new entry_value
negotiated_up = refl

reached : Reached config up
reached = logon logon_view 5 negotiated_up (created 0)

Reached-negotiated_example :
    (up.config.base.fix_version ≡ fixt_begin_string)
    × (up.base.config ≡ up.config.base)
    × (contains up.config.supported_versions up.config.default_appl_ver_id ≡ true)
    × (contains up.config.supported_versions fix50_sp2 ≡ true)
Reached-negotiated_example = Reached-negotiated config fix50_sp2 reached refl

order_checked : validate_appl_ver up order_view ≡ returns (ok fix44)
unfolding validate_appl_ver get_field msg_type_enum is_session_level supported_version new on_logon
order_checked = refl

validate_appl_ver-supported_example : contains up.config.supported_versions fix44 ≡ true
validate_appl_ver-supported_example =
    validate_appl_ver-supported config order_view fix44 reached order_checked

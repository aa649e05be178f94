-- ===== src/Dictionary/Standard.antt =====
-- src/dictionary.rs: the table of standard fields and its lookup.
use fix_engine.Base.{Bytes, List, Option, [], codes, if◌then◌else◌, none, some, ℕ, ◌==◌, ◌∷◌}

pub data FieldType : Type 0 where
  int_type float_type qty price_type amt char_type string_type boolean_type data_type utc_timestamp
        utc_time_only utc_date_only local_mkt_date month_year multiple_value_string currency
        exchange country num_in_group seq_num length_type :
      FieldType

pub data FieldPresence : Type 0 where
  required optional : FieldPresence

pub record FieldDef : Type 0 where
  pub tag : ℕ
  pub name : Bytes
  pub field_type : FieldType

abbrev entry : ℕ → Bytes → FieldType → FieldDef
entry tag name field_type = record { tag = tag; name = name; field_type = field_type }

abbrev pub standard_fields : List FieldDef
standard_fields =
    entry 8 (codes "BeginString") string_type
    ∷ entry 9 (codes "BodyLength") length_type
    ∷ entry 10 (codes "CheckSum") string_type
    ∷ entry 11 (codes "ClOrdID") string_type
    ∷ entry 14 (codes "CumQty") qty
    ∷ entry 17 (codes "ExecID") string_type
    ∷ entry 21 (codes "HandlInst") char_type
    ∷ entry 31 (codes "LastPx") price_type
    ∷ entry 32 (codes "LastQty") qty
    ∷ entry 34 (codes "MsgSeqNum") seq_num
    ∷ entry 35 (codes "MsgType") string_type
    ∷ entry 37 (codes "OrderID") string_type
    ∷ entry 38 (codes "OrderQty") qty
    ∷ entry 39 (codes "OrdStatus") char_type
    ∷ entry 40 (codes "OrdType") char_type
    ∷ entry 44 (codes "Price") price_type
    ∷ entry 49 (codes "SenderCompID") string_type
    ∷ entry 52 (codes "SendingTime") utc_timestamp
    ∷ entry 54 (codes "Side") char_type
    ∷ entry 55 (codes "Symbol") string_type
    ∷ entry 56 (codes "TargetCompID") string_type
    ∷ entry 59 (codes "TimeInForce") char_type
    ∷ entry 60 (codes "TransactTime") utc_timestamp
    ∷ entry 98 (codes "EncryptMethod") int_type
    ∷ entry 108 (codes "HeartBtInt") int_type
    ∷ entry 150 (codes "ExecType") char_type
    ∷ entry 151 (codes "LeavesQty") qty
    ∷ entry 6 (codes "AvgPx") price_type
    ∷ []

-- `.iter().find(|f| f.tag == tag)`.
unfoldable pub find_def : List FieldDef → ℕ → Option FieldDef
find_def [] tag = none
find_def (f ∷ fs) tag = let later = find_def fs tag in if f.tag == tag then some f else later

abbrev pub lookup_standard : ℕ → Option FieldDef
lookup_standard tag = find_def standard_fields tag

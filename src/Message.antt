-- ===== src/Message.antt =====
-- src/message.rs: the view of a parsed message over its buffer, and the number parsers.
-- A panic (a slice out of range) is an `Outcome`. `fields` holds the first `field_count` entries of
-- the array; the rest of the array is never read. An `i64` is its bit pattern below 2 ^ 64.
pub mod Enums
pub mod Numbers
pub mod Tests
use fix_engine.Base.{
  Bool, Bytes, List, Option, Outcome, [], false, get_or, if◌then◌else◌, length, ltb, none, returns,
  slice, some, ℕ, ◌%◌, ◌&&◌, ◌*◌, ◌++◌, ◌+◌, ◌-◌, ◌==◌, ◌>>=◌, ◌^◌, ◌||◌, ◌∷◌,
}
use fix_engine.Tags
use mathlib.Core.Option

abbrev pub max_fields : ℕ
max_fields = 512

pub record FieldEntry : Type 0 where
  pub tag : ℕ
  pub offset : ℕ
  pub length : ℕ

pub record MessageView : Type 0 where
  pub buffer : Bytes
  pub fields : List FieldEntry
  pub msg_type_idx : ℕ
  pub checksum_valid : Bool

abbrev pub new : Bytes → MessageView
new buffer = record { buffer = buffer; fields = []; msg_type_idx = 0; checksum_valid = false }

unfoldable pub field_count : MessageView → ℕ
field_count v = length v.fields

-- A field beyond the capacity is dropped.
unfoldable pub add_field : MessageView → ℕ → ℕ → ℕ → MessageView
unfolding field_count
add_field v tag offset len =
    if ltb (field_count v) max_fields
    then record v {
      fields = v.fields ++ (record { tag = tag; offset = offset; length = len } ∷ []);
      msg_type_idx = if tag == Tags.msg_type then field_count v else v.msg_type_idx;
    }
    else v

unfoldable pub set_checksum_valid : MessageView → Bool → MessageView
set_checksum_valid v valid = record v { checksum_valid = valid }

unfoldable pub entry_value : Bytes → FieldEntry → Outcome Bytes
unfolding slice
entry_value buffer e = slice buffer e.offset e.length

-- The loop of `get_field`.
unfoldable pub get_field_in : Bytes → List FieldEntry → ℕ → Outcome (Option Bytes)
get_field_in buffer [] tag = returns none
get_field_in buffer (e ∷ es) tag =
    let later = get_field_in buffer es tag in
    if e.tag == tag then (entry_value buffer e >>= λ v. returns (some v)) else later

unfoldable pub get_field : MessageView → ℕ → Outcome (Option Bytes)
unfolding get_field_in
get_field v tag = get_field_in v.buffer v.fields tag

abbrev no_entry : FieldEntry
no_entry = record { tag = 0; offset = 0; length = 0 }

unfoldable pub msg_type : MessageView → Outcome (Option Bytes)
unfolding get_field entry_value field_count
msg_type v =
    let e = get_or v.fields v.msg_type_idx no_entry in
    if ltb v.msg_type_idx (field_count v) && e.tag == Tags.msg_type
    then (entry_value v.buffer e >>= λ b. returns (some b))
    else get_field v Tags.msg_type

-- `b < b'0' || b > b'9'`.
abbrev pub not_digit : ℕ → Bool
not_digit b = ltb b b'0' || ltb b'9' b

-- The digit loop that `parse_u64` and `parse_i64` share, modulo 2 ^ 64.
parse_digits : Bytes → ℕ → Option ℕ
parse_digits [] result = some result
parse_digits (b ∷ bs) result =
    let rest = parse_digits bs ((result * 10 + (b - b'0')) % 2 ^ 64) in
    if not_digit b then none else rest

unfoldable pub parse_u64 : Bytes → Option ℕ
unfolding parse_digits
parse_u64 [] = none
parse_u64 (b ∷ bs) = parse_digits (b ∷ bs) 0

-- Negation of an `i64` on its bit pattern.
abbrev pub neg64 : ℕ → ℕ
neg64 w = (2 ^ 64 - w) % 2 ^ 64

unfoldable pub parse_i64 : Bytes → Option ℕ
unfolding parse_digits
parse_i64 [] = none
parse_i64 (b ∷ bs) =
    if b == b'-' then Option.map neg64 (parse_digits bs 0) else parse_digits (b ∷ bs) 0

-- `and_then` on a field that may be missing.
abbrev and_then : Option Bytes → (Bytes → Option ℕ) → Option ℕ
and_then none f = none
and_then (some b) f = f b

unfoldable pub get_field_u64 : MessageView → ℕ → Outcome (Option ℕ)
unfolding get_field parse_u64
get_field_u64 v tag = get_field v tag >>= λ b. returns (and_then b parse_u64)

unfoldable pub get_field_i64 : MessageView → ℕ → Outcome (Option ℕ)
unfolding get_field parse_i64
get_field_i64 v tag = get_field v tag >>= λ b. returns (and_then b parse_i64)

unfoldable pub msg_seq_num : MessageView → Outcome (Option ℕ)
unfolding get_field_u64
msg_seq_num v = get_field_u64 v Tags.msg_seq_num

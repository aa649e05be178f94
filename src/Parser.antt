-- ===== src/Parser.antt =====
-- src/parser.rs: one message from the front of a buffer, and the search for a message's end.
-- The loops run over the bytes from `pos` on, and count `pos` along. Arithmetic wraps at the width
-- of its type, as in the release profile.
pub mod Fields
pub mod View
pub mod Wire
pub mod RoundTrip
pub mod Parsed
pub mod Header
pub mod Framed
pub mod Strict
pub mod Built
pub mod Boundary
pub mod Ends
pub mod Fuel
pub mod Tests
use fix_engine.Base.{
  Bool, Bytes, Option, Result, [], drop, err, false, get_or, if◌then◌else◌, length, ltb, none, not,
  ok, some, suc, take, true, zero, ℕ, ◌%◌, ◌&&◌, ◌*◌, ◌+◌, ◌-◌, ◌==◌, ◌^◌, ◌∷◌,
}
use fix_engine.Checksum
use fix_engine.Message
use fix_engine.Message.{MessageView, add_field, set_checksum_valid, not_digit}
use fix_engine.Tags

pub data ParseError : Type 0 where
  buffer_too_short missing_begin_string missing_body_length invalid_body_length : ParseError
  missing_msg_type invalid_checksum malformed_field invalid_tag message_too_large : ParseError

pub record FixParser : Type 0 where
  pub validate_checksum : Bool
  pub validate_body_length : Bool
  pub max_message_size : ℕ

-- `FixParser::new` and `FixParser::new_unchecked`.
abbrev pub new : FixParser
new = record { validate_checksum = true; validate_body_length = true; max_message_size = 65_536 }

abbrev pub new_unchecked : FixParser
new_unchecked = record {
  validate_checksum = false;
  validate_body_length = false;
  max_message_size = 65_536;
}

-- A tag number with the bytes behind its '=', or a value's length with the bytes behind its SOH.
pub record Scanned : Type 0 where
  pub scanned : ℕ
  pub pos : ℕ
  pub rest : Bytes

-- `while pos < len && buffer[pos] != EQUALS`.
unfoldable pub scan_tag : Bytes → ℕ → ℕ → Result Scanned ParseError
scan_tag [] tag pos = err malformed_field
scan_tag (b ∷ bs) tag pos =
    let more = scan_tag bs ((tag * 10 + (b - b'0')) % 2 ^ 32) (pos + 1) in
    if b == Tags.equals
    then ok (record { scanned = tag; pos = pos + 1; rest = bs })
    else if not_digit b
    then err invalid_tag
    else more

-- `while pos < len && buffer[pos] != SOH`; `len` counts the value's bytes.
unfoldable pub scan_value : Bytes → ℕ → ℕ → Result Scanned ParseError
scan_value [] len pos = err malformed_field
scan_value (b ∷ bs) len pos =
    let more = scan_value bs (len + 1) (pos + 1) in
    if b == Tags.soh then ok (record { scanned = len; pos = pos + 1; rest = bs }) else more

-- `stated_body_length * 10 + (b - b'0') as usize`, where the difference is a `u8`.
unfoldable pub stated_length : Bytes → ℕ → ℕ
stated_length [] n = n
stated_length (b ∷ bs) n = stated_length bs ((n * 10 + (b + 256 - b'0') % 256) % 2 ^ 64)

-- The variables of the field loop; `done` after the checksum field.
pub record Loop : Type 0 where
  pub view : MessageView
  pub pos : ℕ
  pub field_num : ℕ
  pub body_start : ℕ
  pub stated_body_length : ℕ

-- `match field_num`: what the first three fields must be.
unfoldable pub check_structure : ℕ → ℕ → Option ParseError
check_structure zero tag = if tag == Tags.begin_string then none else some missing_begin_string
check_structure (suc zero) tag = if tag == Tags.body_length then none else some missing_body_length
check_structure (suc (suc zero)) tag = if tag == Tags.msg_type then none else some missing_msg_type
check_structure _ tag = none

-- The rest of a round, with the field's tag, its value's place and the position behind its SOH.
unfoldable pub take_field : Loop → ℕ → ℕ → ℕ → ℕ → Loop
take_field s tag value_start value_len pos =
    let bytes = take value_len (drop value_start s.view.buffer) in
    let second = s.field_num == 1 in
    record {
      view = add_field s.view tag (value_start % 2 ^ 32) (value_len % 2 ^ 16);
      pos = pos;
      field_num = s.field_num + 1;
      body_start = if second then pos else s.body_start;
      stated_body_length = if second then stated_length bytes 0 else s.stated_body_length;
    }

abbrev and_then {ℓ} :
    {A : Type 0} {B : Type ℓ}
    → Result A ParseError
    → (A → Result B ParseError)
    → Result B ParseError
and_then (ok a) f = f a
and_then (err e) f = err e

abbrev check : {B : Type 0} → Option ParseError → Result B ParseError → Result B ParseError
check none next = next
check (some e) next = err e

-- `while pos < len`: one field a round. The fuel bounds the rounds; where it is out, so are the
-- bytes, since a round takes two bytes at least and the fuel starts at the number of bytes.
unfoldable pub parse_fields : ℕ → Bytes → Loop → Result Loop ParseError
parse_fields zero rest s = ok s
parse_fields (suc fuel) [] s = ok s
parse_fields (suc fuel) (b ∷ bs) s = and_then (scan_tag (b ∷ bs) 0 s.pos) λ t.
    and_then (scan_value t.rest 0 t.pos) λ v.
      let next = take_field s t.scanned t.pos v.scanned v.pos in
      let more = parse_fields fuel v.rest next in
      check (check_structure s.field_num t.scanned)
        (if t.scanned == Tags.checksum then ok next else more)

-- `find_checksum_tag_start`: behind the last SOH in front of "10=", and 0 where there is none.
unfoldable pub find_checksum_tag_start : Bytes → ℕ → ℕ
find_checksum_tag_start buffer end =
    if ltb end 7 then 0 else Checksum.start_of (Checksum.find_trailer_below (end - 4) buffer)

-- The test of the body length behind the loop; `usize` subtraction wraps.
unfoldable pub body_length_wrong : FixParser → Bytes → Loop → Bool
body_length_wrong p buffer s =
    let start = find_checksum_tag_start buffer s.pos in
    p.validate_body_length
    && ltb 0 s.body_start
    && ltb 0 start
    && not ((start + 2 ^ 64 - s.body_start) % 2 ^ 64 == s.stated_body_length)

unfoldable pub finish : FixParser → Bytes → Loop → Result (MessageView × ℕ) ParseError
finish p buffer s =
    let valid = Checksum.validate (take s.pos buffer) in
    if body_length_wrong p buffer s
    then err invalid_body_length
    else if not p.validate_checksum
    then ok (set_checksum_valid s.view true, s.pos)
    else if valid
    then ok (set_checksum_valid s.view true, s.pos)
    else err invalid_checksum

abbrev pub initial : Bytes → Loop
initial buffer = record {
  view = Message.new buffer;
  pos = 0;
  field_num = 0;
  body_start = 0;
  stated_body_length = 0;
}

unfoldable pub parse : FixParser → Bytes → Result (MessageView × ℕ) ParseError
parse p buffer =
    if ltb (length buffer) 20
    then err buffer_too_short
    else if ltb p.max_message_size (length buffer)
    then err message_too_large
    else and_then (parse_fields (length buffer) buffer (initial buffer)) (finish p buffer)

-- `buffer[i..]` begins with SOH, "10=", three bytes and SOH.
pub boundary_at : Bytes → ℕ → Bool
boundary_at buffer i = Checksum.is_trailer_at buffer i && get_or buffer (i + 7) 0 == Tags.soh

-- `while i + 8 <= len`, on the number of places left.
pub scan_boundary : ℕ → Bytes → ℕ → Option ℕ
unfolding boundary_at
scan_boundary zero buffer i = none
scan_boundary (suc n) buffer i =
    let more = scan_boundary n buffer (i + 1) in if boundary_at buffer i then some (i + 8) else more

-- With fewer than eight bytes there is no place for the pattern.
unfoldable pub find_message_boundary : Bytes → Option ℕ
unfolding scan_boundary
find_message_boundary buffer =
    if ltb (length buffer) 7 then none else scan_boundary (length buffer - 7) buffer 0

-- ===== src/Dictionary/Compile.antt =====
-- src/dict_compiler.rs: the messages of a dictionary, and `from_xml`.
use fix_engine.Base.{
  Bool, Bytes, List, Option, [], bytes_eq, codes, drop, err, false, if◌then◌else◌, length, ltb,
  none, ok, panics, returns, some, suc, take, true, zero, ℕ, ◌++◌, ◌+◌, ◌>>=◌, ◌∷◌,
}
use fix_engine.Dictionary.{
  CompiledDictionary, CompiledFieldDef, CompiledMessageDef, MessageCategory, admin, application,
  build_tag_index, missing_attribute, parse_error,
}
use fix_engine.Dictionary.Scan.{
  Compiled, extract_attr, find, next_tag, ok_or, ok_then, parse_fields, push, section_of,
}

-- The last field of a name: a later entry of the map replaces an earlier one.
unfoldable pub tag_of : List CompiledFieldDef → Bytes → Option ℕ → Option ℕ
unfolding bytes_eq
tag_of [] name found = found
tag_of (f ∷ fs) name found = tag_of fs name (if bytes_eq f.name name then some f.tag else found)

abbrev is_required : Option Bytes → Bool
is_required none = false
is_required (some v) = bytes_eq v (codes "Y")

-- The required and the optional fields.
abbrev pub FieldLists : Type 0
FieldLists = List ℕ × List ℕ

abbrev sorted_in : Option ℕ → Bool → FieldLists → FieldLists
sorted_in none required lists = lists
sorted_in (some tag) true lists = (tag ∷ lists.0, lists.1)
sorted_in (some tag) false lists = (lists.0, tag ∷ lists.1)

abbrev named_tag : List CompiledFieldDef → Option Bytes → Option ℕ
named_tag fields none = none
named_tag fields (some name) = tag_of fields name none

-- `while fpos < msg_body.len()`, on fuel as in the other loops.
unfoldable pub field_lists : List CompiledFieldDef → ℕ → Bytes → FieldLists
unfolding next_tag extract_attr tag_of
field_lists fields zero body = ([], [])
field_lists fields (suc fuel) body = elim (next_tag (codes "<field ") body) [
  | none ↦ ([], [])
  | some (field_tag, behind) ↦
      sorted_in (named_tag fields (extract_attr field_tag (codes "name")))
        (is_required (extract_attr field_tag (codes "required"))) (field_lists fields fuel behind)
]

abbrev category_of : Bytes → MessageCategory
category_of msgcat = if bytes_eq msgcat (codes "admin") then admin else application

-- The attributes of a `<message>`: its name, type and category.
unfoldable pub message_header : Bytes → Compiled (Bytes × (Bytes × MessageCategory))
unfolding extract_attr
message_header msg_tag =
    ok_then (ok_or (extract_attr msg_tag (codes "name")) (missing_attribute (codes "message name")))
      λ name.
        ok_then
          (ok_or (extract_attr msg_tag (codes "msgtype"))
            (missing_attribute (codes "message msgtype")))
          λ msg_type.
            ok_then
              (ok_or (extract_attr msg_tag (codes "msgcat"))
                (missing_attribute (codes "message msgcat")))
              λ msgcat. returns (ok (name, (msg_type, category_of msgcat)))

-- A message with its tag read, up to `</message>`: the definition and what is behind it, or nothing
-- where nothing closes it. The slice of the body panics where it would end before it starts.
abbrev pub closed_message :
    List CompiledFieldDef
    → Bytes
    → ℕ
    → Bytes × (Bytes × MessageCategory)
    → Option ℕ
    → Compiled (Option (CompiledMessageDef × Bytes))
closed_message fields from header_end header none = returns (ok none)
closed_message fields from header_end (name, (msg_type, category)) (some close) =
    let body = drop (header_end + 1) (take close from) in
    let lists = field_lists fields (length body) body in
    if ltb close (header_end + 1)
    then panics
    else returns (
        ok (
          some (
            record {
              msg_type = msg_type;
              name = name;
              category = category;
              required_fields = lists.0;
              optional_fields = lists.1;
            },
            drop (close + 10) from,
          )))

abbrev pub tagged_message :
    List CompiledFieldDef → Bytes → Option ℕ → Compiled (Option (CompiledMessageDef × Bytes))
tagged_message fields from none = returns (ok none)
tagged_message fields from (some header_end) =
    ok_then (message_header (take (header_end + 1) from))
      λ header. closed_message fields from header_end header (find (codes "</message>") from)

abbrev pub opened_message :
    List CompiledFieldDef → Bytes → Option ℕ → Compiled (Option (CompiledMessageDef × Bytes))
opened_message fields rest none = returns (ok none)
opened_message fields rest (some start) =
    let from = drop start rest in tagged_message fields from (find (b'>' ∷ []) from)

unfoldable pub next_message :
    List CompiledFieldDef → Bytes → Compiled (Option (CompiledMessageDef × Bytes))
unfolding find message_header field_lists
next_message fields rest = opened_message fields rest (find (codes "<message ") rest)

-- A turn of the loop below, with the turns behind it.
abbrev pub message_turn :
    (Bytes → Compiled (List CompiledMessageDef))
    → Option (CompiledMessageDef × Bytes)
    → Compiled (List CompiledMessageDef)
message_turn loop none = returns (ok [])
message_turn loop (some (message, behind)) = push (returns (ok message)) (loop behind)

-- `while pos < msgs_section.len()`, on fuel as in the other loops.
unfoldable pub message_loop : List CompiledFieldDef → ℕ → Bytes → Compiled (List CompiledMessageDef)
unfolding next_message
message_loop fields zero rest = returns (ok [])
message_loop fields (suc fuel) rest =
    ok_then (next_message fields rest) (message_turn (message_loop fields fuel))

unfoldable pub parse_messages : List CompiledFieldDef → Bytes → Compiled (List CompiledMessageDef)
unfolding section_of message_loop
parse_messages fields xml =
    ok_then
      (section_of (codes "<messages>") (codes "</messages>")
        (parse_error (codes "unclosed <messages> section")) xml)
      λ section. message_loop fields (length section) section

-- The text of the `<fix>` tag.
abbrev fix_end : Bytes → Option ℕ → Compiled Bytes
fix_end from none = returns (err (parse_error (codes "unclosed <fix> tag")))
fix_end from (some end) = returns (ok (take (end + 1) from))

abbrev fix_tag : Bytes → Option ℕ → Compiled Bytes
fix_tag xml none = returns (err (parse_error (codes "no <fix> tag found")))
fix_tag xml (some start) = let from = drop start xml in fix_end from (find (b'>' ∷ []) from)

unfoldable pub parse_version : Bytes → Compiled Bytes
unfolding find extract_attr
parse_version xml = ok_then (fix_tag xml (find (codes "<fix ") xml)) λ tag.
    ok_then (ok_or (extract_attr tag (codes "major")) (missing_attribute (codes "major"))) λ major.
      ok_then (ok_or (extract_attr tag (codes "minor")) (missing_attribute (codes "minor")))
        λ minor. returns (ok (codes "FIX." ++ (major ++ (b'.' ∷ minor))))

unfoldable pub from_xml : Bytes → Compiled CompiledDictionary
unfolding parse_version parse_fields parse_messages build_tag_index
from_xml xml = ok_then (parse_version xml) λ version. ok_then (parse_fields xml) λ fields.
    ok_then (parse_messages fields xml) λ messages. build_tag_index fields >>= λ index.
    returns (
      ok
        (record { fix_version = version; fields = fields; messages = messages; tag_index = index }))

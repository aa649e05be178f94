-- ===== src/Groups/Tests.antt =====
-- Runs of src/groups.rs on small messages.
use fix_engine.Serializer.{checksum_field}
use fix_engine.Checksum.{compute}
use fix_engine.Groups.Depth.{parse_to-enough}
use fix_engine.Parser.Framed.{message_fields, body}
use fix_engine.Parser.Parsed.{parsed_view}
use fix_engine.Decimal.{decimal, emit, padded}
use fix_engine.Groups.Flat.{Item, as_entries}
use fix_engine.Groups.Conforms.{parse-Conforms}
use fix_engine.Groups.Shape.{Conforms, size}
use fix_engine.Groups.Wire.{with_group, parse-with_group}
use fix_engine.Base.{
  Bytes, List, [], arith, codes, inr, length, ok, panics, refl, returns, some, ℕ, ◌++◌, ◌+◌, ◌∷◌,
  ◌≡◌, ◌≤◌,
}
use fix_engine.Message.{FieldEntry, MessageView}
use fix_engine.Parser
use fix_engine.Serializer.Finalize.{message, head}
use fix_engine.Parser.View.{Field}
use fix_engine.Groups.{
  parse, md_entries_group, group, and_entry, entry, no_groups, no_entries, Cursor, height,
  RepeatingGroup, parse_to, members, is_member,
}

abbrev at : ℕ → ℕ → ℕ → FieldEntry
at tag offset length = record { tag = tag; offset = offset; length = length }

-- 268=2|269=0|270=5|269=1|270=7|10=1, the values one behind another.
abbrev values : Bytes
values = codes "2051710"

abbrev fields : List FieldEntry
fields = at 268 0 1 ∷ (at 269 1 1 ∷ (at 270 2 1 ∷ (at 269 3 1 ∷ (at 270 4 1 ∷ (at 10 5 1 ∷ [])))))

abbrev book : RepeatingGroup
book = group 268 2 (
    and_entry (entry ((269, codes "0") ∷ ((270, codes "5") ∷ [])) no_groups)
      (and_entry (entry ((269, codes "1") ∷ ((270, codes "7") ∷ [])) no_groups) no_entries))

parsed : parse values fields 0 md_entries_group ≡ returns (some (book, 5))
unfolding parse
parsed = refl

parse-Conforms_example : Conforms md_entries_group book × (5 ≡ 0 + size book) × (5 ≤ length fields)
parse-Conforms_example = parse-Conforms values fields 0 md_entries_group book 5 parsed

-- A count that no vector can hold ends the thread.
too_many : parse (codes "999999999999999999") (at 268 0 18 ∷ []) 0 md_entries_group ≡ panics
unfolding parse
too_many = refl

abbrev start : Cursor
start = record { idx = 0; rest = fields }

parse_to-enough_example :
    (parse_to 1 values md_entries_group start ≡ parse_to 3 values md_entries_group start)
    × (members (parse_to 1 values) values md_entries_group 6 start
        ≡ members (parse_to 3 values) values md_entries_group 9 start)
unfolding height
parse_to-enough_example =
    parse_to-enough 1 3 6 9 values md_entries_group start (omega arith) (omega arith) (omega arith)
      (omega arith)

abbrev quotes : List Item
quotes = (codes "0", (270, codes "5") ∷ []) ∷ ((codes "1", []) ∷ [])

abbrev inner : List Field
inner = with_group ((55, codes "AAPL") ∷ []) 268 269 quotes []

abbrev update : Bytes
update = message (codes "FIX.4.4") (body (codes "FIX.4.4") (codes "X") inner)

abbrev update_view : MessageView
update_view = parsed_view (update ++ []) (message_fields (codes "FIX.4.4") (codes "X") inner)

parse-with_group_example :
    (Parser.parse Parser.new (update ++ []) ≡ ok (update_view, length update))
    × (parse update_view.buffer update_view.fields (3 + 1) md_entries_group
        ≡ returns (some (group 268 2 (as_entries 269 quotes), 3 + 1 + 1 + 3)))
unfolding decimal emit message padded compute head checksum_field is_member
parse-with_group_example =
    parse-with_group (codes "FIX.4.4") (codes "X") [] ((55, codes "AAPL") ∷ []) 268 269
      (269 ∷ (270 ∷ (271 ∷ (279 ∷ [])))) quotes [] (ground arith) (ground arith) (ground arith)
      (omega arith) (omega arith) (ground arith) (inr refl)

-- ===== src/Parser/Tests.antt =====
-- Runs of src/parser.rs on concrete fields.
use fix_engine.Base.{
  Bytes, List, [], arith, codes, drop, length, ok, refl, replicate, returns, some, ◌++◌, ◌∷◌, ◌≡◌,
}
use fix_engine.Parser.{Loop, parse_fields, initial}
use fix_engine.Parser.View.{Field}
use fix_engine.Decimal.{decimal, emit}
use fix_engine.Message.{get_field}
use fix_engine.Parser.{parse}
use fix_engine.Parser.Parsed.{all_fields, parsed_view}
use fix_engine.Checksum.Validate.{trailer}
use fix_engine.Checksum.{is_trailer_at}
use fix_engine.Parser.Ends.{first_end, find_message_boundary-first_end}
use fix_engine.Parser.{boundary_at, scan_boundary, find_message_boundary}
use fix_engine.Parser.Fuel.{parse_fields-fuel}
use fix_engine.Parser.{new}
use fix_engine.Checksum.{compute}
use fix_engine.Decimal.{padded}
use fix_engine.Parser.Framed.{body, message_fields}
use fix_engine.Parser.Strict.{parse-message}
use fix_engine.Serializer.Finalize.{message}
use fix_engine.Serializer.Finalize.{head}
use fix_engine.Serializer.{checksum_field}
use fix_engine.Message.{msg_seq_num, get_field_i64}
use fix_engine.Message.Numbers.{signed_decimal}
use fix_engine.Parser.Built.{order_fields, parse-build_new_order_single}
use fix_engine.Serializer.Build.{build_new_order_single}
use fix_engine.Serializer.Builders.{build_new_order_single_lem}
use fix_engine.Serializer.Contract.{serialized}
use fix_engine.Serializer.Writers.{field, wire}

abbrev order : List Field
order = (55, codes "AAPL") ∷ (54, codes "1") ∷ []

abbrev third : Loop
third = record (initial (wire order ++ (field 10 (codes "000") ++ []))) { field_num = 3 }

abbrev trailing : Bytes
trailing = codes "8=FIX"

abbrev whole : List Field
whole = all_fields (codes "FIX.4.4") (codes "20") (codes "D") order (codes "000")

abbrev framed : Bytes
framed = codes "58=x" ++ trailer b'1' b'2' b'3'

-- A message's end may stand at the eighth place.
ends_at_eight : find_message_boundary (trailer b'1' b'2' b'3') ≡ some 8
unfolding find_message_boundary scan_boundary boundary_at is_trailer_at
ends_at_eight = refl

find_message_boundary-first_end_example : find_message_boundary framed ≡ first_end framed 0
find_message_boundary-first_end_example = find_message_boundary-first_end framed

parse_fields-fuel_example :
    parse_fields 4 (codes "58=x") third ≡ parse_fields 40 (codes "58=x") third
parse_fields-fuel_example = parse_fields-fuel 4 40 (codes "58=x") third (omega arith) (omega arith)

parse-message_example :
    let buffer = message (codes "FIX.4.4") (body (codes "FIX.4.4") (codes "D") order) ++ trailing in
    let view = parsed_view buffer (message_fields (codes "FIX.4.4") (codes "D") order) in
    (parse new buffer
      ≡ ok (view, length (message (codes "FIX.4.4") (body (codes "FIX.4.4") (codes "D") order))))
    × (get_field view 54 ≡ returns (some (codes "1")))
unfolding decimal emit message padded compute head checksum_field
parse-message_example =
    parse-message (codes "FIX.4.4") (codes "D") trailing order 54 (ground arith) (ground arith)
      (ground arith) (omega arith) (omega arith)

abbrev space : Bytes
space = replicate 300 0

abbrev bought : List Field
bought =
    order_fields (codes "BUY") (codes "SELL") 2 (codes "noon") (codes "O1") (codes "AAPL") b'1' 100
      b'2' (codes "150.25")

abbrev order_message : Bytes
order_message = message (codes "FIX.4.4") (body (codes "FIX.4.4") (codes "D") bought)

abbrev order_out : Bytes
order_out = order_message ++ drop (length order_message) space

built_order :
    build_new_order_single space
      (codes "FIX.4.4")
      (codes "BUY")
      (codes "SELL")
      2
      (codes "noon")
      (codes "O1")
      (codes "AAPL")
      b'1'
      100
      b'2'
      (codes "150.25")
    ≡ returns (order_out, length order_message)
unfolding serialized message head checksum_field compute decimal emit padded signed_decimal
built_order =
    build_new_order_single_lem space (codes "FIX.4.4") (codes "BUY") (codes "SELL") 2 (codes "noon")
      (codes "O1") (codes "AAPL") b'1' 100 b'2' (codes "150.25") (omega arith) (omega arith)

parse-build_new_order_single_example :
    let view = parsed_view order_out (message_fields (codes "FIX.4.4") (codes "D") bought) in
    (parse new order_out ≡ ok (view, length order_message))
    × (get_field view 11 ≡ returns (some (codes "O1")))
    × (get_field view 55 ≡ returns (some (codes "AAPL")))
    × (get_field view 54 ≡ returns (some (b'1' ∷ [])))
    × (get_field view 40 ≡ returns (some (b'2' ∷ [])))
    × (get_field view 44 ≡ returns (some (codes "150.25")))
    × (msg_seq_num view ≡ returns (some 2))
    × (get_field_i64 view 38 ≡ returns (some 100))
parse-build_new_order_single_example =
    parse-build_new_order_single
      (record { texts = ground arith; bytes = omega arith; numbers = omega arith }) space order_out
      (length order_message) (omega arith) built_order

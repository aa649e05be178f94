-- ===== src/Parser/Built.antt =====
-- From src/serializer.rs to src/parser.rs: an order that was built is parsed to the same order.
use fix_engine.Base.{
  All, Bytes, Lacks, List, [], ap, arith, codes, drop, length, length-append, length-drop, ok,
  returns, some, sym, ℕ, ◌++◌, ◌<◌, ◌^◌, ◌∙◌, ◌∷◌, ◌≡◌, ◌≢◌, ◌≤◌,
}
use fix_engine.Decimal.{decimal}
use fix_engine.Message.{
  MessageView, msg_seq_num, neg64, get_field, get_field_i64, get_field_u64, neg64,
}
use fix_engine.Message.Numbers.{
  signed_decimal, parse_i64-signed_decimal, parse_u64-decimal, decimal_digits,
}
use fix_engine.Parser.{parse, new}
use fix_engine.Parser.Framed.{body, message_fields}
use fix_engine.Parser.Parsed.{parsed_view}
use fix_engine.Parser.Strict.{parse-message, digits-Lacks}
use fix_engine.Parser.View.{Field, lookup}
use fix_engine.Parser.Wire.{IsInner}
use fix_engine.Serializer.Build.{build_new_order_single}
use fix_engine.Serializer.Builders.{build_new_order_single_lem}
use fix_engine.Serializer.Contract.{serialized}
use fix_engine.Serializer.Finalize.{message}
use fix_engine.Serializer.Writers.{wire}

serialized-returns :
    (space beg typ out : Bytes) (n : ℕ) (fs : List Field)
    → serialized space beg typ (wire fs) ≡ returns (out, n)
    → let msg = message beg (body beg typ fs) in
      (out ≡ msg ++ drop (length msg) space) × (n ≡ length msg) × (length msg ≤ length space)
unfolding serialized
serialized-returns space beg typ out n fs h = ground arith

-- What a builder returned is parsed back: the whole message, with its length, and the fields that
-- were written, for fields that the wire can carry and a buffer of at most 65536 bytes.
pub parse-serialized :
    (space beg typ out : Bytes) (n t : ℕ) (fs : List Field)
    → serialized space beg typ (wire fs) ≡ returns (out, n)
    → Lacks 1 beg
    → Lacks 1 typ
    → All IsInner fs
    → length fs ≤ 508
    → length space ≤ 65_536
    → let view = parsed_view out (message_fields beg typ fs) in
      (parse new out ≡ ok (view, n))
      × (get_field view t ≡ returns (lookup t (message_fields beg typ fs)))
parse-serialized space beg typ out n t fs h hb ht hs few high =
    let (written, size, room) = serialized-returns space beg typ out n fs h in
    let msg = message beg (body beg typ fs) in
    let rest = drop (length msg) space in
    let fits : length (msg ++ rest) ≤ 65_536 =
      omega (arith, length-append msg rest, length-drop (length msg) space) in
    rw (written, size) (parse-message beg typ rest fs t hb ht hs few fits)

decimal-Lacks : (n : ℕ) → Lacks 1 (decimal n)
decimal-Lacks n = digits-Lacks (decimal n) (decimal_digits n)

signed_decimal-Lacks : (w : ℕ) → Lacks 1 (signed_decimal w)
unfolding signed_decimal
signed_decimal-Lacks w = ground (arith, decimal-Lacks w, decimal-Lacks (neg64 w))

-- The fields of an order behind its type, as `build_new_order_single` writes them.
abbrev pub order_fields : Bytes → Bytes → ℕ → Bytes → Bytes → Bytes → ℕ → ℕ → ℕ → Bytes → List Field
order_fields sender target seq_num sending_time cl_ord_id symbol side qty ord_type price =
    (49, sender)
    ∷ (56, target)
    ∷ (34, decimal seq_num)
    ∷ (52, sending_time)
    ∷ (11, cl_ord_id)
    ∷ (55, symbol)
    ∷ (54, side ∷ [])
    ∷ (38, signed_decimal qty)
    ∷ (40, ord_type ∷ [])
    ∷ (44, price)
    ∷ (60, sending_time)
    ∷ (21, codes "1")
    ∷ []

-- The arguments of an order that the wire can carry.
pub record IsOrder (beg sender target : Bytes) (seq_num : ℕ) (sending_time cl_ord_id symbol : Bytes)
    (side qty ord_type : ℕ) (price : Bytes) : Type 0 where
  pub texts :
      Lacks 1 beg
      × Lacks 1 sender
      × Lacks 1 target
      × Lacks 1 sending_time
      × Lacks 1 cl_ord_id
      × Lacks 1 symbol
      × Lacks 1 price
  pub bytes : (side ≢ 1) × (ord_type ≢ 1)
  pub numbers : (seq_num < 2 ^ 64) × (qty < 2 ^ 64)

field_u64 :
    (view : MessageView) (t n : ℕ)
    → get_field view t ≡ returns (some (decimal n))
    → n < 2 ^ 64
    → get_field_u64 view t ≡ returns (some n)
unfolding get_field_u64
field_u64 view t n h small = rw h (ap returns (parse_u64-decimal n small))

field_i64 :
    (view : MessageView) (t w : ℕ)
    → get_field view t ≡ returns (some (signed_decimal w))
    → w < 2 ^ 64
    → get_field_i64 view t ≡ returns (some w)
unfolding get_field_i64
field_i64 view t w h small = rw h (ap returns (parse_i64-signed_decimal w small))

module _ {beg sender target : Bytes} {seq_num : ℕ} {sending_time cl_ord_id symbol : Bytes}
    {side qty ord_type : ℕ} {price : Bytes}
    (o : IsOrder beg sender target seq_num sending_time cl_ord_id symbol side qty ord_type
      price) where
  abbrev fields : List Field
  fields = order_fields sender target seq_num sending_time cl_ord_id symbol side qty ord_type price

  fields-IsInner : All IsInner fields
  fields-IsInner =
      let (beg_ok, sender_ok, target_ok, time_ok, order_ok, symbol_ok, price_ok) = o.texts in
      (
        (omega arith, sender_ok, omega arith),
        (
          (omega arith, target_ok, omega arith),
          (
            (omega arith, decimal-Lacks seq_num, omega arith),
            (
              (omega arith, time_ok, omega arith),
              (
                (omega arith, order_ok, omega arith),
                (
                  (omega arith, symbol_ok, omega arith),
                  (
                    (omega arith, (o.bytes.0, tt), omega arith),
                    (
                      (omega arith, signed_decimal-Lacks qty, omega arith),
                      (
                        (omega arith, (o.bytes.1, tt), omega arith),
                        (
                          (omega arith, price_ok, omega arith),
                          (
                            (omega arith, time_ok, omega arith),
                            ((omega arith, (omega arith), omega arith), tt),
                          ),
                        ),
                      ),
                    ),
                  ),
                ),
              ),
            ),
          ),
        ),
      )

  -- An order with arguments that the wire can carry (no delimiter in the texts and the two bytes,
  -- numbers below 2 ^ 64) that was built in a buffer of at most 65536 bytes is parsed, with both
  -- validations, to a message of the returned length that holds the order: its identifier, symbol,
  -- side, type and price as given, its sequence number, and its quantity as a signed number.
  pub parse-build_new_order_single :
      (space out : Bytes) (n : ℕ)
      → length space ≤ 65_536
      → build_new_order_single space beg sender target seq_num sending_time cl_ord_id symbol side
          qty ord_type price
        ≡ returns (out, n)
      → let view = parsed_view out (message_fields beg (codes "D") fields) in
        (parse new out ≡ ok (view, n))
        × (get_field view 11 ≡ returns (some cl_ord_id))
        × (get_field view 55 ≡ returns (some symbol))
        × (get_field view 54 ≡ returns (some (side ∷ [])))
        × (get_field view 40 ≡ returns (some (ord_type ∷ [])))
        × (get_field view 44 ≡ returns (some price))
        × (msg_seq_num view ≡ returns (some seq_num))
        × (get_field_i64 view 38 ≡ returns (some qty))
  unfolding msg_seq_num
  parse-build_new_order_single space out n high built =
      let view = parsed_view out (message_fields beg (codes "D") fields) in
      let written =
        sym (
          build_new_order_single_lem space beg sender target seq_num sending_time cl_ord_id symbol
            side qty ord_type price o.numbers.0 o.numbers.1)
        ∙ built in
      let at = λ (t : ℕ).
        parse-serialized space beg (codes "D") out n t fields written o.texts.0 (omega arith)
          fields-IsInner (omega arith) high in
      (
        (at 0).0,
        (at 11).1,
        (at 55).1,
        (at 54).1,
        (at 40).1,
        (at 44).1,
        field_u64 view 34 seq_num (at 34).1 o.numbers.0,
        field_i64 view 38 qty (at 38).1 o.numbers.1,
      )

-- ===== src/Parser/Strict.antt =====
-- src/parser.rs with its validations, on what src/serializer.rs writes.
use fix_engine.Base.{
  All, Bytes, IsDigit, Lacks, List, [], ap, append-nil, append_assoc, arith, false, length,
  length-append, le→not_ltb, ok, returns, sym, take, take-length_append, true, value, ℕ, ◌%◌, ◌++◌,
  ◌+◌, ◌/◌, ◌<◌, ◌^◌, ◌∙◌, ◌∷◌, ◌≡◌, ◌≤◌,
}
use fix_engine.Checksum
use fix_engine.Checksum.Compute.{compute-lt, format_digits}
use fix_engine.Checksum.Validate.{validate-append, trailer}
use fix_engine.Decimal.{decimal, emit, length-padded, padded_digits, value-padded}
use fix_engine.Message.{get_field, set_checksum_valid}
use fix_engine.Parser.{
  Loop, take_field, parse_fields, initial, parse, new, finish, body_length_wrong,
  find_checksum_tag_start,
}
use fix_engine.Parser.Framed.{
  body, stated, sum_field, message_fields, head-fields, message-wire, head-end, message-trailer,
  find_checksum_tag_start-between,
}
use fix_engine.Parser.Header.{second, body_start-second, stated-second, advances_keeps}
use fix_engine.Parser.Parsed.{parsed_view, advances-Ran, loop, length-all, get_field-parsed}
use fix_engine.Parser.View.{Field, lookup, length-field}
use fix_engine.Parser.Wire.{IsInner, advances}
use fix_engine.Serializer.Finalize.{head, message}
use fix_engine.Serializer.Writers.{field, wire}

body_length_right :
    (buffer : Bytes) (s : Loop) (start : ℕ)
    → find_checksum_tag_start buffer s.pos ≡ start
    → s.body_start + s.stated_body_length ≡ start
    → start < 2 ^ 64
    → body_length_wrong new buffer s ≡ false
unfolding body_length_wrong
body_length_right buffer s start found sums fits = rw found (ground arith)

finish-valid :
    (buffer : Bytes) (s : Loop)
    → body_length_wrong new buffer s ≡ false
    → Checksum.validate (take s.pos buffer) ≡ true
    → finish new buffer s ≡ ok (set_checksum_valid s.view true, s.pos)
unfolding finish
finish-valid buffer s right valid = rw (right, valid)

parse-checked :
    (buffer : Bytes) (s : Loop)
    → 20 ≤ length buffer
    → length buffer ≤ 65_536
    → parse_fields (length buffer) buffer (initial buffer) ≡ ok s
    → finish new buffer s ≡ ok (set_checksum_valid s.view true, s.pos)
    → parse new buffer ≡ ok (set_checksum_valid s.view true, s.pos)
unfolding parse
parse-checked buffer s low high h k =
    rw (le→not_ltb (length buffer) 20 low, le→not_ltb 65_536 (length buffer) high, h) k

pub digits-Lacks : (ds : Bytes) → All IsDigit ds → Lacks 1 ds
digits-Lacks [] h = tt
digits-Lacks (d ∷ ds) (h, hs) = (omega arith, digits-Lacks ds hs)

-- The trailer that states the checksum of what stands before it is valid.
validate-trailer :
    (pre : Bytes)
    → let c = Checksum.compute (pre ++ 1 ∷ []) in
      Checksum.validate (pre ++ trailer (b'0' + c / 100) (b'0' + c / 10 % 10) (b'0' + c % 10))
      ≡ true
unfolding Checksum.format
validate-trailer pre =
    let c = Checksum.compute (pre ++ 1 ∷ []) in
    let ((dh, (dt, (do', _))), same, _) = format_digits c (compute-lt (pre ++ 1 ∷ [])) in
    validate-append pre _ _ _ dh dt do' ∙ ground (arith, same, compute-lt (pre ++ 1 ∷ []))

module _ (beg typ trailing : Bytes) (fs : List Field) where
  abbrev len : Bytes
  len = stated beg typ fs

  abbrev cs : Bytes
  cs = sum_field beg typ fs

  abbrev all : List Field
  all = message_fields beg typ fs

  abbrev buffer : Bytes
  buffer = wire all ++ trailing

  abbrev s : Loop
  s = advances (initial buffer) all

  stated_digits : All IsDigit len
  stated_digits = padded_digits 6 (length (body beg typ fs)) [] tt

  sum_digits : All IsDigit cs
  sum_digits = (format_digits (Checksum.compute (head beg (body beg typ fs))) (compute-lt _)).0

  -- The place behind the body, seen from the end.
  record Ending : Type 0 where
    pre : Bytes
    digits : ℕ × ℕ × ℕ
    front : head beg (body beg typ fs) ≡ pre ++ 1 ∷ []
    whole : wire all ≡ pre ++ trailer digits.0 digits.1 digits.2
    valid : Checksum.validate (wire all) ≡ true

  ending : Ending
  ending =
      let (pre, e) = head-end beg typ fs in
      let c = Checksum.compute (pre ++ 1 ∷ []) in
      let digits : ℕ × ℕ × ℕ = (b'0' + c / 100, b'0' + c / 10 % 10, b'0' + c % 10) in
      let split : wire all ≡ pre ++ trailer digits.0 digits.1 digits.2 =
        sym (message-wire beg typ fs)
        ∙ sym (append-nil (message beg (body beg typ fs)))
        ∙ message-trailer beg typ fs pre [] e in
      record {
        pre = pre;
        digits = digits;
        front = e;
        whole = split;
        valid = ap Checksum.validate split ∙ validate-trailer pre;
      }

  open ending use {pre, digits, front, whole, valid}

  length-whole : length (wire all) ≡ length pre + 8
  length-whole = ap length whole ∙ length-append pre (trailer digits.0 digits.1 digits.2)

  length-body :
      length (field 8 beg) + length (field 9 len) + length (body beg typ fs) ≡ length pre + 1
  length-body = omega (
    arith,
    ap length (head-fields beg typ fs),
    ap length front,
    length-append pre (1 ∷ []),
    length-append (field 8 beg) (field 9 len ++ body beg typ fs),
    length-append (field 9 len) (body beg typ fs),
  )

  tag_start :
      (end : ℕ) → end ≡ length (wire all) → find_checksum_tag_start buffer end ≡ length pre + 1
  tag_start end e =
      let split : buffer ≡ pre ++ (trailer digits.0 digits.1 digits.2 ++ trailing) =
        ap (λ l. l ++ trailing) whole ∙ append_assoc pre _ trailing in
      rw split (
        find_checksum_tag_start-between pre trailing digits.0 digits.1 digits.2 end
          (e ∙ length-whole))

  -- The stated length is that of the body.
  header_kept :
      length (body beg typ fs) < 1_000_000
      → (s.body_start ≡ length (field 8 beg) + length (field 9 len))
        × (s.stated_body_length ≡ length (body beg typ fs))
  unfolding take_field
  header_kept small =
      let n = length (body beg typ fs) in
      let rest = (35, typ) ∷ (fs ++ (10, cs) ∷ []) in
      let value_len : value 0 len ≡ n = value-padded 6 n [] small in
      let (b, m) = advances_keeps rest (second buffer beg len) (omega arith) in
      let split : buffer ≡ field 8 beg ++ (field 9 len ++ (wire rest ++ trailing)) =
        append_assoc (field 8 beg) _ trailing
        ∙ ap (◌++◌ (field 8 beg)) (append_assoc (field 9 len) _ trailing) in
      (
        b ∙ body_start-second buffer beg len,
        m
            ∙ stated-second buffer beg len (wire rest ++ trailing) split stated_digits (omega arith)
            ∙ value_len,
      )

  -- The loop's last position is the end of the message.
  pos-end : length fs ≤ 508 → length buffer ≤ 65_536 → s.pos ≡ length (wire all)
  pos-end few high =
      let (b, f, p) =
        advances-Ran all (initial buffer) (omega (arith, length-append (wire all) trailing))
          (omega (arith, length-all beg len typ cs trailing fs)) in
      omega (arith, p)

  finish_lem :
      length fs ≤ 508
      → length buffer ≤ 65_536
      → finish new buffer s ≡ ok (set_checksum_valid s.view true, s.pos)
  finish_lem few high =
      let at_end = pos-end few high in
      let sizes = length-append (wire all) trailing in
      let (b, m) = header_kept (omega (arith, length-body, length-whole, sizes)) in
      finish-valid buffer s
        (body_length_right buffer s (length pre + 1) (tag_start s.pos at_end)
          (omega (arith, b, m, length-body)) (omega (arith, length-whole, sizes)))
        (ap Checksum.validate (take-length_append s.pos (wire all) trailing at_end) ∙ valid)

  parse-fields :
      Lacks 1 beg
      → Lacks 1 typ
      → All IsInner fs
      → length fs ≤ 508
      → length buffer ≤ 65_536
      → parse new buffer ≡ ok (parsed_view buffer all, length (wire all))
  unfolding decimal emit
  parse-fields hb ht hs few high =
      let sizes = length-append (wire all) trailing in
      parse-checked buffer s
        (omega (
          arith,
          length-body,
          length-whole,
          sizes,
          length-field 8 beg,
          length-field 9 len,
          length-padded 6 (length (body beg typ fs)) [],
        ))
        high
        (loop beg len typ cs trailing fs hb (digits-Lacks len stated_digits) ht
          (digits-Lacks cs sum_digits) hs)
        (finish_lem few high)
      ∙ ap (λ n. ok (parsed_view buffer all, n)) (pos-end few high)

-- The parser with its validations, given a message as the serializer writes it (begin string, body
-- with its type and inner fields, at most 512 fields in all, no value with a delimiter), with
-- anything behind it and 65536 bytes at most, takes exactly the message: the body length and the
-- checksum are accepted, and `get_field` gives the first value of each tag of the message, its
-- length and checksum fields included, and nothing for the others.
pub parse-message :
    (beg typ trailing : Bytes) (fs : List Field) (t : ℕ)
    → Lacks 1 beg
    → Lacks 1 typ
    → All IsInner fs
    → length fs ≤ 508
    → length (message beg (body beg typ fs) ++ trailing) ≤ 65_536
    → let buffer = message beg (body beg typ fs) ++ trailing in
      let view = parsed_view buffer (message_fields beg typ fs) in
      (parse new buffer ≡ ok (view, length (message beg (body beg typ fs))))
      × (get_field view t ≡ returns (lookup t (message_fields beg typ fs)))
parse-message beg typ trailing fs t hb ht hs few high =
    let e = message-wire beg typ fs in
    let room : length (wire (message_fields beg typ fs) ++ trailing) ≤ 65_536 = rw e at high in
    rw e (
      parse-fields beg typ trailing fs hb ht hs few room,
      get_field-parsed beg (stated beg typ fs) typ (sum_field beg typ fs) trailing fs t few room,
    )

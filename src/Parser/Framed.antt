-- ===== src/Parser/Framed.antt =====
-- A message of src/serializer.rs as src/parser.rs reads it: its fields and its trailer.
use fix_engine.Base.{
  Bytes, List, [], ap, append-nil, append_assoc, arith, length, le→not_ltb, some, suc, sym, ℕ, ◌%◌,
  ◌++◌, ◌+◌, ◌-◌, ◌/◌, ◌∙◌, ◌∷◌, ◌≡◌,
}
use fix_engine.Checksum.{is_trailer_at, find_trailer_below, start_of, compute, format}
use fix_engine.Checksum.Validate.{
  trailer, is_trailer_at-append, find_trailer_below_skip, find_trailer_below_hit,
}
use fix_engine.Decimal.{decimal, emit, padded}
use fix_engine.Parser.{find_checksum_tag_start}
use fix_engine.Parser.Parsed.{all_fields, regroup}
use fix_engine.Parser.View.{Field}
use fix_engine.Serializer.Finalize.{head, message, message-eq}
use fix_engine.Serializer.Writers.{field, wire}

module _ (pre post : Bytes) (h t o : ℕ) where
  abbrev n : ℕ
  n = length pre

  abbrev msg : Bytes
  msg = pre ++ (trailer h t o ++ post)

  at : (i k : ℕ) → i ≡ n + k → is_trailer_at msg i ≡ is_trailer_at (trailer h t o ++ post) k
  at i k e = is_trailer_at-append pre (trailer h t o ++ post) i k e

  -- Looking back from the end of a trailer, the trailer itself is found first.
  find_trailer_below-between : find_trailer_below (suc (suc (suc (suc n)))) msg ≡ some n
  unfolding is_trailer_at
  find_trailer_below-between =
      find_trailer_below_skip _ msg (at _ 3 (omega arith))
      ∙ find_trailer_below_skip _ msg (at _ 2 (omega arith))
      ∙ find_trailer_below_skip _ msg (at _ 1 (omega arith))
      ∙ find_trailer_below_hit _ msg (at _ 0 (omega arith))

  pub find_checksum_tag_start-between :
      (end : ℕ) → end ≡ n + 8 → find_checksum_tag_start msg end ≡ n + 1
  unfolding find_checksum_tag_start start_of
  find_checksum_tag_start-between end e =
      let place : end - 4 ≡ suc (suc (suc (suc n))) = omega arith in
      rw (le→not_ltb end 7 (omega arith), place, find_trailer_below-between)

-- Fields end with a delimiter.
pub wire-end :
    (tag : ℕ) (v : Bytes) (fs : List Field)
    → (pre : Bytes) × (field tag v ++ wire fs ≡ pre ++ 1 ∷ [])
wire-end tag v [] = (decimal tag ++ b'=' ∷ v, simp (append_assoc, append-nil))
wire-end tag v ((u, w) ∷ fs) =
    let (pre, e) = wire-end u w fs in
    (field tag v ++ pre, rw e (sym (append_assoc (field tag v) pre (1 ∷ []))))

module _ (beg typ : Bytes) (fs : List Field) where
  abbrev pub body : Bytes
  body = field 35 typ ++ wire fs

  abbrev pub stated : Bytes
  stated = padded 6 (length body) []

  abbrev pub sum_field : Bytes
  sum_field = format (compute (head beg body))

  abbrev pub message_fields : List Field
  message_fields = all_fields beg stated typ fs sum_field

  pub head-fields : head beg body ≡ field 8 beg ++ (field 9 stated ++ body)
  unfolding head decimal emit
  head-fields = simp append_assoc

  -- The message is the wire form of its fields.
  pub message-wire : message beg body ≡ wire message_fields
  unfolding decimal emit
  message-wire =
      let tail : Bytes = b'1' ∷ b'0' ∷ b'=' ∷ (sum_field ++ 1 ∷ []) in
      let written : message beg body ≡ (field 8 beg ++ (field 9 stated ++ body)) ++ tail =
        message-eq beg body ∙ ap (λ l. l ++ tail) head-fields in
      let read = sym (append-nil (wire message_fields)) ∙ regroup beg stated typ sum_field [] fs in
      let same : (field 8 beg ++ (field 9 stated ++ body)) ++ tail
          ≡ field 8 beg
            ++ (field 9 stated ++ (field 35 typ ++ (wire fs ++ (field 10 sum_field ++ [])))) =
        simp (append_assoc, append-nil) in
      written ∙ same ∙ sym read

  -- Everything before the delimiter in front of the checksum field.
  pub head-end : (pre : Bytes) × (head beg body ≡ pre ++ 1 ∷ [])
  head-end =
      let (pre, e) = wire-end 35 typ fs in
      (field 8 beg ++ (field 9 stated ++ pre), head-fields ∙ rw e (simp append_assoc))

  -- The message and what follows it, around its trailer.
  pub message-trailer :
      (pre trailing : Bytes)
      → head beg body ≡ pre ++ 1 ∷ []
      → let c = compute (pre ++ 1 ∷ []) in
        message beg body ++ trailing
        ≡ pre ++ (trailer (b'0' + c / 100) (b'0' + c / 10 % 10) (b'0' + c % 10) ++ trailing)
  unfolding format
  message-trailer pre trailing e =
      ap (λ l. l ++ trailing) (message-eq beg body) ∙ rw e (simp append_assoc)

-- ===== src/Parser/Fields.antt =====
-- One round of the field loop of src/parser.rs on a field as the serializer writes it.
use fix_engine.Base.{
  All, Bytes, IsDigit, Lacks, Result, [], ap, append_assoc, arith, if◌then◌else◌, length, ok, refl,
  suc, value, ℕ, ◌%◌, ◌*◌, ◌++◌, ◌+◌, ◌-◌, ◌<◌, ◌==◌, ◌^◌, ◌∙◌, ◌∷◌, ◌≡◌, ◌≢◌,
}
use fix_engine.Decimal.{decimal}
use fix_engine.Message.Numbers.{value-decimal, decimal_digits, decimal-cons, le-value}
use fix_engine.Parser.{
  ParseError, Scanned, scan_tag, scan_value, Loop, check_structure, take_field, and_then, check,
  parse_fields,
}
use fix_engine.Serializer.Writers.{field}

abbrev done_at : ℕ → Bytes → ℕ → Result Scanned ParseError
done_at n rest pos = ok (record { scanned = n; pos = pos; rest = rest })

-- The tag loop reads the number that the digits spell and stops behind the '='.
scan_tag-digits :
    (ds rest : Bytes) (tag pos pos' : ℕ)
    → All IsDigit ds
    → value tag ds < 2 ^ 32
    → pos' ≡ pos + length ds + 1
    → scan_tag (ds ++ b'=' ∷ rest) tag pos ≡ done_at (value tag ds) rest pos'
unfolding scan_tag
scan_tag-digits [] rest tag pos pos' h fits e = ground arith
scan_tag-digits (d ∷ ds) rest tag pos pos' (hd, hs) fits e =
    let m = tag * 10 + (d - b'0') in
    let small : m % 2 ^ 32 ≡ m = omega (arith, le-value ds m) in
    rw small (ground (arith, scan_tag-digits ds rest m (pos + 1) pos' hs fits (omega arith)))

-- The value loop takes the bytes up to the first SOH.
scan_value-Lacks :
    (v rest : Bytes) (len pos len' pos' : ℕ)
    → Lacks 1 v
    → len' ≡ len + length v
    → pos' ≡ pos + length v + 1
    → scan_value (v ++ 1 ∷ rest) len pos ≡ done_at len' rest pos'
unfolding scan_value
scan_value-Lacks [] rest len pos len' pos' h e k = ground arith
scan_value-Lacks (b ∷ v) rest len pos len' pos' (hb, hs) e k =
    ground (arith, scan_value-Lacks v rest (len + 1) (pos + 1) len' pos' hs)

-- Where the value of a field that starts at `pos` starts, and where the next field starts.
abbrev pub value_at : ℕ → ℕ → ℕ
value_at pos tag = pos + length (decimal tag) + 1

abbrev pub behind : ℕ → ℕ → Bytes → ℕ
behind pos tag v = value_at pos tag + length v + 1

-- The loop's variables after a field.
abbrev pub advance : Loop → ℕ → Bytes → Loop
advance s tag v = take_field s tag (value_at s.pos tag) (length v) (behind s.pos tag v)

field-append :
    (tag : ℕ) (v rest : Bytes) → field tag v ++ rest ≡ decimal tag ++ b'=' ∷ (v ++ 1 ∷ rest)
field-append tag v rest = simp append_assoc

-- A round, from what the tag loop gave.
abbrev round : ℕ → Loop → Result Scanned ParseError → Result Loop ParseError
round fuel s r = and_then r λ t. and_then (scan_value t.rest 0 t.pos) λ v.
    let next = take_field s t.scanned t.pos v.scanned v.pos in
    let more = parse_fields fuel v.rest next in
    check (check_structure s.field_num t.scanned) (if t.scanned == 10 then ok next else more)

parse_fields-round :
    (fuel : ℕ) (l : Bytes) (s : Loop)
    → l ≢ []
    → parse_fields (suc fuel) l s ≡ round fuel s (scan_tag l 0 s.pos)
unfolding parse_fields
parse_fields-round fuel [] s h = absurd (h refl)
parse_fields-round fuel (b ∷ bs) s h = refl

field-ne-nil : (tag : ℕ) (more : Bytes) → decimal tag ++ b'=' ∷ more ≢ []
field-ne-nil tag more h = let (d, ds, e) = decimal-cons tag in cc (rw e at h)

scan_tag-field :
    (tag : ℕ) (more : Bytes) (pos : ℕ)
    → tag < 2 ^ 32
    → scan_tag (decimal tag ++ b'=' ∷ more) 0 pos ≡ done_at tag more (value_at pos tag)
scan_tag-field tag more pos h =
    let e = value-decimal tag (omega arith) in
    scan_tag-digits (decimal tag) more 0 pos (value_at pos tag) (decimal_digits tag) (omega arith)
      refl
    ∙ ap (λ n. done_at n more (value_at pos tag)) e

-- A round on a field with a tag below 2 ^ 32 and no delimiter in its value reads the tag and the
-- value and checks the structure; it ends the loop on the checksum field.
pub parse_fields-field :
    (fuel tag : ℕ) (v rest : Bytes) (s : Loop)
    → tag < 2 ^ 32
    → Lacks 1 v
    → parse_fields (suc fuel) (field tag v ++ rest) s
      ≡ check
          (check_structure s.field_num tag)
          (if tag == 10 then ok (advance s tag v) else parse_fields fuel rest (advance s tag v))
parse_fields-field fuel tag v rest s h lacks =
    ap (λ l. parse_fields (suc fuel) l s) (field-append tag v rest)
    ∙ parse_fields-round fuel _ s (field-ne-nil tag (v ++ 1 ∷ rest))
    ∙ ap (round fuel s) (scan_tag-field tag (v ++ 1 ∷ rest) s.pos h)
    ∙ rw (
        scan_value-Lacks v rest 0 (value_at s.pos tag) (length v) (behind s.pos tag v) lacks
          (omega arith) refl)

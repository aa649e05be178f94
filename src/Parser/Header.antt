-- ===== src/Parser/Header.antt =====
-- What the field loop of src/parser.rs keeps of the header: the stated body length and the place
-- where the body starts.
use fix_engine.Base.{
  All, Bytes, IsDigit, List, [], ap, append_assoc, arith, drop, drop-length_append, false, length,
  length-append, ne→not_eq, refl, take, take-length_append, value, ℕ, ◌%◌, ◌*◌, ◌++◌, ◌+◌, ◌-◌, ◌<◌,
  ◌==◌, ◌^◌, ◌∙◌, ◌∷◌, ◌≡◌, ◌≤◌,
}
use fix_engine.Decimal.{decimal}
use fix_engine.Message.{add_field}
use fix_engine.Message.Numbers.{le-value}
use fix_engine.Parser.{Loop, take_field, stated_length, initial}
use fix_engine.Parser.Fields.{value_at, behind, advance}
use fix_engine.Parser.View.{Field, length-field}
use fix_engine.Parser.Wire.{advances}
use fix_engine.Serializer.Writers.{field}

-- On digits the stated length is the number that they spell.
pub stated_length-value :
    (ds : Bytes) (n : ℕ) → All IsDigit ds → value n ds < 2 ^ 64 → stated_length ds n ≡ value n ds
unfolding stated_length
stated_length-value [] n h fits = refl
stated_length-value (d ∷ ds) n (hd, hs) fits =
    let m = n * 10 + (d - b'0') in
    let same : (n * 10 + (d + 256 - b'0') % 256) % 2 ^ 64 ≡ m = omega (arith, le-value ds m) in
    rw same (stated_length-value ds m hs fits)

-- Behind the second field both values stay as they are.
pub advances_keeps :
    (fs : List Field) (s : Loop)
    → 2 ≤ s.field_num
    → ((advances s fs).body_start ≡ s.body_start)
      × ((advances s fs).stated_body_length ≡ s.stated_body_length)
unfolding take_field
advances_keeps [] s h = (refl, refl)
advances_keeps ((tag, v) ∷ fs) s h =
    let later : (s.field_num == 1) ≡ false = ne→not_eq s.field_num 1 (omega arith) in
    let (b, n) = advances_keeps fs (advance s tag v) (omega arith) in (b ∙ rw later, n ∙ rw later)

-- The loop's variables behind the first two fields of a buffer.
abbrev pub second : Bytes → Bytes → Bytes → Loop
second buffer beg len = advance (advance (initial buffer) 8 beg) 9 len

pub body_start-second :
    (buffer beg len : Bytes)
    → (second buffer beg len).body_start ≡ length (field 8 beg) + length (field 9 len)
unfolding take_field
body_start-second buffer beg len = omega (arith, length-field 8 beg, length-field 9 len)

buffer-advance : (buffer beg : Bytes) → (advance (initial buffer) 8 beg).view.buffer ≡ buffer
unfolding take_field add_field
buffer-advance buffer beg = refl

-- The stated length is read from the value of the second field.
pub stated-second :
    (buffer beg len rest : Bytes)
    → buffer ≡ field 8 beg ++ (field 9 len ++ rest)
    → All IsDigit len
    → value 0 len < 2 ^ 64
    → (second buffer beg len).stated_body_length ≡ value 0 len
unfolding take_field
stated-second buffer beg len rest e digits fits =
    let at = value_at (behind 0 8 beg) 9 in
    let pre = field 8 beg ++ (decimal 9 ++ b'=' ∷ []) in
    let split : buffer ≡ pre ++ (len ++ 1 ∷ rest) = e ∙ simp append_assoc in
    let here : at ≡ length pre = omega (
      arith,
      length-append (field 8 beg) (decimal 9 ++ b'=' ∷ []),
      length-append (decimal 9) (b'=' ∷ []),
      length-field 8 beg,
    ) in
    let found : take (length len) (drop at buffer) ≡ len =
      ap (λ b. take (length len) (drop at b)) split
      ∙ ap (take (length len)) (drop-length_append at pre (len ++ 1 ∷ rest) here)
      ∙ take-length_append (length len) len (1 ∷ rest) refl in
    rw (buffer-advance buffer beg)
      (ap (λ v. stated_length v 0) found ∙ stated_length-value len 0 digits fits)

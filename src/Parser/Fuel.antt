-- ===== src/Parser/Fuel.antt =====
-- The fuel of the field loop of src/parser.rs: the number of bytes is enough.
use fix_engine.Base.{
  Bool-cases, Bytes, Result, [], ap, arith, err, if◌then◌else◌, inl, inr, length, ok, refl, suc,
  zero, ℕ, ◌%◌, ◌*◌, ◌+◌, ◌-◌, ◌<◌, ◌==◌, ◌^◌, ◌∷◌, ◌≡◌, ◌≤◌,
}
use fix_engine.Parser.{
  ParseError, Scanned, Loop, scan_tag, scan_value, take_field, check_structure, check, and_then,
  parse_fields, not_digit,
}
use fix_engine.Tags

abbrev Shorter : Bytes → Result Scanned ParseError → Type 0
Shorter bs (err e) = Unit {0}
Shorter bs (ok t) = length t.rest < length bs

Shorter-cons :
    (b : ℕ) (bs : Bytes) (r : Result Scanned ParseError) → Shorter bs r → Shorter (b ∷ bs) r
Shorter-cons b bs (err e) h = tt
Shorter-cons b bs (ok t) h = omega arith

scan_tag-Shorter : (bs : Bytes) (tag pos : ℕ) → Shorter bs (scan_tag bs tag pos)
unfolding scan_tag
scan_tag-Shorter [] tag pos = tt
scan_tag-Shorter (b ∷ bs) tag pos =
    let next = (tag * 10 + (b - b'0')) % 2 ^ 32 in
    let later =
      Shorter-cons b bs (scan_tag bs next (pos + 1)) (scan_tag-Shorter bs next (pos + 1)) in
    elim (Bool-cases (b == Tags.equals)) [
      | inl done ↦ rw done (omega arith)
      | inr other ↦
          rw other
            (elim (Bool-cases (not_digit b)) [ inl bad ↦ rw bad tt | inr digit ↦ rw digit later ])
    ]

scan_value-Shorter : (bs : Bytes) (len pos : ℕ) → Shorter bs (scan_value bs len pos)
unfolding scan_value
scan_value-Shorter [] len pos = tt
scan_value-Shorter (b ∷ bs) len pos =
    let later =
      Shorter-cons b bs (scan_value bs (len + 1) (pos + 1))
        (scan_value-Shorter bs (len + 1) (pos + 1)) in
    elim (Bool-cases (b == Tags.soh)) [
      | inl done ↦ rw done (omega arith)
      | inr other ↦ rw other later
    ]

-- A round behind the value loop, and behind the tag loop.
abbrev after_value : ℕ → Loop → Scanned → Result Scanned ParseError → Result Loop ParseError
after_value n s t r = and_then r λ v.
    let next = take_field s t.scanned t.pos v.scanned v.pos in
    let more = parse_fields n v.rest next in
    check (check_structure s.field_num t.scanned)
      (if t.scanned == Tags.checksum then ok next else more)

abbrev after_tag : ℕ → Loop → Result Scanned ParseError → Result Loop ParseError
after_tag n s r = and_then r λ t. after_value n s t (scan_value t.rest 0 t.pos)

-- The rest of a round with two amounts of fuel agrees when the loop does on fewer bytes.
same_from_value :
    (n m : ℕ) (l : Bytes) (s : Loop) (t : Scanned) (r : Result Scanned ParseError)
    → Shorter l r
    → ((rest : Bytes) (u : Loop)
        → length rest < length l
        → parse_fields n rest u ≡ parse_fields m rest u)
    → after_value n s t r ≡ after_value m s t r
same_from_value n m l s t (err e) h same = refl
same_from_value n m l s t (ok v) h same =
    let next = take_field s t.scanned t.pos v.scanned v.pos in
    ap
      (λ x.
        check (check_structure s.field_num t.scanned)
          (if t.scanned == Tags.checksum then ok next else x))
      (same v.rest next h)

same_from_tag :
    (n m : ℕ) (l : Bytes) (s : Loop) (r : Result Scanned ParseError)
    → Shorter l r
    → ((rest : Bytes) (u : Loop)
        → length rest < length l
        → parse_fields n rest u ≡ parse_fields m rest u)
    → after_tag n s r ≡ after_tag m s r
same_from_tag n m l s (err e) h same = refl
same_from_tag n m l s (ok t) h same =
    same_from_value n m t.rest s t (scan_value t.rest 0 t.pos) (scan_value-Shorter t.rest 0 t.pos)
      λ rest u k. same rest u (omega arith)

-- Any two amounts of fuel that are at least the number of bytes give the same result.
pub parse_fields-fuel :
    (n m : ℕ) (l : Bytes) (s : Loop)
    → length l ≤ n
    → length l ≤ m
    → parse_fields n l s ≡ parse_fields m l s
unfolding parse_fields
parse_fields-fuel zero zero l s hn hm = refl
parse_fields-fuel zero (suc m) [] s hn hm = refl
parse_fields-fuel zero (suc m) (b ∷ l) s hn hm = absurd (omega arith)
parse_fields-fuel (suc n) zero [] s hn hm = refl
parse_fields-fuel (suc n) zero (b ∷ l) s hn hm = absurd (omega arith)
parse_fields-fuel (suc n) (suc m) [] s hn hm = refl
parse_fields-fuel (suc n) (suc m) (b ∷ l) s hn hm =
    same_from_tag n m (b ∷ l) s (scan_tag (b ∷ l) 0 s.pos) (scan_tag-Shorter (b ∷ l) 0 s.pos)
      λ rest u k. parse_fields-fuel n m rest u (omega arith) (omega arith)

-- ===== src/Parser/RoundTrip.antt =====
-- The field loop of src/parser.rs on a whole message.
use fix_engine.Base.{
  All, Bytes, Lacks, List, [], arith, length, ne→not_eq, none, ok, refl, suc, ℕ, ◌++◌, ◌<◌, ◌^◌,
  ◌∙◌, ◌∷◌, ◌≡◌, ◌≢◌,
}
use fix_engine.Parser.{Loop, check_structure, take_field, parse_fields, initial}
use fix_engine.Parser.Fields.{advance, parse_fields-field}
use fix_engine.Parser.View.{Field}
use fix_engine.Parser.Wire.{IsInner, advances, parse_fields-wire}
use fix_engine.Serializer.Writers.{field, wire}

-- The first three fields of a message are its header.
abbrev pub header : Bytes → Bytes → Bytes → List Field
header beg len typ = (8, beg) ∷ (9, len) ∷ (35, typ) ∷ []

-- A round on a field of the header goes on with the next field.
parse_fields-header :
    (fuel tag : ℕ) (v rest : Bytes) (s : Loop)
    → tag < 2 ^ 32
    → Lacks 1 v
    → check_structure s.field_num tag ≡ none
    → tag ≢ 10
    → parse_fields (suc fuel) (field tag v ++ rest) s ≡ parse_fields fuel rest (advance s tag v)
parse_fields-header fuel tag v rest s h lacks free ne =
    parse_fields-field fuel tag v rest s h lacks ∙ rw (free, ne→not_eq tag 10 ne)

-- On a message with its header, its body and its checksum field, whatever follows it, the loop
-- takes every field, in order, and stops behind the checksum field, with fuel for one round more
-- than there are fields before the checksum.
pub parse_fields-message :
    (beg len typ cs rest buffer : Bytes) (fs : List Field) (fuel : ℕ)
    → Lacks 1 beg
    → Lacks 1 len
    → Lacks 1 typ
    → Lacks 1 cs
    → All IsInner fs
    → length fs < fuel
    → parse_fields
        (suc (suc (suc fuel)))
        (field 8 beg ++ (field 9 len ++ (field 35 typ ++ (wire fs ++ (field 10 cs ++ rest)))))
        (initial buffer)
      ≡ ok (advance (advances (initial buffer) (header beg len typ ++ fs)) 10 cs)
unfolding check_structure take_field
parse_fields-message beg len typ cs rest buffer fs fuel hb hl ht hc hs enough =
    let body = wire fs ++ (field 10 cs ++ rest) in
    let s₀ = initial buffer in
    let s₁ = advance s₀ 8 beg in
    let s₂ = advance s₁ 9 len in
    let s₃ = advance s₂ 35 typ in
    parse_fields-header (suc (suc fuel)) 8 beg _ s₀ (omega arith) hb refl (omega arith)
    ∙ parse_fields-header (suc fuel) 9 len _ s₁ (omega arith) hl refl (omega arith)
    ∙ parse_fields-header fuel 35 typ body s₂ (omega arith) ht refl (omega arith)
    ∙ parse_fields-wire fs fuel cs rest s₃ hs hc (omega arith) enough

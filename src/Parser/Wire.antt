-- ===== src/Parser/Wire.antt =====
-- The field loop of src/parser.rs over a whole run of fields.
use fix_engine.Base.{
  All, Bytes, Lacks, List, [], ap, append_assoc, arith, length, ne→not_eq, none, ok, refl, suc,
  zero, ℕ, ◌++◌, ◌+◌, ◌<◌, ◌^◌, ◌∙◌, ◌∷◌, ◌≡◌, ◌≢◌, ◌≤◌,
}
use fix_engine.Parser.{Loop, check_structure, take_field, parse_fields}
use fix_engine.Parser.Fields.{advance, parse_fields-field}
use fix_engine.Parser.View.{Field}
use fix_engine.Serializer.Writers.{field, wire}

-- A field that the wire format can carry, and that does not end the message.
abbrev pub IsField : Field → Type 0
IsField (tag, v) = (tag < 2 ^ 32) × Lacks 1 v

abbrev pub IsInner : Field → Type 0
IsInner (tag, v) = (tag < 2 ^ 32) × Lacks 1 v × (tag ≢ 10)

abbrev pub advances : Loop → List Field → Loop
advances s [] = s
advances s ((tag, v) ∷ fs) = advances (advance s tag v) fs

free : (field_num tag : ℕ) → 3 ≤ field_num → check_structure field_num tag ≡ none
unfolding check_structure
free zero tag h = absurd (omega arith)
free (suc zero) tag h = absurd (omega arith)
free (suc (suc zero)) tag h = absurd (omega arith)
free (suc (suc (suc n))) tag h = refl

field_num-advance : (s : Loop) (tag : ℕ) (v : Bytes) → (advance s tag v).field_num ≡ s.field_num + 1
unfolding take_field
field_num-advance s tag v = refl

-- Behind the first three fields, with more fuel than fields, the loop takes every field of a run
-- up to the checksum field, and stops there whatever follows: fields with tags below 2 ^ 32 other
-- than 10, and no value with a delimiter in it.
pub parse_fields-wire :
    (fs : List Field) (fuel : ℕ) (cs rest : Bytes) (s : Loop)
    → All IsInner fs
    → Lacks 1 cs
    → 3 ≤ s.field_num
    → length fs < fuel
    → parse_fields fuel (wire fs ++ (field 10 cs ++ rest)) s ≡ ok (advance (advances s fs) 10 cs)
parse_fields-wire fs zero cs rest s h hcs n f = absurd (omega arith)
parse_fields-wire [] (suc fuel) cs rest s h hcs n f =
    rw (parse_fields-field fuel 10 cs rest s (omega arith) hcs, free s.field_num 10 n)
parse_fields-wire ((tag, v) ∷ fs) (suc fuel) cs rest s ((ht, hv, ne), hs) hcs n f =
    let more = wire fs ++ (field 10 cs ++ rest) in
    let counted = field_num-advance s tag v in
    let later =
      parse_fields-wire fs fuel cs rest (advance s tag v) hs hcs (omega arith) (omega arith) in
    ap (λ l. parse_fields (suc fuel) l s)
      (append_assoc (field tag v) (wire fs) (field 10 cs ++ rest))
    ∙ parse_fields-field fuel tag v more s ht hv
    ∙ rw (free s.field_num tag n, ne→not_eq tag 10 ne) later

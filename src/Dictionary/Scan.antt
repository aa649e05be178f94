-- ===== src/Dictionary/Scan.antt =====
-- src/dict_compiler.rs: the search for text, attributes and elements.
-- A loop over `section[pos..]` keeps that suffix in place of `pos`.
use fix_engine.Base.{
  Bool, Bytes, List, Option, Outcome, Result, [], codes, drop, err, false, if◌then◌else◌, leb,
  length, ltb, none, ok, panics, returns, some, suc, take, true, value, zero, ℕ, ◌&&◌, ◌*◌, ◌++◌,
  ◌+◌, ◌-◌, ◌==◌, ◌>>=◌, ◌^◌, ◌∷◌,
}
use fix_engine.Dictionary.{
  CompiledFieldDef, DictError, invalid_format, missing_attribute, parse_error,
}

-- `Result` of a call that can panic.
abbrev pub Compiled : Type 0 → Type 0
Compiled A = Outcome (Result A DictError)

abbrev pub after_ok : {A B : Type 0} → Result A DictError → (A → Compiled B) → Compiled B
after_ok (ok a) f = f a
after_ok (err e) f = returns (err e)

abbrev pub ok_then : {A B : Type 0} → Compiled A → (A → Compiled B) → Compiled B
ok_then m f = m >>= λ r. after_ok r f

abbrev pub ok_or : {A : Type 0} → Option A → DictError → Compiled A
ok_or none e = returns (err e)
ok_or (some a) e = returns (ok a)

unfoldable pub starts_with : Bytes → Bytes → Bool
starts_with [] text = true
starts_with (p ∷ ps) [] = false
starts_with (p ∷ ps) (b ∷ bs) = (b == p) && starts_with ps bs

abbrev pub later : Option ℕ → Option ℕ
later none = none
later (some i) = some (i + 1)

-- `text.find(pattern)`, of a pattern that is not empty.
unfoldable pub find : Bytes → Bytes → Option ℕ
unfolding starts_with
find pattern [] = none
find pattern (b ∷ bs) =
    let rest = find pattern bs in if starts_with pattern (b ∷ bs) then some 0 else later rest

abbrev closed_value : Bytes → Option ℕ → Option Bytes
closed_value rest none = none
closed_value rest (some end) = some (take end rest)

abbrev attr_value : Bytes → Bytes → Option ℕ → Option Bytes
attr_value tag_str pattern none = none
attr_value tag_str pattern (some start) =
    let rest = drop (start + length pattern) tag_str in closed_value rest (find (b'"' ∷ []) rest)

-- The text between the quotes behind the first `name="`.
unfoldable pub extract_attr : Bytes → Bytes → Option Bytes
unfolding find
extract_attr tag_str attr_name =
    let pattern = attr_name ++ (b'=' ∷ b'"' ∷ []) in
    attr_value tag_str pattern (find pattern tag_str)

-- The first `<... />` that starts with the pattern, and what is behind it.
abbrev pub closed_tag : Bytes → Option ℕ → Option (Bytes × Bytes)
closed_tag from none = none
closed_tag from (some end) = some (take (end + 2) from, drop (end + 2) from)

abbrev pub opened_tag : Bytes → Option ℕ → Option (Bytes × Bytes)
opened_tag body none = none
opened_tag body (some start) = closed_tag (drop start body) (find (codes "/>") (drop start body))

unfoldable pub next_tag : Bytes → Bytes → Option (Bytes × Bytes)
unfolding find
next_tag pattern body = opened_tag body (find pattern body)

abbrev pair : Option Bytes → Option Bytes → List (Bytes × Bytes) → List (Bytes × Bytes)
pair (some value) (some desc) rest = (value, desc) ∷ rest
pair (some value) none rest = rest
pair none desc rest = rest

-- `while pos < body.len()`: one `<value .../>` a round. The fuel bounds the rounds; a round consumes
-- a byte at least, and the fuel starts at the number of bytes.
unfoldable pub enum_values : ℕ → Bytes → List (Bytes × Bytes)
unfolding next_tag extract_attr
enum_values zero body = []
enum_values (suc fuel) body = elim (next_tag (codes "<value ") body) [
  | none ↦ []
  | some (tag_str, behind) ↦
      pair (extract_attr tag_str (codes "enum")) (extract_attr tag_str (codes "description"))
        (enum_values fuel behind)
]

unfoldable pub parse_enum_values : Bytes → List (Bytes × Bytes)
unfolding enum_values
parse_enum_values body = enum_values (length body) body

-- What stands at a `<field `: its tag, its values and what is behind it; or only what is behind its
-- tag, where nothing closes it; or nothing, where its tag has no end.
pub data Element : Type 0 where
  element : Bytes → List (Bytes × Bytes) → Bytes → Element
  unclosed : Bytes → Element
  stop : Element

-- `<field ...>` with children, up to `</field>`; `oc` is the end of its tag. The slice of the
-- children panics where it would end before it starts.
abbrev pub with_children : Bytes → ℕ → Option ℕ → Outcome Element
with_children after oc none = returns (unclosed (drop (oc + 1) after))
with_children after oc (some close) =
    if ltb close (oc + 1)
    then panics
    else returns (
        element (take (oc + 1) after) (parse_enum_values (drop (oc + 1) (take close after)))
          (drop (close + 8) after))

abbrev pub element_at : Bytes → Option ℕ → Option ℕ → Outcome Element
element_at after (some sc) (some oc) =
    if ltb sc oc
    then returns (element (take (sc + 2) after) [] (drop (sc + 2) after))
    else with_children after oc (find (codes "</field>") after)
element_at after none (some oc) = with_children after oc (find (codes "</field>") after)
element_at after sc none = returns stop

abbrev element_from : Bytes → Option ℕ → Outcome Element
element_from rest none = returns stop
element_from rest (some start) =
    let after = drop start rest in
    element_at after (find (codes "/>") after) (find (b'>' ∷ []) after)

unfoldable pub next_field : Bytes → Outcome Element
unfolding find parse_enum_values
next_field rest = element_from rest (find (codes "<field ") rest)

unfoldable pub digits_u32 : Bytes → ℕ → Option ℕ
digits_u32 [] n = some n
digits_u32 (c ∷ cs) n =
    let m = n * 10 + (c - b'0') in
    let more = digits_u32 cs m in if leb b'0' c && leb c b'9' && ltb m (2 ^ 32) then more else none

-- `str::parse::<u32>`: digits behind a '+' at most.
unfoldable pub parse_u32 : Bytes → Option ℕ
unfolding digits_u32
parse_u32 [] = none
parse_u32 (b ∷ []) = digits_u32 (b ∷ []) 0
parse_u32 (b ∷ c ∷ cs) = if b == b'+' then digits_u32 (c ∷ cs) 0 else digits_u32 (b ∷ c ∷ cs) 0

-- The definition that a `<field>` gives.
unfoldable pub field_def : Bytes → List (Bytes × Bytes) → Compiled CompiledFieldDef
unfolding extract_attr parse_u32
field_def tag_str values =
    ok_then
      (ok_or (extract_attr tag_str (codes "number")) (missing_attribute (codes "field number")))
      λ number.
        ok_then
          (ok_or (parse_u32 number) (invalid_format (codes "invalid field number: " ++ number)))
          λ tag.
            ok_then
              (ok_or (extract_attr tag_str (codes "name")) (missing_attribute (codes "field name")))
              λ name.
                ok_then
                  (ok_or (extract_attr tag_str (codes "type"))
                    (missing_attribute (codes "field type")))
                  λ field_type. returns (
                    ok
                      (record { tag = tag; name = name; field_type = field_type; values = values }))

abbrev pub push : {A : Type 0} → Compiled A → Compiled (List A) → Compiled (List A)
push m more = ok_then m λ a. ok_then more λ rest. returns (ok (a ∷ rest))

-- A turn of the loop below, with the turns behind it.
unfoldable pub field_turn :
    (Bytes → Compiled (List CompiledFieldDef)) → Element → Compiled (List CompiledFieldDef)
unfolding field_def
field_turn loop (element tag_str values behind) = push (field_def tag_str values) (loop behind)
field_turn loop (unclosed behind) = loop behind
field_turn loop stop = returns (ok [])

-- `while pos < fields_section.len()`, one element a round, on fuel as above.
unfoldable pub field_loop : ℕ → Bytes → Compiled (List CompiledFieldDef)
unfolding next_field field_turn
field_loop zero rest = returns (ok [])
field_loop (suc fuel) rest = next_field rest >>= field_turn (field_loop fuel)

abbrev closed_section : Bytes → Option ℕ → DictError → Compiled Bytes
closed_section from none e = returns (err e)
closed_section from (some end) e = returns (ok (take end from))

-- The text from the first `opening` to the first `close` behind it, or nothing.
abbrev section_from : Bytes → Bytes → DictError → Option ℕ → Compiled Bytes
section_from close xml e none = returns (ok [])
section_from close xml e (some start) =
    let from = drop start xml in closed_section from (find close from) e

unfoldable pub section_of : Bytes → Bytes → DictError → Bytes → Compiled Bytes
unfolding find
section_of opening close e xml = section_from close xml e (find opening xml)

unfoldable pub parse_fields : Bytes → Compiled (List CompiledFieldDef)
unfolding section_of field_loop
parse_fields xml =
    ok_then
      (section_of (codes "<fields>") (codes "</fields>")
        (parse_error (codes "unclosed <fields> section")) xml)
      λ section. field_loop (length section) section

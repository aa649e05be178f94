-- ===== src/Parser/Parsed.antt =====
-- What src/parser.rs returns for a whole message, without the two validations.
use fix_engine.Base.{
  All, Bytes, Lacks, List, [], ap, append-nil, append_assoc, ap₂, arith, length, length-append,
  le→not_ltb, lt→ltb, ok, refl, returns, suc, sym, true, ℕ, ◌%◌, ◌*◌, ◌++◌, ◌+◌, ◌-◌, ◌<◌, ◌^◌, ◌∙◌,
  ◌∷◌, ◌≡◌, ◌≤◌,
}
use fix_engine.Message.{
  MessageView, FieldEntry, add_field, set_checksum_valid, get_field, get_field_in,
}
use fix_engine.Parser.{
  Loop, take_field, parse_fields, initial, parse, new_unchecked, finish, body_length_wrong,
}
use fix_engine.Parser.Fields.{value_at, advance}
use fix_engine.Parser.View.{Field, entries, lookup, length-field, get_field_in-entries}
use fix_engine.Parser.Wire.{IsInner, advances}
use fix_engine.Parser.RoundTrip.{header, parse_fields-message}
use fix_engine.Serializer.Writers.{field, wire}

-- The loop went from `s` over the fields to `t`.
abbrev pub Ran : Loop → List Field → Loop → Type 0
Ran s fs t =
    (t.view.buffer ≡ s.view.buffer)
    × (t.view.fields ≡ s.view.fields ++ entries s.pos fs)
    × (t.pos ≡ s.pos + length (wire fs))

advance-Ran :
    (s : Loop) (tag : ℕ) (v : Bytes)
    → s.pos + length (field tag v) ≤ 65_536
    → length s.view.fields < 512
    → Ran s ((tag, v) ∷ []) (advance s tag v)
unfolding take_field add_field
advance-Ran s tag v room free =
    let size = length-field tag v in
    let at : value_at s.pos tag % 2 ^ 32 ≡ value_at s.pos tag = omega arith in
    let len : length v % 2 ^ 16 ≡ length v = omega arith in
    rw (lt→ltb (length s.view.fields) 512 free)
      (refl, rw (at, len), omega (arith, size, ap length (append-nil (field tag v))))

pub advances-Ran :
    (fs : List Field) (s : Loop)
    → s.pos + length (wire fs) ≤ 65_536
    → length s.view.fields + length fs ≤ 512
    → Ran s fs (advances s fs)
unfolding take_field
advances-Ran [] s room free = (refl, sym (append-nil _), omega arith)
advances-Ran ((tag, v) ∷ fs) s room free =
    let s₁ = advance s tag v in
    let size = length-append (field tag v) (wire fs) in
    let entry : FieldEntry = record { tag = tag; offset = value_at s.pos tag; length = length v } in
    let (b₁, f₁, p₁) = advance-Ran s tag v (omega (arith, size)) (omega arith) in
    let more : length s₁.view.fields ≡ length s.view.fields + 1 =
      ap length f₁ ∙ length-append s.view.fields (entry ∷ []) in
    let moved : s₁.pos ≡ s.pos + length (field tag v) =
      omega (arith, p₁, ap length (append-nil (field tag v))) in
    let (b₂, f₂, p₂) = advances-Ran fs s₁ (omega (arith, moved, size)) (omega (arith, more)) in
    (
      b₂ ∙ b₁,
      f₂
          ∙ ap (λ l. l ++ entries s₁.pos fs) f₁
          ∙ append_assoc s.view.fields (entry ∷ []) (entries s₁.pos fs),
      omega (arith, moved, size, p₂),
    )

wire-append :
    (fs gs : List Field) (rest : Bytes) → wire (fs ++ gs) ++ rest ≡ wire fs ++ (wire gs ++ rest)
wire-append [] gs rest = refl
wire-append ((tag, v) ∷ fs) gs rest =
    append_assoc (field tag v) (wire (fs ++ gs)) rest
    ∙ ap (◌++◌ (field tag v)) (wire-append fs gs rest)
    ∙ sym (append_assoc (field tag v) (wire fs) (wire gs ++ rest))

advances-append :
    (fs : List Field) (tag : ℕ) (v : Bytes) (s : Loop)
    → advances s (fs ++ (tag, v) ∷ []) ≡ advance (advances s fs) tag v
advances-append [] tag v s = refl
advances-append ((t, w) ∷ fs) tag v s = advances-append fs tag v (advance s t w)

pub length-wire : (fs : List Field) → 2 * length fs ≤ length (wire fs)
length-wire [] = omega arith
length-wire ((tag, v) ∷ fs) =
    omega (arith, length-append (field tag v) (wire fs), length-field tag v, length-wire fs)

-- The fields of a whole message.
abbrev pub all_fields : Bytes → Bytes → Bytes → List Field → Bytes → List Field
all_fields beg len typ fs cs = (8, beg) ∷ (9, len) ∷ (35, typ) ∷ (fs ++ (10, cs) ∷ [])

pub regroup :
    (beg len typ cs rest : Bytes) (fs : List Field)
    → wire (all_fields beg len typ fs cs) ++ rest
      ≡ field 8 beg ++ (field 9 len ++ (field 35 typ ++ (wire fs ++ (field 10 cs ++ rest))))
regroup beg len typ cs rest fs =
    wire-append (header beg len typ) (fs ++ (10, cs) ∷ []) rest
    ∙ ap (λ l. wire (header beg len typ) ++ l) (wire-append fs ((10, cs) ∷ []) rest)
    ∙ simp (append_assoc, append-nil)

finish-unchecked :
    (buffer : Bytes) (s : Loop)
    → finish new_unchecked buffer s ≡ ok (set_checksum_valid s.view true, s.pos)
unfolding finish body_length_wrong
finish-unchecked buffer s = refl

parse-unchecked :
    (buffer : Bytes) (s : Loop)
    → 20 ≤ length buffer
    → length buffer ≤ 65_536
    → parse_fields (length buffer) buffer (initial buffer) ≡ ok s
    → parse new_unchecked buffer ≡ ok (set_checksum_valid s.view true, s.pos)
unfolding parse
parse-unchecked buffer s low high h =
    rw (le→not_ltb (length buffer) 20 low, le→not_ltb 65_536 (length buffer) high, h)
      (finish-unchecked buffer s)

-- The view that parsing a buffer with these fields leaves.
abbrev pub parsed_view : Bytes → List Field → MessageView
parsed_view buffer fs = set_checksum_valid (advances (initial buffer) fs).view true

module _ (beg len typ cs trailing : Bytes) (fs : List Field) where
  abbrev pub all : List Field
  all = all_fields beg len typ fs cs

  abbrev pub buffer : Bytes
  buffer = wire all ++ trailing

  pub length-all : length all ≡ length fs + 4
  length-all = omega (arith, length-append fs ((10, cs) ∷ []))

  pub loop :
      Lacks 1 beg
      → Lacks 1 len
      → Lacks 1 typ
      → Lacks 1 cs
      → All IsInner fs
      → parse_fields (length buffer) buffer (initial buffer) ≡ ok (advances (initial buffer) all)
  loop hb hl ht hc hs =
      let k = length buffer - 3 in
      let size = length-append (wire all) trailing in
      let fuel : length buffer ≡ suc (suc (suc k)) =
        omega (arith, size, length-wire all, length-all) in
      let enough : length fs < k = omega (arith, size, length-wire all, length-all) in
      ap (λ n. parse_fields n buffer (initial buffer)) fuel
      ∙ ap (λ l. parse_fields (suc (suc (suc k))) l (initial buffer))
          (regroup beg len typ cs trailing fs)
      ∙ parse_fields-message beg len typ cs trailing buffer fs k hb hl ht hc hs enough
      ∙ ap ok (sym (advances-append (header beg len typ ++ fs) 10 cs (initial buffer)))

  pub get_field-parsed :
      (t : ℕ)
      → length fs ≤ 508
      → length buffer ≤ 65_536
      → get_field (parsed_view buffer all) t ≡ returns (lookup t all)
  unfolding get_field set_checksum_valid
  get_field-parsed t few high =
      let (b, f, p) =
        advances-Ran all (initial buffer) (omega (arith, length-append (wire all) trailing))
          (omega (arith, length-all)) in
      ap₂ (λ x y. get_field_in x y t) b f ∙ get_field_in-entries all [] trailing 0 t refl

  -- A parser without validation, given a buffer of 20 to 65536 bytes that starts with a message of
  -- at most 512 fields (begin string, body length, message type, inner fields and checksum, no
  -- value with a delimiter), takes exactly that message, whatever follows it, and `get_field` on
  -- the view gives the first value of each tag and nothing for the others.
  pub parse-wire :
      (t : ℕ)
      → Lacks 1 beg
      → Lacks 1 len
      → Lacks 1 typ
      → Lacks 1 cs
      → All IsInner fs
      → length fs ≤ 508
      → 20 ≤ length buffer
      → length buffer ≤ 65_536
      → (parse new_unchecked buffer ≡ ok (parsed_view buffer all, length (wire all)))
        × (get_field (parsed_view buffer all) t ≡ returns (lookup t all))
  parse-wire t hb hl ht hc hs few low high =
      let s = advances (initial buffer) all in
      let (b, f, p) =
        advances-Ran all (initial buffer) (omega (arith, length-append (wire all) trailing))
          (omega (arith, length-all)) in
      let at_end : s.pos ≡ length (wire all) = omega (arith, p) in
      (
        parse-unchecked buffer s low high (loop hb hl ht hc hs)
            ∙ ap (λ n. ok (set_checksum_valid s.view true, n)) at_end,
        get_field-parsed t few high,
      )

-- ===== src/Groups/Wire.antt =====
-- src/groups.rs on a message that src/serializer.rs framed and src/parser.rs read.
use fix_engine.Parser.{initial}
use fix_engine.Decimal.{decimal}
use fix_engine.Base.{
  All, Bytes, Lacks, List, [], ap, append_assoc, arith, drop, length, length-append, ok, refl,
  returns, some, sym, ℕ, ◌*◌, ◌++◌, ◌+◌, ◌<◌, ◌^◌, ◌∙◌, ◌∷◌, ◌≡◌, ◌≤◌,
}
use fix_engine.Message.{entry_value, set_checksum_valid}
use fix_engine.Parser
use fix_engine.Groups
use fix_engine.Groups.{group_def, no_defs, group}
use fix_engine.Groups.Shape.{IsMember}
use fix_engine.Groups.Flat.{Holds, Holds-drop, Item, texts, as_entries, Stops, parse-flat}
use fix_engine.Parser.View.{Field, entries, entry_value-field, behind-length}
use fix_engine.Parser.Wire.{IsInner}
use fix_engine.Parser.Fields.{behind, value_at}
use mathlib.Core.Path.{subst}
use fix_engine.Parser.Parsed.{parsed_view, advances-Ran}
use fix_engine.Parser.Framed.{body, message_fields, message-wire, sum_field, stated}
use fix_engine.Parser.Strict.{parse-message}
use fix_engine.Serializer.Finalize.{message}
use fix_engine.Serializer.Writers.{field, wire}

entries-Holds :
    (fs : List Field) (pre post : Bytes) (pos : ℕ)
    → pos ≡ length pre
    → Holds (pre ++ (wire fs ++ post)) (entries pos fs) fs
entries-Holds [] pre post pos h = tt
entries-Holds ((tag, v) ∷ fs) pre post pos h =
    let later =
      entries-Holds fs (pre ++ field tag v) post (behind pos tag v)
        (behind-length pre v pos tag h) in
    let regroup : (pre ++ field tag v) ++ (wire fs ++ post)
        ≡ pre ++ (wire ((tag, v) ∷ fs) ++ post) =
      append_assoc pre (field tag v) (wire fs ++ post)
      ∙ ap (◌++◌ pre) (sym (append_assoc (field tag v) (wire fs) post)) in
    let here : entry_value (pre ++ (wire ((tag, v) ∷ fs) ++ post))
          (record { tag = tag; offset = value_at pos tag; length = length v })
        ≡ returns v =
      ap (λ b. entry_value b (record { tag = tag; offset = value_at pos tag; length = length v }))
        (ap (◌++◌ pre) (append_assoc (field tag v) (wire fs) post))
      ∙ entry_value-field pre v (wire fs ++ post) pos tag h in
    (refl, here, rw regroup at later)

-- The view of a parsed message holds its fields.
parsed_view-Holds :
    (all : List Field) (trailing : Bytes)
    → length all ≤ 512
    → length (wire all ++ trailing) ≤ 65_536
    → let view = parsed_view (wire all ++ trailing) all in Holds view.buffer view.fields all
unfolding set_checksum_valid
parsed_view-Holds all trailing few room =
    let (b, f, _) =
      advances-Ran all (initial (wire all ++ trailing))
        (omega (arith, length-append (wire all) trailing)) (omega arith) in
    rw (b, f) (entries-Holds all [] trailing 0 refl)

length-texts : (dt : ℕ) (items : List Item) → length items ≤ length (texts dt items)
length-texts dt [] = omega arith
length-texts dt ((v, fs) ∷ items) =
    omega (arith, length-texts dt items, length-append fs (texts dt items))

-- A message with a group: the fields before it, the count, the items and what follows.
abbrev pub with_group : List Field → ℕ → ℕ → List Item → List Field → List Field
with_group before ct dt items later =
    before ++ ((ct, decimal (length items)) ∷ (texts dt items ++ later))

-- A group without nested ones goes over the wire: of a message as the serializer frames it, with the
-- group's count and items among its fields, the parser with its validations takes exactly the
-- message, and the group parsed from the view, at the field of the count, holds exactly the items
-- (values without delimiters, at most 508 inner fields, 65536 bytes with what follows; the items
-- hold members of the group, and the next field, the checksum field at the end, does not belong to
-- the last of them).
pub parse-with_group :
    (beg typ trailing : Bytes) (before : List Field) (ct dt : ℕ) (tags : List ℕ) (items : List Item)
    (later : List Field)
    → Lacks 1 beg
    → Lacks 1 typ
    → All IsInner (with_group before ct dt items later)
    → length (with_group before ct dt items later) ≤ 508
    → length (message beg (body beg typ (with_group before ct dt items later)) ++ trailing) ≤ 65_536
    → All (λ i. All (IsMember (group_def ct dt tags no_defs)) i.1) items
    → Stops
        (group_def ct dt tags no_defs)
        (later ++ ((10, sum_field beg typ (with_group before ct dt items later)) ∷ []))
    → let fs = with_group before ct dt items later in
      let buffer = message beg (body beg typ fs) ++ trailing in
      let view = parsed_view buffer (message_fields beg typ fs) in
      (Parser.parse Parser.new buffer ≡ ok (view, length (message beg (body beg typ fs))))
      × (Groups.parse view.buffer view.fields (3 + length before) (group_def ct dt tags no_defs)
          ≡ returns (
              some (
                group ct (length items) (as_entries dt items),
                3 + length before + 1 + length (texts dt items),
              )))
parse-with_group beg typ trailing before ct dt tags items later hb ht hs few room inner stops =
    let fs = with_group before ct dt items later in
    let e = message-wire beg typ fs in
    let last : List Field = (10, sum_field beg typ fs) ∷ [] in
    let all = message_fields beg typ fs in
    let high : length (wire all ++ trailing) ≤ 65_536 = rw e at room in
    let buffer = wire all ++ trailing in
    let view = parsed_view buffer all in
    let held = parsed_view-Holds all trailing (omega (arith, length-append fs last)) high in
    let start : List Field = (8, beg) ∷ ((9, stated beg typ fs) ∷ ((35, typ) ∷ before)) in
    let split : all
        ≡ start ++ ((ct, decimal (length items)) ∷ (texts dt items ++ (later ++ last))) =
      simp append_assoc in
    let small : length items * 48 < 2 ^ 63 = omega (
      arith,
      length-append before ((ct, decimal (length items)) ∷ (texts dt items ++ later)),
      length-append (texts dt items) later,
      length-texts dt items,
    ) in
    let target : List Field = (ct, decimal (length items)) ∷ (texts dt items ++ (later ++ last)) in
    let index : length start ≡ 3 + length before = omega arith in
    let dropped =
      subst (λ k. Holds view.buffer (drop k view.fields) target) index
        (Holds-drop view.buffer view.fields start target
          (subst (λ z. Holds view.buffer view.fields z) split held)) in
    (
      (parse-message beg typ trailing fs 0 hb ht hs few room).0,
      rw e (
          parse-flat view.buffer view.fields (3 + length before) ct dt tags items (later ++ last)
            inner stops dropped small),
    )

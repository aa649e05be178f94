-- ===== src/Dictionary/Valid.antt =====
-- src/dict_compiler.rs: the lookups and the validation of a dictionary that was compiled.
use mathlib.Core.Path.{subst}
use fix_engine.Base.{
  All, Bool-cases, Bytes, List, Option-cases, Result, [], codes, err, false, inl, inr, none, ok,
  ok-injective, panics, refl, returns, returns-injective, some, some-injective, sym, true, ℕ, ◌++◌,
  ◌↔◌, ◌∙◌, ◌∷◌, ◌≡◌,
}
use fix_engine.Dictionary.{
  CompiledDictionary, CompiledMessageDef, DictError, lookup_field, lookup_message, missing_fields,
  present, validate_message, complaint,
}
use fix_engine.Dictionary.Compile.{from_xml, parse_version, parse_messages}
use fix_engine.Dictionary.Scan.{Compiled, after_ok, ok_then, parse_fields}
use fix_engine.Dictionary.Index.{last_def, lookup_field-last}

after_ok-ok :
    {A B : Type 0} (r : Result A DictError) (f : A → Compiled B) {b : B}
    → after_ok r f ≡ returns (ok b)
    → (a : A) × (f a ≡ returns (ok b))
after_ok-ok (ok a) f h = (a, h)
after_ok-ok (err e) f h = absurd (cc)

-- A step of a call that succeeds succeeds.
ok_then-ok :
    {A B : Type 0} (m : Compiled A) (f : A → Compiled B) {b : B}
    → ok_then m f ≡ returns (ok b)
    → (a : A) × (f a ≡ returns (ok b))
ok_then-ok (returns r) f h = after_ok-ok r f h
ok_then-ok panics f h = absurd (cc)

-- In every dictionary that was compiled from a text, looking a tag up gives the last definition of
-- the tag among its fields, and nothing where no field has it; it never panics.
pub from_xml-lookup_field :
    (xml : Bytes) (tag : ℕ) {d : CompiledDictionary}
    → from_xml xml ≡ returns (ok d)
    → lookup_field d tag ≡ returns (last_def d.fields tag none)
unfolding from_xml
from_xml-lookup_field xml tag {d} h =
    let (version, h1) = ok_then-ok (parse_version xml) _ h in
    let (fields, h2) = ok_then-ok (parse_fields xml) _ h1 in
    let (messages, h3) = ok_then-ok (parse_messages fields xml) _ h2 in
    let blank : CompiledDictionary = record {
      fix_version = version;
      fields = fields;
      messages = messages;
      tag_index = [];
    } in
    let (index, built, looked) = lookup_field-last blank tag in
    let same : record blank { tag_index = index } ≡ d =
      ok-injective (returns-injective (rw built at h3)) in
    subst (λ e. lookup_field e tag ≡ returns (last_def e.fields tag none)) same looked

module _ (d : CompiledDictionary)
    (sound : (tag : ℕ) → lookup_field d tag ≡ returns (last_def d.fields tag none)) where
  -- Errors for the missing ones, none where none is missing.
  missing_fields-empty :
      (required tags : List ℕ)
      → (errors : List Bytes) × (missing_fields d required tags ≡ returns errors)
        × ((errors ≡ []) ↔ All (λ t. present tags t ≡ true) required)
  unfolding missing_fields
  missing_fields-empty [] tags = ([], refl, ((λ h. tt), (λ h. refl)))
  missing_fields-empty (tag ∷ required) tags =
      let (errors, done, iff) = missing_fields-empty required tags in
      elim (Bool-cases (present tags tag)) [
        | inl here ↦ (errors, rw (here, done) refl, ((λ h. (here, iff.0 h)), (λ h. iff.1 h.1)))
        | inr gone ↦ (
          complaint tag (last_def d.fields tag none) ∷ errors,
          rw (gone, sound tag, done) refl,
          ((λ h. absurd (cc)), (λ h. let k : false ≡ true = rw gone at h.0 in absurd (cc))),
        )
      ]

-- Validating against a dictionary that was compiled from a text always answers. The answer is empty
-- exactly when the message type is known and each of its required fields is among those present.
pub from_xml-validate_message :
    (xml : Bytes) (msg_type : Bytes) (tags : List ℕ) {d : CompiledDictionary}
    → from_xml xml ≡ returns (ok d)
    → (errors : List Bytes) × (validate_message d msg_type tags ≡ returns errors)
      × ((errors ≡ []) ↔ (
          (m : CompiledMessageDef) × (lookup_message d msg_type ≡ some m)
          × All (λ t. present tags t ≡ true) m.required_fields))
unfolding validate_message
from_xml-validate_message xml msg_type tags {d} h =
    elim (Option-cases (lookup_message d msg_type)) [
      | inl unknown ↦ (
        (codes "unknown message type: " ++ msg_type) ∷ [],
        rw unknown refl,
        (
          (λ h. absurd (cc)),
          (λ (m, found, all). let k : none ≡ some m = rw unknown at found in absurd (cc)),
        ),
      )
      | inr (m, found) ↦
          let (errors, done, iff) =
            missing_fields-empty d (λ tag. from_xml-lookup_field xml tag h) m.required_fields
              tags in
          (
            errors,
            rw found done,
            (
              (λ h. (m, found, iff.0 h)),
              (λ (n, same, all). iff.1 (
                  subst (λ k. All (λ t. present tags t ≡ true) k.required_fields)
                    (some-injective (sym same ∙ found)) all)),
            ),
          )
    ]

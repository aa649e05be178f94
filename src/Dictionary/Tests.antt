-- ===== src/Dictionary/Tests.antt =====
-- Runs of src/dict_compiler.rs on a small dictionary.
use fix_engine.Base.{
  All, Bytes, List, [], arith, codes, if◌then◌else◌, length, none, ok, panics, refl, replicate,
  returns, some, true, ◌++◌, ◌==◌, ◌↔◌, ◌∷◌, ◌≡◌,
}
use fix_engine.Dictionary.{
  CompiledDictionary, CompiledMessageDef, lookup_field, lookup_message, validate_message, present,
  application,
}
use fix_engine.Dictionary.Compile.{from_xml, field_lists, message_loop}
use fix_engine.Dictionary.Index.{last_def}
use fix_engine.Dictionary.Messages.{loops-enough}
use fix_engine.Dictionary.Scan.{field_loop, enum_values, parse_fields}
use fix_engine.Dictionary.Standard.{find_def, lookup_standard, int_type}
use fix_engine.Dictionary.Valid.{from_xml-lookup_field, from_xml-validate_message}

-- A text with single quotes, which stand for double ones.
abbrev quoted : Bytes → Bytes
quoted [] = []
quoted (b ∷ bs) = (if b == 39 then 34 else b) ∷ quoted bs

abbrev xml : Bytes
xml = quoted (
    codes
      "<fix major='4' minor='4'><fields><field number='54' name='Side' type='CHAR'><value enum='1' description='BUY'/></field><field number='55' name='Symbol' type='STRING'/></fields><messages><message name='New' msgtype='D' msgcat='app'><field name='Symbol' required='Y'/><field name='Side' required='N'/></message></messages></fix>")

abbrev compiled : CompiledDictionary
compiled = record {
  fix_version = codes "FIX.4.4";
  fields =
      record {
        tag = 54;
        name = codes "Side";
        field_type = codes "CHAR";
        values = (codes "1", codes "BUY") ∷ [];
      }
      ∷ record { tag = 55; name = codes "Symbol"; field_type = codes "STRING"; values = [] }
      ∷ [];
  messages =
      record {
        msg_type = codes "D";
        name = codes "New";
        category = application;
        required_fields = 55 ∷ [];
        optional_fields = 54 ∷ [];
      }
      ∷ [];
  tag_index = replicate 54 none ++ (some 0 ∷ some 1 ∷ []);
}

compiles : from_xml xml ≡ returns (ok compiled)
unfolding from_xml
compiles = refl

-- A closing tag in place of the end of an opening one makes the children end before they start.
broken_field : parse_fields (codes "<fields><field </field></fields>") ≡ panics
unfolding parse_fields
broken_field = refl

from_xml-lookup_field_example :
    lookup_field compiled 55 ≡ returns (last_def compiled.fields 55 none)
from_xml-lookup_field_example = from_xml-lookup_field xml 55 compiles

from_xml-validate_message_example :
    (errors : List Bytes) × (validate_message compiled (codes "D") (54 ∷ []) ≡ returns errors)
    × ((errors ≡ []) ↔ (
        (m : CompiledMessageDef) × (lookup_message compiled (codes "D") ≡ some m)
        × All (λ t. present (54 ∷ []) t ≡ true) m.required_fields))
from_xml-validate_message_example = from_xml-validate_message xml (codes "D") (54 ∷ []) compiles

loops-enough_example :
    (field_loop 900 xml ≡ field_loop (length xml) xml)
    × (enum_values 900 xml ≡ enum_values (length xml) xml)
    × (message_loop compiled.fields 900 xml ≡ message_loop compiled.fields (length xml) xml)
    × (field_lists compiled.fields 900 xml ≡ field_lists compiled.fields (length xml) xml)
loops-enough_example = loops-enough compiled.fields xml 900 (omega arith)

-- A standard field, and a tag without one.
standard :
    (lookup_standard 108
      ≡ some (record { tag = 108; name = codes "HeartBtInt"; field_type = int_type }))
    × (lookup_standard 99_999 ≡ none)
unfolding find_def
standard = (refl, refl)

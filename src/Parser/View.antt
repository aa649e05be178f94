-- ===== src/Parser/View.antt =====
-- The view that the field loop of src/parser.rs fills: every field can be read back from it.
use fix_engine.Base.{
  Bool, Bytes, List, Option, Outcome, [], ap, append_assoc, arith, false, if◌then◌else◌, length,
  length-append, none, refl, returns, slice, slice-append, some, true, ℕ, ◌++◌, ◌+◌, ◌==◌, ◌>>=◌,
  ◌∙◌, ◌∷◌, ◌≡◌,
}
use fix_engine.Decimal.{decimal}
use fix_engine.Message.{FieldEntry, get_field_in, entry_value}
use fix_engine.Parser.Fields.{value_at, behind}
use fix_engine.Serializer.Writers.{field, wire}

abbrev pub Field : Type 0
Field = ℕ × Bytes

-- The entries of fields that stand one behind another from `pos` on.
abbrev pub entries : ℕ → List Field → List FieldEntry
entries pos [] = []
entries pos ((tag, v) ∷ fs) =
    record { tag = tag; offset = value_at pos tag; length = length v }
    ∷ entries (behind pos tag v) fs

-- The first value of a tag.
abbrev pub lookup : ℕ → List Field → Option Bytes
lookup t [] = none
lookup t ((tag, v) ∷ fs) = if tag == t then some v else lookup t fs

split_value :
    (pre v rest : Bytes) (tag : ℕ)
    → pre ++ (field tag v ++ rest) ≡ (pre ++ (decimal tag ++ b'=' ∷ [])) ++ (v ++ (1 ∷ rest))
split_value pre v rest tag = simp append_assoc

value_start :
    (pre : Bytes) (pos tag : ℕ)
    → pos ≡ length pre
    → value_at pos tag ≡ length (pre ++ (decimal tag ++ b'=' ∷ []))
value_start pre pos tag h =
    omega
      (arith, length-append pre (decimal tag ++ b'=' ∷ []), length-append (decimal tag) (b'=' ∷ []))

pub length-field :
    (tag : ℕ) (v : Bytes) → length (field tag v) ≡ length (decimal tag) + length v + 2
length-field tag v = omega (
  arith,
  length-append (decimal tag ++ b'=' ∷ []) (v ++ 1 ∷ []),
  length-append (decimal tag) (b'=' ∷ []),
  length-append v (1 ∷ []),
)

pub entry_value-field :
    (pre v rest : Bytes) (pos tag : ℕ)
    → pos ≡ length pre
    → entry_value
        (pre ++ (field tag v ++ rest))
        (record { tag = tag; offset = value_at pos tag; length = length v })
      ≡ returns v
unfolding entry_value
entry_value-field pre v rest pos tag h =
    ap (λ b. slice b (value_at pos tag) (length v)) (split_value pre v rest tag)
    ∙ slice-append _ v (1 ∷ rest) (value_at pos tag) (length v) (value_start pre pos tag h) refl

pub behind-length :
    (pre v : Bytes) (pos tag : ℕ)
    → pos ≡ length pre
    → behind pos tag v ≡ length (pre ++ field tag v)
behind-length pre v pos tag h = omega (arith, length-append pre (field tag v), length-field tag v)

pick :
    (b : Bool) {m : Outcome Bytes} {v : Bytes} {n : Outcome (Option Bytes)} {o : Option Bytes}
    → m ≡ returns v
    → n ≡ returns o
    → (if b then (m >>= λ x. returns (some x)) else n) ≡ returns (if b then some v else o)
pick true e k = ap (λ m. m >>= λ x. returns (some x)) e
pick false e k = k

-- In a buffer where fields stand one behind another, the loop of `get_field` over their entries
-- finds the first value of a tag, and nothing for a tag that is not there; it never panics.
pub get_field_in-entries :
    (fs : List Field) (pre post : Bytes) (pos t : ℕ)
    → pos ≡ length pre
    → get_field_in (pre ++ (wire fs ++ post)) (entries pos fs) t ≡ returns (lookup t fs)
unfolding get_field_in
get_field_in-entries [] pre post pos t h = refl
get_field_in-entries ((tag, v) ∷ fs) pre post pos t h =
    let later =
      get_field_in-entries fs (pre ++ field tag v) post (behind pos tag v) t
        (behind-length pre v pos tag h) in
    let here = entry_value-field pre v (wire fs ++ post) pos tag h in
    let regroup = append_assoc (field tag v) (wire fs) post in
    ap (λ b. get_field_in b (entries pos ((tag, v) ∷ fs)) t) (ap (◌++◌ pre) regroup)
    ∙ pick (tag == t) here (rw (append_assoc pre (field tag v) (wire fs ++ post)) at later)

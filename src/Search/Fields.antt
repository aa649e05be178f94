-- ===== src/Search/Fields.antt =====
-- src/simd.rs on the fields of a message.
use fix_engine.Message.Numbers.{decimal_digits}
use fix_engine.Decimal.{decimal}
use fix_engine.Base.{
  ==_refl, All, All-append, Bytes, IsDigit, Lacks, List, [], ap, append_assoc, arith, length,
  length-append, ne→not_eq, refl, some, suc, ℕ, ◌++◌, ◌+◌, ◌∙◌, ◌∷◌, ◌≡◌, ◌≢◌,
}
use fix_engine.Search.{
  find_byte_scalar, Target, count_byte_scalar, count_fields, find_soh, find_equals,
}
use fix_engine.Search.Agree.{find_byte-scalar}
use fix_engine.Search.Loops.{count-append}
use fix_engine.Parser.View.{Field}
use fix_engine.Parser.Strict.{digits-Lacks}
use fix_engine.Serializer.Writers.{field, wire}
use mathlib.Core.Option

count-Lacks : (b : ℕ) (xs : Bytes) → Lacks b xs → count_byte_scalar xs b ≡ 0
unfolding count_byte_scalar
count-Lacks b [] h = refl
count-Lacks b (x ∷ xs) (ne, h) = let ih = count-Lacks b xs h in ground (arith, ih)

find-Lacks :
    (b : ℕ) (xs ys : Bytes) → Lacks b xs → find_byte_scalar (xs ++ (b ∷ ys)) b ≡ some (length xs)
unfolding find_byte_scalar
find-Lacks b [] ys h = rw (==_refl b) refl
find-Lacks b (x ∷ xs) ys (ne, h) =
    rw (ne→not_eq x b ne) (ap (Option.map suc) (find-Lacks b xs ys h))

digits_lack_equals : (ds : Bytes) → All IsDigit ds → Lacks b'=' ds
digits_lack_equals [] h = tt
digits_lack_equals (d ∷ ds) (one, h) = (omega arith, digits_lack_equals ds h)

count-field : (tag : ℕ) (v : Bytes) → Lacks 1 v → count_byte_scalar (field tag v) 1 ≡ 1
unfolding count_byte_scalar
count-field tag v h = omega (
  arith,
  count-append (decimal tag ++ b'=' ∷ []) (v ++ 1 ∷ []) 1,
  count-append (decimal tag) (b'=' ∷ []) 1,
  count-append v (1 ∷ []) 1,
  count-Lacks 1 (decimal tag) (digits-Lacks (decimal tag) (decimal_digits tag)),
  count-Lacks 1 v h,
)

count-wire :
    (fs : List Field) → All (λ f. Lacks 1 f.1) fs → count_byte_scalar (wire fs) 1 ≡ length fs
unfolding count_byte_scalar
count-wire [] h = refl
count-wire ((tag, v) ∷ fs) (one, h) =
    omega (arith, count-append (field tag v) (wire fs) 1, count-field tag v one, count-wire fs h)

-- Of fields that stand one behind another, no value with a delimiter, on any processor: the count is
-- their number, and in front of the first of them the search for a delimiter gives the end of its
-- value, and the search for `=` the end of its tag.
count_fields-wire :
    (t : Target) (tag : ℕ) (v : Bytes) (fs : List Field)
    → All (λ f. Lacks 1 f.1) ((tag, v) ∷ fs)
    → (count_fields t (wire ((tag, v) ∷ fs)) ≡ length fs + 1)
      × (find_soh t (wire ((tag, v) ∷ fs)) ≡ some (length (decimal tag) + 1 + length v))
      × (find_equals t (wire ((tag, v) ∷ fs)) ≡ some (length (decimal tag)))
unfolding count_fields find_soh find_equals
count_fields-wire t tag v fs h =
    let all = wire ((tag, v) ∷ fs) in
    let digits = decimal_digits tag in
    let before = decimal tag ++ (b'=' ∷ v) in
    let to_soh : all ≡ before ++ (1 ∷ wire fs) = simp append_assoc in
    let to_equals : all ≡ decimal tag ++ (b'=' ∷ (v ++ (1 ∷ wire fs))) = simp append_assoc in
    let lacks : Lacks 1 before =
      All-append (λ c. c ≢ 1) (decimal tag) (b'=' ∷ v) (digits-Lacks (decimal tag) digits)
        (omega arith, h.0) in
    let long : length before ≡ length (decimal tag) + 1 + length v =
      omega (arith, length-append (decimal tag) (b'=' ∷ v)) in
    (
      (find_byte-scalar t all 1 (omega arith)).1 ∙ count-wire ((tag, v) ∷ fs) h ∙ (omega arith),
      (find_byte-scalar t all 1 (omega arith)).0
          ∙ ap (λ z. find_byte_scalar z 1) to_soh
          ∙ find-Lacks 1 before (wire fs) lacks
          ∙ ap some long,
      (find_byte-scalar t all b'=' (omega arith)).0
          ∙ ap (λ z. find_byte_scalar z b'=') to_equals
          ∙ find-Lacks b'=' (decimal tag) (v ++ (1 ∷ wire fs))
              (digits_lack_equals (decimal tag) digits),
    )

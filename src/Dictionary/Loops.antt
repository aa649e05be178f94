-- ===== src/Dictionary/Loops.antt =====
-- src/dict_compiler.rs: the loops over elements end before their fuel does.
use fix_engine.Base.{
  Bool-cases, Bytes, List, Option, Option-cases, Outcome, [], ap, arith, codes, drop, inl, inr,
  length, length-drop, ltb, none, panics, refl, returns, some, some-injective, suc, sym, zero, ℕ,
  ◌+◌, ◌<◌, ◌>>=◌, ◌∙◌, ◌∷◌, ◌≡◌, ◌≤◌,
}
use fix_engine.Dictionary.{CompiledFieldDef}
use mathlib.Core.Path.{subst}
use fix_engine.Dictionary.Scan.{
  opened_tag, closed_tag, Compiled, Element, element, unclosed, stop, find, next_field, field_loop,
  field_turn, field_def, push, starts_with, element_at, with_children, next_tag, enum_values,
}

-- A pattern is found inside the text.
pub find-bounds : (pattern text : Bytes) (i : ℕ) → find pattern text ≡ some i → i < length text
unfolding find
find-bounds pattern [] i h = absurd (cc)
find-bounds pattern (b ∷ bs) i h = elim (Bool-cases (starts_with pattern (b ∷ bs))) [
  | inl hit ↦ let k : some 0 ≡ some i = rw hit at h in omega (arith, some-injective k)
  | inr miss ↦ elim (Option-cases (find pattern bs)) [
    | inl e ↦ let k : none ≡ some i = rw (miss, e) at h in absurd (cc)
    | inr (j, e) ↦
        let k : some (j + 1) ≡ some i = rw (miss, e) at h in
        omega (arith, some-injective k, find-bounds pattern bs j e)
  ]
]

pub length-behind :
    (k s : ℕ) (rest : Bytes) → s < length rest → 0 < k → length (drop k (drop s rest)) < length rest
length-behind k s rest h pos = omega (arith, length-drop k (drop s rest), length-drop s rest)

-- What is behind an element is shorter.
Shrinks : ℕ → Outcome Element → Type 0
Shrinks n (returns (element tag_str values behind)) = length behind < n
Shrinks n (returns (unclosed behind)) = length behind < n
Shrinks n (returns stop) = Unit {0}
Shrinks n panics = Unit {0}

module _ (after : Bytes) (n : ℕ) (shorter : (k : ℕ) → 0 < k → length (drop k after) < n) where
  with_children-Shrinks : (oc : ℕ) (close : Option ℕ) → Shrinks n (with_children after oc close)
  unfolding Shrinks
  with_children-Shrinks oc none = shorter (oc + 1) (omega arith)
  with_children-Shrinks oc (some close) = elim (Bool-cases (ltb close (oc + 1))) [
    | inl early ↦ rw early tt
    | inr late ↦ rw late (shorter (close + 8) (omega arith))
  ]

  element_at-Shrinks : (sc oc : Option ℕ) → Shrinks n (element_at after sc oc)
  unfolding Shrinks
  element_at-Shrinks (some sc) (some oc) = elim (Bool-cases (ltb sc oc)) [
    | inl empty ↦ rw empty (shorter (sc + 2) (omega arith))
    | inr full ↦ rw full (with_children-Shrinks oc (find (codes "</field>") after))
  ]
  element_at-Shrinks none (some oc) = with_children-Shrinks oc (find (codes "</field>") after)
  element_at-Shrinks none none = tt
  element_at-Shrinks (some sc) none = tt

next_field-Shrinks : (rest : Bytes) → Shrinks (length rest) (next_field rest)
unfolding next_field Shrinks
next_field-Shrinks rest = elim (Option-cases (find (codes "<field ") rest)) [
  | inl e ↦ rw e tt
  | inr (s, e) ↦
      let after = drop s rest in
      rw e (
        element_at-Shrinks after (length rest)
          (λ k pos. length-behind k s rest (find-bounds (codes "<field ") rest s e) pos)
          (find (codes "/>") after) (find (b'>' ∷ []) after))
]

turn-agree :
    (f g : Bytes → Compiled (List CompiledFieldDef)) (n : ℕ) (o : Outcome Element)
    → Shrinks n o
    → ((b : Bytes) → length b < n → f b ≡ g b)
    → (o >>= field_turn f) ≡ (o >>= field_turn g)
unfolding Shrinks field_turn
turn-agree f g n (returns (element tag_str values behind)) h agree =
    ap (push (field_def tag_str values)) (agree behind h)
turn-agree f g n (returns (unclosed behind)) h agree = agree behind h
turn-agree f g n (returns stop) h agree = refl
turn-agree f g n panics h agree = refl

pub field_loop-agree :
    (n m : ℕ) (rest : Bytes)
    → length rest ≤ n
    → length rest ≤ m
    → field_loop n rest ≡ field_loop m rest
unfolding field_loop next_field find
field_loop-agree zero zero rest h k = refl
field_loop-agree zero (suc m) [] h k = refl
field_loop-agree zero (suc m) (b ∷ rest) h k = absurd (omega arith)
field_loop-agree (suc n) zero [] h k = refl
field_loop-agree (suc n) zero (b ∷ rest) h k = absurd (omega arith)
field_loop-agree (suc n) (suc m) rest h k =
    turn-agree (field_loop n) (field_loop m) (length rest) (next_field rest)
      (next_field-Shrinks rest) λ b less. field_loop-agree n m b (omega arith) (omega arith)

-- What is behind an empty element is shorter.
closed_tag-shrinks :
    (from : Bytes) (o : Option ℕ) (n : ℕ) {tag_str behind : Bytes}
    → ((k : ℕ) → 0 < k → length (drop k from) < n)
    → closed_tag from o ≡ some (tag_str, behind)
    → length behind < n
closed_tag-shrinks from none n shorter h = absurd (cc)
closed_tag-shrinks from (some end) n {behind} shorter h =
    let same : drop (end + 2) from ≡ behind = ap (λ p. p.1) (some-injective h) in
    subst (λ b. length b < n) same (shorter (end + 2) (omega arith))

pub next_tag-shrinks :
    (pattern body : Bytes) {tag_str behind : Bytes}
    → next_tag pattern body ≡ some (tag_str, behind)
    → length behind < length body
unfolding next_tag
next_tag-shrinks pattern body {tag_str} {behind} h = elim (Option-cases (find pattern body)) [
  | inl e ↦ let k : opened_tag body none ≡ some (tag_str, behind) = rw e at h in absurd (cc)
  | inr (s, e) ↦
      closed_tag-shrinks (drop s body) (find (codes "/>") (drop s body)) (length body)
        (λ k pos. length-behind k s body (find-bounds pattern body s e) pos) (rw e at h)
]

enum_values-nil : (n : ℕ) → enum_values n [] ≡ []
unfolding enum_values next_tag find
enum_values-nil zero = refl
enum_values-nil (suc n) = refl

pub enum_values-agree :
    (n m : ℕ) (body : Bytes)
    → length body ≤ n
    → length body ≤ m
    → enum_values n body ≡ enum_values m body
unfolding enum_values
enum_values-agree n m [] h k = enum_values-nil n ∙ sym (enum_values-nil m)
enum_values-agree zero m (b ∷ body) h k = absurd (omega arith)
enum_values-agree (suc n) zero (b ∷ body) h k = absurd (omega arith)
enum_values-agree (suc n) (suc m) (b ∷ body) h k =
    elim (Option-cases (next_tag (codes "<value ") (b ∷ body))) [
      | inl e ↦ rw (enum_values, e) refl
      | inr ((tag_str, behind), e) ↦
          let less = next_tag-shrinks (codes "<value ") (b ∷ body) e in
          rw (enum_values, e, enum_values-agree n m behind (omega arith) (omega arith)) refl
    ]

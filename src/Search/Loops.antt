-- ===== src/Search/Loops.antt =====
-- The vector loops of src/simd.rs, for turns that agree with the search one by one.
use fix_engine.Base.{
  Bool, Bool-cases, Bytes, List, Option, [], ap, arith, drop, drop-drop, false, if◌then◌else◌, inl,
  inr, leb, length, length-drop, length-take, none, not, refl, some, suc, sym, take,
  take-append-drop, true, zero, ℕ, ◌++◌, ◌+◌, ◌==◌, ◌∙◌, ◌∷◌, ◌≡◌, ◌≤◌,
}
use fix_engine.Search.{
  find_byte_scalar, lanes_eq, count_byte_scalar, find_loop, or_else, count_loop, find_tail,
}
use mathlib.Core.Option

shift_shift :
    (o : Option ℕ) (a b c : ℕ)
    → c ≡ a + b
    → Option.map (λ i. a + i) (Option.map (λ i. b + i) o) ≡ Option.map (λ i. c + i) o
shift_shift none a b c h = refl
shift_shift (some i) a b c h = ap some (omega arith)

shift_zero : (o : Option ℕ) → Option.map (λ i. 0 + i) o ≡ o
shift_zero none = refl
shift_zero (some i) = ap some (omega arith)

map-suc_shift :
    (o : Option ℕ) (n : ℕ)
    → Option.map suc (Option.map (λ i. n + i) o) ≡ Option.map (λ i. suc n + i) o
map-suc_shift none n = refl
map-suc_shift (some i) n = ap some (omega arith)

-- A search through two parts.
pub find-append :
    (xs ys : Bytes) (b : ℕ)
    → find_byte_scalar (xs ++ ys) b
      ≡ or_else (find_byte_scalar xs b) 0 (Option.map (λ i. length xs + i) (find_byte_scalar ys b))
unfolding find_byte_scalar
find-append [] ys b = sym (shift_zero (find_byte_scalar ys b))
find-append (x ∷ xs) ys b = elim (Bool-cases (x == b)) [
  | inl e ↦ rw e refl
  | inr e ↦ rw (e, find-append xs ys b) (step (find_byte_scalar xs b) (find_byte_scalar ys b))
]
  where
    step :
        (p q : Option ℕ)
        → Option.map suc (or_else p 0 (Option.map (λ i. length xs + i) q))
          ≡ or_else (Option.map suc p) 0 (Option.map (λ i. suc (length xs) + i) q)
    step none q = map-suc_shift q (length xs)
    step (some i) q = ap some (omega arith)

pub count-append :
    (xs ys : Bytes) (b : ℕ)
    → count_byte_scalar (xs ++ ys) b ≡ count_byte_scalar xs b + count_byte_scalar ys b
unfolding count_byte_scalar
count-append [] ys b = omega arith
count-append (x ∷ xs) ys b = let ih = count-append xs ys b in ground (arith, ih)

pub take-lanes_eq :
    (n : ℕ) (xs ys : List ℕ) → take n (lanes_eq xs ys) ≡ lanes_eq (take n xs) (take n ys)
take-lanes_eq zero xs ys = refl
take-lanes_eq (suc n) [] ys = refl
take-lanes_eq (suc n) (x ∷ xs) [] = refl
take-lanes_eq (suc n) (x ∷ xs) (y ∷ ys) =
    ap (◌∷◌ (if x == y then 255 else 0)) (take-lanes_eq n xs ys)

pub drop-lanes_eq :
    (n : ℕ) (xs ys : List ℕ)
    → length xs ≡ length ys
    → drop n (lanes_eq xs ys) ≡ lanes_eq (drop n xs) (drop n ys)
drop-lanes_eq zero xs ys h = refl
drop-lanes_eq (suc n) [] [] h = refl
drop-lanes_eq (suc n) [] (y ∷ ys) h = refl
drop-lanes_eq (suc n) (x ∷ xs) [] h = absurd (omega arith)
drop-lanes_eq (suc n) (x ∷ xs) (y ∷ ys) h = drop-lanes_eq n xs ys (omega arith)

pub take-length : (xs : List ℕ) (n : ℕ) → n ≡ length xs → take n xs ≡ xs
take-length [] zero h = refl
take-length [] (suc n) h = refl
take-length (x ∷ xs) zero h = absurd (omega arith)
take-length (x ∷ xs) (suc n) h = ap (◌∷◌ x) (take-length xs n (omega arith))

-- Two halves of a search.
pub both :
    (a b : Bool) (k l : ℕ)
    → (if not a then some k else if not b then some (8 + l) else none)
      ≡ or_else
          (if a then none else some k)
          0
          (Option.map (λ i. 8 + i) (if b then none else some l))
both true true k l = refl
both true false k l = refl
both false b k l = ap some (omega arith)

module _ (buf : Bytes) (needle : ℕ) where
  -- The sixteen bytes at an offset.
  abbrev pub chunk : ℕ → Bytes
  chunk offset = take 16 (drop offset buf)

  pub length-chunk : (offset : ℕ) → offset + 16 ≤ length buf → length (chunk offset) ≡ 16
  length-chunk offset h = length-take 16 (drop offset buf) (omega (arith, length-drop offset buf))

  split : (offset : ℕ) → drop offset buf ≡ chunk offset ++ drop (offset + 16) buf
  split offset =
      sym (take-append-drop 16 (drop offset buf))
      ∙ ap (◌++◌ (chunk offset)) (drop-drop (offset + 16) offset 16 buf refl)

  -- Turns that find what the scalar search finds in the sixteen bytes.
  find_loop-tail :
      (turn : ℕ → Option ℕ) (fuel offset : ℕ)
      → ((o : ℕ) → o + 16 ≤ length buf → turn o ≡ find_byte_scalar (chunk o) needle)
      → find_loop turn buf needle fuel offset ≡ find_tail buf needle offset
  unfolding find_loop
  find_loop-tail turn zero offset h = refl
  find_loop-tail turn (suc fuel) offset h = elim (Bool-cases (leb (offset + 16) (length buf))) [
    | inl e ↦
        let within : offset + 16 ≤ length buf = ground arith in
        rw (e, find_loop-tail turn fuel (offset + 16) h, h offset within)
          (step (find_byte_scalar (chunk offset) needle)
              (find_byte_scalar (drop (offset + 16) buf) needle)
            ∙ ap (Option.map (λ i. offset + i)) (sym (parts within)))
    | inr e ↦ rw e refl
  ]
    where
      parts :
          offset + 16 ≤ length buf
          → find_byte_scalar (drop offset buf) needle
            ≡ or_else
                (find_byte_scalar (chunk offset) needle)
                0
                (Option.map (λ i. 16 + i) (find_byte_scalar (drop (offset + 16) buf) needle))
      parts within =
          ap (λ z. find_byte_scalar z needle) (split offset)
          ∙ find-append (chunk offset) (drop (offset + 16) buf) needle
          ∙ ap
              (λ (n : ℕ).
                or_else (find_byte_scalar (chunk offset) needle) 0
                  (Option.map (λ i. n + i) (find_byte_scalar (drop (offset + 16) buf) needle)))
              (length-chunk offset within)

      step :
          (p q : Option ℕ)
          → or_else p offset (Option.map (λ i. offset + 16 + i) q)
            ≡ Option.map (λ i. offset + i) (or_else p 0 (Option.map (λ i. 16 + i) q))
      step none q = sym (shift_shift q offset 16 (offset + 16) refl)
      step (some i) q = ap some (omega arith)

  count_loop-total :
      (turn : ℕ → ℕ) (fuel offset total : ℕ)
      → ((o : ℕ) → o + 16 ≤ length buf → turn o ≡ count_byte_scalar (chunk o) needle)
      → count_loop turn buf needle fuel offset total
        ≡ total + count_byte_scalar (drop offset buf) needle
  unfolding count_loop
  count_loop-total turn zero offset total h = refl
  count_loop-total turn (suc fuel) offset total h =
      elim (Bool-cases (leb (offset + 16) (length buf))) [
        | inl e ↦
            let within : offset + 16 ≤ length buf = ground arith in
            let parts =
              ap (λ z. count_byte_scalar z needle) (split offset)
              ∙ count-append (chunk offset) (drop (offset + 16) buf) needle in
            rw (e, count_loop-total turn fuel (offset + 16) (total + turn offset) h)
              (omega (arith, parts, h offset within))
        | inr e ↦ rw e refl
      ]

  pub find-loop :
      (turn : ℕ → Option ℕ)
      → ((o : ℕ) → o + 16 ≤ length buf → turn o ≡ find_byte_scalar (chunk o) needle)
      → find_loop turn buf needle (length buf) 0 ≡ find_byte_scalar buf needle
  unfolding find_tail
  find-loop turn h = find_loop-tail turn (length buf) 0 h ∙ shift_zero (find_byte_scalar buf needle)

  pub count-loop :
      (turn : ℕ → ℕ)
      → ((o : ℕ) → o + 16 ≤ length buf → turn o ≡ count_byte_scalar (chunk o) needle)
      → count_loop turn buf needle (length buf) 0 0 ≡ count_byte_scalar buf needle
  count-loop turn h = count_loop-total turn (length buf) 0 0 h ∙ (omega arith)

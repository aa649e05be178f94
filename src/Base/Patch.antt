-- ===== src/Base/Patch.antt =====
-- A part of a text overwritten, and what reading it then gives.
use Prim.Native.Nat.{ℕ, zero, suc, ◌+◌, ◌-◌, ◌≤◌}
use mathlib.Core.Path.{◌≡◌, refl, sym, ap, ◌∙◌}
use mathlib.Core.List.{List, [], ◌∷◌, ◌++◌}
use native.Mathlib.Omega.{arith}
use fix_engine.Base.Lists.{
  length, take, drop, length-append, length-take, length-drop, take-append-drop, drop-append,
  drop-drop,
}
use fix_engine.Base.ByteStrings.{Bytes, slice}
use fix_engine.Base.Results.{returns}

pub take-drop_left :
    (n k : ℕ) (xs ys : List ℕ) → n + k ≤ length xs → take k (drop n (xs ++ ys)) ≡ take k (drop n xs)
take-drop_left zero zero xs ys h = refl
take-drop_left zero (suc k) [] ys h = absurd (omega arith)
take-drop_left zero (suc k) (x ∷ xs) ys h = ap (◌∷◌ x) (take-drop_left zero k xs ys (omega arith))
take-drop_left (suc n) zero [] ys h = absurd (omega arith)
take-drop_left (suc n) (suc k) [] ys h = absurd (omega arith)
take-drop_left (suc n) k (x ∷ xs) ys h = take-drop_left n k xs ys (omega arith)

-- A text of the same length in place of a part.
abbrev pub patch : List ℕ → ℕ → ℕ → List ℕ → List ℕ
patch xs o k b = take o xs ++ (b ++ drop (o + k) xs)

pub length-patch :
    (xs b : List ℕ) (o k : ℕ)
    → o + k ≤ length xs
    → length b ≡ k
    → length (patch xs o k b) ≡ length xs
length-patch xs b o k h e = omega (
  arith,
  e,
  length-append (take o xs) (b ++ drop (o + k) xs),
  length-append b (drop (o + k) xs),
  length-take o xs (omega arith),
  length-drop (o + k) xs,
)

pub patch-before :
    (xs b : List ℕ) (o k n : ℕ)
    → o ≤ length xs
    → n + k ≤ o
    → take k (drop n (patch xs o k b)) ≡ take k (drop n xs)
patch-before xs b o k n h l =
    let short : n + k ≤ length (take o xs) = omega (arith, length-take o xs h) in
    take-drop_left n k (take o xs) _ short
    ∙ sym (take-drop_left n k (take o xs) (drop o xs) short)
    ∙ ap (λ z. take k (drop n z)) (take-append-drop o xs)

pub patch-behind :
    (xs b : List ℕ) (o k n : ℕ)
    → o + k ≤ length xs
    → length b ≡ k
    → o + k ≤ n
    → drop n (patch xs o k b) ≡ drop n xs
patch-behind xs b o k n h e l =
    drop-append n (n - o) (take o xs) (b ++ drop (o + k) xs)
      (omega (arith, length-take o xs (omega arith)))
    ∙ drop-append (n - o) (n - (o + k)) b (drop (o + k) xs) (omega (arith, e))
    ∙ drop-drop n (o + k) (n - (o + k)) xs (omega arith)

pub slice-agree :
    (xs ys : List ℕ) (o k : ℕ)
    → length xs ≡ length ys
    → take k (drop o xs) ≡ take k (drop o ys)
    → slice xs o k ≡ slice ys o k
unfolding slice
slice-agree xs ys o k same e = rw (same, e) refl

pub slice-within :
    (xs : List ℕ) (o k : ℕ) → o + k ≤ length xs → slice xs o k ≡ returns (take k (drop o xs))
unfolding slice
slice-within xs o k h = ground arith

pub slice-bound :
    (xs : List ℕ) (o k : ℕ) {old : Bytes} → slice xs o k ≡ returns old → o + k ≤ length xs
unfolding slice
slice-bound xs o k e = ground arith

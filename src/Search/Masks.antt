-- ===== src/Search/Masks.antt =====
-- src/simd.rs: what the comparison masks say of the sixteen bytes.
use fix_engine.Base.{
  Bool, Bool-cases, Bytes, List, Option, [], ap, arith, false, if◌then◌else◌, inl, inr, length,
  ne→not_eq, none, refl, replicate, some, suc, true, zero, ℕ, ◌%◌, ◌*◌, ◌+◌, ◌-◌, ◌/◌, ◌==◌, ◌∙◌,
  ◌∷◌, ◌≡◌, ◌≤◌,
}
use fix_engine.Cluster.Codec.{from_le}
use fix_engine.Search.{
  find_byte_scalar, trailing_zeros, count_byte_scalar, lanes_eq, count_ones, top_bits, sum_of,
  shifted,
}
use mathlib.Core.Option

abbrev pub equal_lanes : Bytes → ℕ → List ℕ
equal_lanes xs b = lanes_eq xs (replicate (length xs) b)

trailing_zeros-double : (n x : ℕ) → trailing_zeros (suc n) (2 * x) ≡ suc (trailing_zeros n x)
unfolding trailing_zeros
trailing_zeros-double n x =
    let even : 2 * x % 2 ≡ 0 = omega arith in
    let half : 2 * x / 2 ≡ x = omega arith in rw (even, half) refl

trailing_zeros-odd : (n x : ℕ) → trailing_zeros (suc n) (1 + 2 * x) ≡ 0
unfolding trailing_zeros
trailing_zeros-odd n x = let odd : (1 + 2 * x) % 2 ≡ 1 = omega arith in rw odd refl

-- The first byte that is found, by the mask and by the rest.
abbrev first : Bool → ℕ → Option ℕ
first zero_mask k = if zero_mask then none else some k

first-suc : (b : Bool) (k : ℕ) → first b (suc k) ≡ Option.map suc (first b k)
first-suc true k = refl
first-suc false k = refl

pub mask-find :
    (xs : Bytes) (b n : ℕ)
    → length xs ≤ n
    → (let mask = top_bits (equal_lanes xs b) in
        if mask == 0 then none else some (trailing_zeros n mask))
      ≡ find_byte_scalar xs b
unfolding find_byte_scalar
mask-find [] b n h = refl
mask-find (x ∷ xs) b zero h = absurd (omega arith)
mask-find (x ∷ xs) b (suc n) h =
    let t = top_bits (equal_lanes xs b) in
    elim (Bool-cases (x == b)) [
      | inl e ↦
          let ne : (1 + 2 * t == 0) ≡ false = ne→not_eq (1 + 2 * t) 0 (omega arith) in
          rw e (rw (ne, trailing_zeros-odd n t) refl)
      | inr e ↦
          let same : (2 * t == 0) ≡ (t == 0) = ground arith in
          let plain : 0 + 2 * t ≡ 2 * t = omega arith in
          rw e (
            rw (plain, same, trailing_zeros-double n t)
              (first-suc (t == 0) (trailing_zeros n t)
                ∙ ap (Option.map suc) (mask-find xs b n (omega arith))))
    ]

count_ones-zero : (n : ℕ) → count_ones n 0 ≡ 0
unfolding count_ones
count_ones-zero zero = refl
count_ones-zero (suc n) = omega (arith, count_ones-zero n)

pub mask-count :
    (xs : Bytes) (b n : ℕ)
    → length xs ≤ n
    → count_ones n (top_bits (equal_lanes xs b)) ≡ count_byte_scalar xs b
unfolding count_byte_scalar count_ones
mask-count [] b n h = count_ones-zero n
mask-count (x ∷ xs) b zero h = absurd (omega arith)
mask-count (x ∷ xs) b (suc n) h =
    let t = top_bits (equal_lanes xs b) in
    let ih = mask-count xs b n (omega arith) in
    elim (Bool-cases (x == b)) [
      | inl e ↦
          let odd : (1 + 2 * t) % 2 ≡ 1 = omega arith in
          let half : (1 + 2 * t) / 2 ≡ t = omega arith in rw e (rw (odd, half, ih) (omega arith))
      | inr e ↦
          let even : (0 + 2 * t) % 2 ≡ 0 = omega arith in
          let half : (0 + 2 * t) / 2 ≡ t = omega arith in rw e (rw (even, half, ih) (omega arith))
    ]

trailing_zeros-byte : (n r : ℕ) → trailing_zeros (8 + n) (0 + 256 * r) ≡ 8 + trailing_zeros n r
trailing_zeros-byte n r =
    let split : 0 + 256 * r ≡ 2 * (2 * (2 * (2 * (2 * (2 * (2 * (2 * r))))))) = omega arith in
    let width : 8 + n ≡ suc (suc (suc (suc (suc (suc (suc (suc n))))))) = omega arith in
    let out : suc (suc (suc (suc (suc (suc (suc (suc (trailing_zeros n r))))))))
        ≡ 8 + trailing_zeros n r =
      omega arith in
    rw (split, width) (simp trailing_zeros-double out)

trailing_zeros-full : (n r : ℕ) → trailing_zeros (8 + n) (255 + 256 * r) ≡ 0
trailing_zeros-full n r =
    let split : 255 + 256 * r ≡ 1 + 2 * (127 + 128 * r) = omega arith in
    let width : 8 + n ≡ suc (7 + n) = omega arith in
    rw (split, width) (trailing_zeros-odd (7 + n) (127 + 128 * r))

-- Eight lanes as one number: the zeros are counted in bytes.
pub lane-find :
    (xs : Bytes) (b n : ℕ)
    → length xs * 8 ≤ n
    → (let lane = from_le (equal_lanes xs b) in
        if lane == 0 then none else some (trailing_zeros n lane / 8))
      ≡ find_byte_scalar xs b
unfolding find_byte_scalar from_le
lane-find [] b n h = refl
lane-find (x ∷ xs) b n h =
    let r = from_le (equal_lanes xs b) in
    let m = n - 8 in
    let wide : n ≡ 8 + m = omega arith in
    elim (Bool-cases (x == b)) [
      | inl e ↦
          let ne : (255 + 256 * r == 0) ≡ false = ne→not_eq (255 + 256 * r) 0 (omega arith) in
          rw e (rw (ne, wide, trailing_zeros-full m r) refl)
      | inr e ↦
          let same : (0 + 256 * r == 0) ≡ (r == 0) = ground arith in
          let next : (8 + trailing_zeros m r) / 8 ≡ suc (trailing_zeros m r / 8) = omega arith in
          rw e (
            rw (same, wide, trailing_zeros-byte m r, next)
              (first-suc (r == 0) (trailing_zeros m r / 8)
                ∙ ap (Option.map suc) (lane-find xs b m (omega arith))))
    ]

pub shifted-count :
    (xs : Bytes) (b : ℕ) → sum_of (shifted 7 (equal_lanes xs b)) ≡ count_byte_scalar xs b
unfolding count_byte_scalar
shifted-count [] b = refl
shifted-count (x ∷ xs) b =
    let ih = shifted-count xs b in
    elim (Bool-cases (x == b)) [
      | inl e ↦ rw e (omega (arith, ih))
      | inr e ↦ rw e (omega (arith, ih))
    ]

pub count_byte_scalar-le : (xs : Bytes) (b : ℕ) → count_byte_scalar xs b ≤ length xs
unfolding count_byte_scalar
count_byte_scalar-le [] b = omega arith
count_byte_scalar-le (x ∷ xs) b = let ih = count_byte_scalar-le xs b in ground (arith, ih)

-- ===== src/Checksum/Compute.antt =====
-- `compute` against the plain sum of the bytes, and the print of a checksum.
use fix_engine.Base.{
  All, Bytes, IsDigit, [], arith, length, value, ℕ, ◌%◌, ◌++◌, ◌+◌, ◌<◌, ◌∷◌, ◌≡◌,
}
use fix_engine.Checksum.{wrapping_add32, Sums, no_sums, add_remainder, add_chunks, compute, format}

abbrev pub sum : Bytes → ℕ
sum [] = 0
sum (b ∷ bs) = b + sum bs

pub sum-append : (xs ys : Bytes) → sum (xs ++ ys) ≡ sum xs + sum ys
sum-append [] ys = omega arith
sum-append (x ∷ xs) ys = omega (arith, sum-append xs ys)

abbrev total : Sums → ℕ
total s = s.sum0 + s.sum1 + s.sum2 + s.sum3

add_remainder-total :
    (bs : Bytes) (s : Sums) → total (add_remainder bs s) % 256 ≡ (total s + sum bs) % 256
unfolding add_remainder wrapping_add32
add_remainder-total [] s = omega arith
add_remainder-total (b ∷ bs) s =
    omega (arith, add_remainder-total bs (record s { sum0 = wrapping_add32 s.sum0 b }))

add_chunks-total :
    (bs : Bytes) (s : Sums) → total (add_chunks bs s) % 256 ≡ (total s + sum bs) % 256
unfolding add_chunks wrapping_add32
add_chunks-total [] s = add_remainder-total [] s
add_chunks-total (a ∷ []) s = add_remainder-total (a ∷ []) s
add_chunks-total (a ∷ b ∷ []) s = add_remainder-total (a ∷ b ∷ []) s
add_chunks-total (a ∷ b ∷ c ∷ []) s = add_remainder-total (a ∷ b ∷ c ∷ []) s
add_chunks-total (a ∷ b ∷ c ∷ d ∷ rest) s = omega (
  arith,
  add_chunks-total rest (record {
    sum0 = wrapping_add32 s.sum0 a;
    sum1 = wrapping_add32 s.sum1 b;
    sum2 = wrapping_add32 s.sum2 c;
    sum3 = wrapping_add32 s.sum3 d;
  }),
)

-- For byte strings of every length, the four wrapping accumulators and the loop over the
-- remainder give the sum of all bytes modulo 256.
compute-sum : (bs : Bytes) → compute bs ≡ sum bs % 256
unfolding compute
compute-sum bs = omega (arith, add_chunks-total bs no_sums)

pub compute-lt : (bs : Bytes) → compute bs < 256
compute-lt bs = omega (arith, compute-sum bs)

-- The print of a byte is three digits, and they spell the byte.
pub format_digits :
    (c : ℕ) → c < 256 → All IsDigit (format c) × (value 0 (format c) ≡ c) × (length (format c) ≡ 3)
unfolding format
format_digits c h = ground arith

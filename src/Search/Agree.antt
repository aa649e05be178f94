-- ===== src/Search/Agree.antt =====
-- src/simd.rs: the vector searches and counts against the scalar ones.
use fix_engine.Base.{
  Bytes, ap, ap₂, arith, drop, false, if◌then◌else◌, length, length-drop, length-take, none, not,
  refl, replicate, some, sym, take, take-append-drop, true, ℕ, ◌+◌, ◌/◌, ◌<◌, ◌==◌, ◌∙◌, ◌≡◌, ◌≤◌,
}
use fix_engine.Cluster.Codec.{from_le}
use fix_engine.Search.{
  other, find_byte_scalar, Sse2, Neon, Target, lanes_eq, count_byte_scalar, sse2_count, top_bits,
  sse2_find, or_else, trailing_zeros, count_ones, neon_find, neon_count, find_byte, sum_of,
  count_byte, x86_64, shifted, aarch64,
}
use fix_engine.Search.Masks.{
  equal_lanes, mask-find, mask-count, lane-find, shifted-count, count_byte_scalar-le,
}
use mathlib.Core.Option
use fix_engine.Search.Loops.{
  find-append, take-lanes_eq, drop-lanes_eq, take-length, both, chunk, length-chunk, find-loop,
  count-loop,
}

module _ (buf : Bytes) (needle : ℕ) where
  sse2_mask :
      (v : Sse2) (o : ℕ)
      → needle < 256
      → o + 16 ≤ length buf
      → v.movemask (v.cmpeq (v.loadu buf o) (v.set1 needle))
        ≡ top_bits (equal_lanes (chunk buf needle o) needle)
  sse2_mask v o small within =
      v.movemask-lanes (v.cmpeq (v.loadu buf o) (v.set1 needle))
      ∙ ap top_bits (v.lanes-cmpeq (v.loadu buf o) (v.set1 needle))
      ∙ ap₂ (λ x y. top_bits (lanes_eq x y)) (v.lanes-loadu buf o within)
          (v.lanes-set1 needle small)
      ∙ ap (λ (n : ℕ). top_bits (lanes_eq (chunk buf needle o) (replicate n needle)))
          (sym (length-chunk buf needle o within))

  neon_lanes :
      (v : Neon) (o : ℕ)
      → needle < 256
      → o + 16 ≤ length buf
      → v.lanes (v.ceq (v.ld1 buf o) (v.dup needle))
        ≡ lanes_eq (chunk buf needle o) (replicate 16 needle)
  neon_lanes v o small within =
      v.lanes-ceq (v.ld1 buf o) (v.dup needle)
      ∙ ap₂ lanes_eq (v.lanes-ld1 buf o within) (v.lanes-dup needle small)

  sse2_find-turn :
      (v : Sse2) (o : ℕ)
      → needle < 256
      → o + 16 ≤ length buf
      → sse2_find v buf needle o ≡ find_byte_scalar (chunk buf needle o) needle
  unfolding sse2_find
  sse2_find-turn v o small within =
      ap (λ m. if m == 0 then none else some (trailing_zeros 32 m)) (sse2_mask v o small within)
      ∙ mask-find (chunk buf needle o) needle 32 (omega (arith, length-chunk buf needle o within))

  sse2_count-turn :
      (v : Sse2) (o : ℕ)
      → needle < 256
      → o + 16 ≤ length buf
      → sse2_count v buf needle o ≡ count_byte_scalar (chunk buf needle o) needle
  unfolding sse2_count
  sse2_count-turn v o small within =
      ap (count_ones 32) (sse2_mask v o small within)
      ∙ mask-count (chunk buf needle o) needle 32 (omega (arith, length-chunk buf needle o within))

  neon_low :
      (v : Neon) (o : ℕ)
      → needle < 256
      → o + 16 ≤ length buf
      → v.lane_u64 (v.ceq (v.ld1 buf o) (v.dup needle)) 0
        ≡ from_le (equal_lanes (take 8 (chunk buf needle o)) needle)
  neon_low v o small within =
      v.lane_u64-low (v.ceq (v.ld1 buf o) (v.dup needle))
      ∙ ap (λ l. from_le (take 8 l)) (neon_lanes v o small within)
      ∙ ap from_le (take-lanes_eq 8 (chunk buf needle o) (replicate 16 needle))
      ∙ ap (λ (n : ℕ). from_le (lanes_eq (take 8 (chunk buf needle o)) (replicate n needle)))
          (sym
            (length-take 8 (chunk buf needle o) (omega (arith, length-chunk buf needle o within))))

  neon_high :
      (v : Neon) (o : ℕ)
      → needle < 256
      → o + 16 ≤ length buf
      → v.lane_u64 (v.ceq (v.ld1 buf o) (v.dup needle)) 1
        ≡ from_le (equal_lanes (drop 8 (chunk buf needle o)) needle)
  neon_high v o small within =
      let long : length (drop 8 (chunk buf needle o)) ≡ 8 =
        omega (arith, length-chunk buf needle o within, length-drop 8 (chunk buf needle o)) in
      v.lane_u64-high (v.ceq (v.ld1 buf o) (v.dup needle))
      ∙ ap (λ l. from_le (take 8 (drop 8 l))) (neon_lanes v o small within)
      ∙ ap (λ l. from_le (take 8 l))
          (drop-lanes_eq 8 (chunk buf needle o) (replicate 16 needle)
            (length-chunk buf needle o within))
      ∙ ap from_le (take-lanes_eq 8 (drop 8 (chunk buf needle o)) (replicate 8 needle))
      ∙ ap (λ l. from_le (lanes_eq l (replicate 8 needle)))
          (take-length (drop 8 (chunk buf needle o)) 8 (sym long))
      ∙ ap (λ (n : ℕ). from_le (lanes_eq (drop 8 (chunk buf needle o)) (replicate n needle)))
          (sym long)

  neon_find-turn :
      (v : Neon) (o : ℕ)
      → needle < 256
      → o + 16 ≤ length buf
      → neon_find v buf needle o ≡ find_byte_scalar (chunk buf needle o) needle
  unfolding neon_find
  neon_find-turn v o small within =
      let c = chunk buf needle o in
      let wide = length-chunk buf needle o within in
      let lo = from_le (equal_lanes (take 8 c) needle) in
      let hi = from_le (equal_lanes (drop 8 c) needle) in
      let eight = length-take 8 c (omega (arith, wide)) in
      ap₂
        (λ (x y : ℕ).
          if not (x == 0)
          then some (trailing_zeros 64 x / 8)
          else if not (y == 0)
          then some (8 + trailing_zeros 64 y / 8)
          else none)
        (neon_low v o small within) (neon_high v o small within)
      ∙ both (lo == 0) (hi == 0) (trailing_zeros 64 lo / 8) (trailing_zeros 64 hi / 8)
      ∙ ap₂ (λ p q. or_else p 0 (Option.map (λ i. 8 + i) q))
          (lane-find (take 8 c) needle 64 (omega (arith, eight)))
          (lane-find (drop 8 c) needle 64 (omega (arith, wide, length-drop 8 c)))
      ∙ ap
          (λ (n : ℕ).
            or_else (find_byte_scalar (take 8 c) needle) 0
              (Option.map (λ i. n + i) (find_byte_scalar (drop 8 c) needle)))
          (sym eight)
      ∙ sym (find-append (take 8 c) (drop 8 c) needle)
      ∙ ap (λ z. find_byte_scalar z needle) (take-append-drop 8 c)

  neon_count-turn :
      (v : Neon) (o : ℕ)
      → needle < 256
      → o + 16 ≤ length buf
      → neon_count v buf needle o ≡ count_byte_scalar (chunk buf needle o) needle
  unfolding neon_count
  neon_count-turn v o small within =
      let cmp = v.ceq (v.ld1 buf o) (v.dup needle) in
      let c = chunk buf needle o in
      let wide = length-chunk buf needle o within in
      let lanes : v.lanes cmp ≡ equal_lanes c needle =
        neon_lanes v o small within ∙ ap (λ (n : ℕ). lanes_eq c (replicate n needle)) (sym wide) in
      let sum : sum_of (v.lanes (v.shr cmp 7)) ≡ count_byte_scalar c needle =
        ap sum_of (v.lanes-shr cmp 7)
        ∙ ap (λ l. sum_of (shifted 7 l)) lanes
        ∙ shifted-count c needle in
      omega (arith, v.addv-lanes (v.shr cmp 7), sum, wide, count_byte_scalar-le c needle)

-- Whatever the processor, its features and the vector intrinsics, if these do what their
-- documentation says of the sixteen lanes: the search for a byte finds the place that the search one
-- by one finds, or none where that finds none, and the count is the same.
pub find_byte-scalar :
    (t : Target) (buf : Bytes) (needle : ℕ)
    → needle < 256
    → (find_byte t buf needle ≡ find_byte_scalar buf needle)
      × (count_byte t buf needle ≡ count_byte_scalar buf needle)
unfolding find_byte count_byte
find_byte-scalar (x86_64 v true) buf needle small = (
  find-loop buf needle (sse2_find v buf needle) (λ o. sse2_find-turn buf needle v o small),
  count-loop buf needle (sse2_count v buf needle) (λ o. sse2_count-turn buf needle v o small),
)
find_byte-scalar (x86_64 v false) buf needle small = (refl, refl)
find_byte-scalar (aarch64 v true) buf needle small = (
  find-loop buf needle (neon_find v buf needle) (λ o. neon_find-turn buf needle v o small),
  count-loop buf needle (neon_count v buf needle) (λ o. neon_count-turn buf needle v o small),
)
find_byte-scalar (aarch64 v false) buf needle small = (refl, refl)
find_byte-scalar other buf needle small = (refl, refl)

-- ===== src/Search.antt =====
-- src/simd.rs: the search for a byte and its count, sixteen bytes at a time or one by one.
-- The vector intrinsics of the two processors are parameters, records of operations with what their
-- documentation says of the sixteen lanes. A pointer into `buf` is an offset. A count is at most the
-- length of a slice, so its `usize` does not wrap.
pub mod Masks
pub mod Loops
pub mod Agree
pub mod Fields
pub mod Tests
use fix_engine.Base.{
  Bool, Bytes, List, Option, [], drop, if◌then◌else◌, leb, length, none, not, replicate, some, suc,
  take, zero, ℕ, ◌%◌, ◌*◌, ◌+◌, ◌/◌, ◌<◌, ◌==◌, ◌^◌, ◌∷◌, ◌≡◌, ◌≤◌,
}
use fix_engine.Tags
use fix_engine.Cluster.Codec.{from_le}
use mathlib.Core.Option

-- `position` of a byte, and `filter` and `count`.
unfoldable pub find_byte_scalar : Bytes → ℕ → Option ℕ
find_byte_scalar [] needle = none
find_byte_scalar (c ∷ cs) needle =
    if c == needle then some 0 else Option.map suc (find_byte_scalar cs needle)

unfoldable pub count_byte_scalar : Bytes → ℕ → ℕ
count_byte_scalar [] needle = 0
count_byte_scalar (c ∷ cs) needle =
    let rest = count_byte_scalar cs needle in if c == needle then suc rest else rest

-- `trailing_zeros` and `count_ones` of an unsigned integer with `width` bits.
unfoldable pub trailing_zeros : ℕ → ℕ → ℕ
trailing_zeros zero x = 0
trailing_zeros (suc width) x = if x % 2 == 0 then suc (trailing_zeros width (x / 2)) else 0

unfoldable pub count_ones : ℕ → ℕ → ℕ
count_ones zero x = 0
count_ones (suc width) x = x % 2 + count_ones width (x / 2)

-- Lane by lane: all ones where the lanes are equal.
abbrev pub lanes_eq : List ℕ → List ℕ → List ℕ
lanes_eq [] ys = []
lanes_eq (x ∷ xs) [] = []
lanes_eq (x ∷ xs) (y ∷ ys) = (if x == y then 255 else 0) ∷ lanes_eq xs ys

-- The most significant bits of lanes, the first lane's lowest.
abbrev pub top_bits : List ℕ → ℕ
top_bits [] = 0
top_bits (l ∷ ls) = l / 128 + 2 * top_bits ls

abbrev pub shifted : ℕ → List ℕ → List ℕ
shifted k [] = []
shifted k (l ∷ ls) = l / 2 ^ k ∷ shifted k ls

abbrev pub sum_of : List ℕ → ℕ
sum_of [] = 0
sum_of (l ∷ ls) = l + sum_of ls

-- `_mm_set1_epi8`, `_mm_loadu_si128`, `_mm_cmpeq_epi8` and `_mm_movemask_epi8`.
pub record Sse2 : Type 1 where
  pub Vector : Type 0
  pub lanes : Vector → List ℕ
  pub set1 : ℕ → Vector
  pub loadu : Bytes → ℕ → Vector
  pub cmpeq : Vector → Vector → Vector
  pub movemask : Vector → ℕ
  pub lanes-set1 : (b : ℕ) → b < 256 → lanes (set1 b) ≡ replicate 16 b
  pub lanes-loadu :
      (buf : Bytes) (offset : ℕ)
      → offset + 16 ≤ length buf
      → lanes (loadu buf offset) ≡ take 16 (drop offset buf)
  pub lanes-cmpeq : (a b : Vector) → lanes (cmpeq a b) ≡ lanes_eq (lanes a) (lanes b)
  pub movemask-lanes : (a : Vector) → movemask a ≡ top_bits (lanes a)

-- `vdupq_n_u8`, `vld1q_u8`, `vceqq_u8`, `vgetq_lane_u64` of `vreinterpretq_u64_u8`, `vshrq_n_u8` and
-- `vaddvq_u8`.
pub record Neon : Type 1 where
  pub Vector : Type 0
  pub lanes : Vector → List ℕ
  pub dup : ℕ → Vector
  pub ld1 : Bytes → ℕ → Vector
  pub ceq : Vector → Vector → Vector
  pub lane_u64 : Vector → ℕ → ℕ
  pub shr : Vector → ℕ → Vector
  pub addv : Vector → ℕ
  pub lanes-dup : (b : ℕ) → b < 256 → lanes (dup b) ≡ replicate 16 b
  pub lanes-ld1 :
      (buf : Bytes) (offset : ℕ)
      → offset + 16 ≤ length buf
      → lanes (ld1 buf offset) ≡ take 16 (drop offset buf)
  pub lanes-ceq : (a b : Vector) → lanes (ceq a b) ≡ lanes_eq (lanes a) (lanes b)
  pub lane_u64-low : (a : Vector) → lane_u64 a 0 ≡ from_le (take 8 (lanes a))
  pub lane_u64-high : (a : Vector) → lane_u64 a 1 ≡ from_le (take 8 (drop 8 (lanes a)))
  pub lanes-shr : (a : Vector) (k : ℕ) → lanes (shr a k) ≡ shifted k (lanes a)
  pub addv-lanes : (a : Vector) → addv a ≡ sum_of (lanes a) % 256

-- What a turn of the vector loops does on the sixteen bytes at an offset.
unfoldable pub sse2_find : Sse2 → Bytes → ℕ → ℕ → Option ℕ
sse2_find v buf needle offset =
    let mask = v.movemask (v.cmpeq (v.loadu buf offset) (v.set1 needle)) in
    if mask == 0 then none else some (trailing_zeros 32 mask)

unfoldable pub sse2_count : Sse2 → Bytes → ℕ → ℕ → ℕ
sse2_count v buf needle offset =
    count_ones 32 (v.movemask (v.cmpeq (v.loadu buf offset) (v.set1 needle)))

unfoldable pub neon_find : Neon → Bytes → ℕ → ℕ → Option ℕ
neon_find v buf needle offset =
    let cmp = v.ceq (v.ld1 buf offset) (v.dup needle) in
    let lo = v.lane_u64 cmp 0 in
    let hi = v.lane_u64 cmp 1 in
    if not (lo == 0)
    then some (trailing_zeros 64 lo / 8)
    else if not (hi == 0)
    then some (8 + trailing_zeros 64 hi / 8)
    else none

unfoldable pub neon_count : Neon → Bytes → ℕ → ℕ → ℕ
neon_count v buf needle offset = v.addv (v.shr (v.ceq (v.ld1 buf offset) (v.dup needle)) 7)

-- The scalar tail behind the vector loop.
unfoldable pub find_tail : Bytes → ℕ → ℕ → Option ℕ
unfolding find_byte_scalar
find_tail buf needle offset =
    Option.map (λ i. offset + i) (find_byte_scalar (drop offset buf) needle)

abbrev pub or_else : Option ℕ → ℕ → Option ℕ → Option ℕ
or_else none offset rest = rest
or_else (some i) offset rest = some (offset + i)

-- The loops of both processors, for what a turn does; each turn passes sixteen bytes, so the length
-- is enough fuel.
unfoldable pub find_loop : (ℕ → Option ℕ) → Bytes → ℕ → ℕ → ℕ → Option ℕ
unfolding find_tail
find_loop turn buf needle zero offset = find_tail buf needle offset
find_loop turn buf needle (suc fuel) offset =
    let rest = find_loop turn buf needle fuel (offset + 16) in
    if leb (offset + 16) (length buf)
    then or_else (turn offset) offset rest
    else find_tail buf needle offset

unfoldable pub count_loop : (ℕ → ℕ) → Bytes → ℕ → ℕ → ℕ → ℕ → ℕ
unfolding count_byte_scalar
count_loop turn buf needle zero offset total = total + count_byte_scalar (drop offset buf) needle
count_loop turn buf needle (suc fuel) offset total =
    let rest = count_loop turn buf needle fuel (offset + 16) (total + turn offset) in
    if leb (offset + 16) (length buf)
    then rest
    else total + count_byte_scalar (drop offset buf) needle

unfoldable pub find_byte_sse2 : Sse2 → Bytes → ℕ → Option ℕ
unfolding find_loop sse2_find
find_byte_sse2 v buf needle = find_loop (sse2_find v buf needle) buf needle (length buf) 0

unfoldable pub count_byte_sse2 : Sse2 → Bytes → ℕ → ℕ
unfolding count_loop sse2_count
count_byte_sse2 v buf needle = count_loop (sse2_count v buf needle) buf needle (length buf) 0 0

unfoldable pub find_byte_neon : Neon → Bytes → ℕ → Option ℕ
unfolding find_loop neon_find
find_byte_neon v buf needle = find_loop (neon_find v buf needle) buf needle (length buf) 0

unfoldable pub count_byte_neon : Neon → Bytes → ℕ → ℕ
unfolding count_loop neon_count
count_byte_neon v buf needle = count_loop (neon_count v buf needle) buf needle (length buf) 0 0

-- The processor that the crate is built for, and whether the feature is detected.
pub data Target : Type 1 where
  x86_64 : Sse2 → Bool → Target
  aarch64 : Neon → Bool → Target
  other : Target

unfoldable pub find_byte : Target → Bytes → ℕ → Option ℕ
unfolding find_byte_sse2 find_byte_neon
find_byte (x86_64 v detected) buf needle =
    if detected then find_byte_sse2 v buf needle else find_byte_scalar buf needle
find_byte (aarch64 v detected) buf needle =
    if detected then find_byte_neon v buf needle else find_byte_scalar buf needle
find_byte other buf needle = find_byte_scalar buf needle

unfoldable pub count_byte : Target → Bytes → ℕ → ℕ
unfolding count_byte_sse2 count_byte_neon
count_byte (x86_64 v detected) buf needle =
    if detected then count_byte_sse2 v buf needle else count_byte_scalar buf needle
count_byte (aarch64 v detected) buf needle =
    if detected then count_byte_neon v buf needle else count_byte_scalar buf needle
count_byte other buf needle = count_byte_scalar buf needle

unfoldable pub find_soh : Target → Bytes → Option ℕ
unfolding find_byte
find_soh t buf = find_byte t buf Tags.soh

unfoldable pub count_fields : Target → Bytes → ℕ
unfolding count_byte
count_fields t buf = count_byte t buf Tags.soh

unfoldable pub find_equals : Target → Bytes → Option ℕ
unfolding find_byte
find_equals t buf = find_byte t buf Tags.equals

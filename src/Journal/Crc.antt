-- ===== src/Journal/Crc.antt =====
-- src/journal.rs: the width of the checksum and of the session hash.
use fix_engine.Base.{
  All, Bytes, IsByte, [], arith, suc, zero, ℕ, ◌%◌, ◌*◌, ◌/◌, ◌<◌, ◌^◌, ◌∷◌, ◌≡◌, ◌≤◌,
}
use Prim.Native.Nat.{bit_xor, bit_xor-bitwise, digits, differ}
use native.Mathlib.Numerals.{unary_clauses}
use fix_engine.Journal.{crc_bit, crc_bits, crc_over, crc32_simple}

differ-le : (x y : ℕ) → x ≤ 1 → y ≤ 1 → differ x y ≤ 1
differ-le zero y h k = k
differ-le (suc x) zero h k = h
differ-le (suc x) (suc y) h k = differ-le x y (omega arith) (omega arith)

digits-lt : (n w a b : ℕ) → a < 2 ^ w → b < 2 ^ w → digits (λ b. b) differ n a b < 2 ^ w
digits-lt zero w a b h k = k
digits-lt (suc n) w zero b h k = k
digits-lt (suc n) zero (suc a) b h k = absurd (omega arith)
digits-lt (suc n) (suc w) (suc a) b h k =
    let double : 2 ^ suc w ≡ 2 ^ w * 2 = simp unary_clauses in
    let rest =
      digits-lt n w (suc a / 2) (b / 2) (omega (arith, double, h)) (omega (arith, double, k)) in
    let last = differ-le (suc a % 2) (b % 2) (omega arith) (omega arith) in
    omega (arith, rest, last, double)

bit_xor-lt : (w a b : ℕ) → a < 2 ^ w → b < 2 ^ w → bit_xor a b < 2 ^ w
bit_xor-lt w a b h k = rw (bit_xor-bitwise a b) (digits-lt a w a b h k)

crc_bit-lt : (crc : ℕ) → crc < 2 ^ 32 → crc_bit crc < 2 ^ 32
crc_bit-lt crc h =
    let shifted : bit_xor (crc / 2) 0xEDB8_8320 < 2 ^ 32 =
      bit_xor-lt 32 (crc / 2) 0xEDB8_8320 (omega arith) (omega arith) in
    ground (arith, shifted)

crc_bits-lt : (n crc : ℕ) → crc < 2 ^ 32 → crc_bits n crc < 2 ^ 32
unfolding crc_bits
crc_bits-lt zero crc h = h
crc_bits-lt (suc n) crc h = crc_bits-lt n (crc_bit crc) (crc_bit-lt crc h)

crc_over-lt : (bs : Bytes) (crc : ℕ) → All IsByte bs → crc < 2 ^ 32 → crc_over bs crc < 2 ^ 32
unfolding crc_over
crc_over-lt [] crc hb h = h
crc_over-lt (b ∷ bs) crc (hb, hbs) h =
    crc_over-lt bs _ hbs (crc_bits-lt 8 (bit_xor crc b) (bit_xor-lt 32 crc b h (omega arith)))

pub crc32_simple-lt : (bs : Bytes) → All IsByte bs → crc32_simple bs < 2 ^ 32
unfolding crc32_simple
crc32_simple-lt bs h =
    bit_xor-lt 32 (crc_over bs 0xFFFF_FFFF) 0xFFFF_FFFF (crc_over-lt bs 0xFFFF_FFFF h (omega arith))
      (omega arith)

-- ===== src/Message/Numbers.antt =====
-- The number parsers of src/message.rs read back decimal prints.
use fix_engine.Decimal.{decimal, pow10, emit-cons, emit_digits, value-emit}
use fix_engine.Base.{
  All, Bool-cases, Bytes, IsDigit, [], ap, arith, if◌then◌else◌, inl, inr, leb, refl, some, value,
  ℕ, ◌%◌, ◌*◌, ◌+◌, ◌-◌, ◌<◌, ◌^◌, ◌∙◌, ◌∷◌, ◌≡◌, ◌≢◌, ◌≤◌,
}
use fix_engine.Message.{parse_digits, parse_u64, parse_i64, neg64}

-- On digits that spell a number below 2 ^ 64 the loop gives that number.
pub le-value : (bs : Bytes) (n : ℕ) → n ≤ value n bs
le-value [] n = omega arith
le-value (b ∷ bs) n = omega (arith, le-value bs (n * 10 + (b - b'0')))

parse_digits-value :
    (bs : Bytes) (n : ℕ)
    → All IsDigit bs
    → value n bs < 2 ^ 64
    → parse_digits bs n ≡ some (value n bs)
unfolding parse_digits
parse_digits-value [] n h fits = refl
parse_digits-value (b ∷ bs) n (hb, hs) fits =
    let m = n * 10 + (b - b'0') in
    let small : m % 2 ^ 64 ≡ m = omega (arith, le-value bs m) in
    rw small (ground (arith, parse_digits-value bs m hs fits))

-- The loop fails exactly where some byte is no digit.
pub parse_u64-value :
    (bs : Bytes) → bs ≢ [] → All IsDigit bs → value 0 bs < 2 ^ 64 → parse_u64 bs ≡ some (value 0 bs)
unfolding parse_u64
parse_u64-value [] ne h fits = absurd (ne refl)
parse_u64-value (b ∷ bs) ne h fits = parse_digits-value (b ∷ bs) 0 h fits

decimal_fits : (n : ℕ) → n < 2 ^ 64 → n < pow10 20
decimal_fits n h = omega arith

pub value-decimal : (n : ℕ) → n < 2 ^ 64 → value 0 (decimal n) ≡ n
unfolding decimal
value-decimal n h = value-emit 20 n [] (omega arith) (decimal_fits n h)

pub decimal_digits : (n : ℕ) → All IsDigit (decimal n)
unfolding decimal
decimal_digits n = emit_digits 20 n [] tt

pub decimal-cons : (n : ℕ) → (d : ℕ) × (ds : Bytes) × (decimal n ≡ d ∷ ds)
unfolding decimal
decimal-cons n = emit-cons 20 n [] (omega arith)

parse_digits-decimal : (n : ℕ) → n < 2 ^ 64 → parse_digits (decimal n) 0 ≡ some n
parse_digits-decimal n h =
    let v = value-decimal n h in
    parse_digits-value (decimal n) 0 (decimal_digits n) (omega arith) ∙ ap some v

-- The decimal print of a signed 64-bit number, on its bit pattern.
unfoldable pub signed_decimal : ℕ → Bytes
signed_decimal w = if leb (2 ^ 63) w then b'-' ∷ decimal (neg64 w) else decimal w

-- `parse_u64` reads back the decimal print of every number below 2 ^ 64.
pub parse_u64-decimal : (n : ℕ) → n < 2 ^ 64 → parse_u64 (decimal n) ≡ some n
unfolding parse_u64
parse_u64-decimal n h =
    let (d, ds, e) = decimal-cons n in let p = parse_digits-decimal n h in rw e (rw e at p)

parse_i64-digits : (d : ℕ) (ds : Bytes) → IsDigit d → parse_i64 (d ∷ ds) ≡ parse_digits (d ∷ ds) 0
unfolding parse_i64
parse_i64-digits d ds h = ground arith

parse_i64-decimal : (w : ℕ) → w < 2 ^ 64 → parse_i64 (decimal w) ≡ some w
parse_i64-decimal w h =
    let (d, ds, e) = decimal-cons w in
    let p = parse_digits-decimal w h in
    let digits = decimal_digits w in rw e (parse_i64-digits d ds (rw e at digits).0 ∙ (rw e at p))

-- `parse_i64` reads back the signed decimal print of every 64-bit pattern, the least number included.
pub parse_i64-signed_decimal : (w : ℕ) → w < 2 ^ 64 → parse_i64 (signed_decimal w) ≡ some w
unfolding parse_i64 signed_decimal
parse_i64-signed_decimal w h = elim (Bool-cases (leb (2 ^ 63) w)) [
  | inl negative ↦
      let q = parse_digits-decimal (neg64 w) (omega arith) in
      rw negative (rw q (ap some (ground arith)))
  | inr positive ↦ rw positive (parse_i64-decimal w h)
]

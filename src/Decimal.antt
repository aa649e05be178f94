-- ===== src/Decimal.antt =====
-- The decimal print of a number, one digit at a time: the reference for the serializer's table
-- driven printers and for the number parsers.
use fix_engine.Base.{
  All, Bool-cases, Bytes, IsDigit, [], ap, arith, if◌then◌else◌, inl, inr, length, ltb, refl, suc,
  value, zero, ℕ, ◌%◌, ◌*◌, ◌+◌, ◌/◌, ◌<◌, ◌∙◌, ◌∷◌, ◌≡◌, ◌≤◌,
}

abbrev pub pow10 : ℕ → ℕ
pow10 zero = 1
pow10 (suc k) = 10 * pow10 k

-- The digits of `n` in front of `out`, at most `k` of them.
unfoldable pub emit : ℕ → ℕ → Bytes → Bytes
emit zero n out = out
emit (suc k) n out =
    let more = emit k (n / 10) ((b'0' + n % 10) ∷ out) in
    if ltb n 10 then (b'0' + n) ∷ out else more

-- Twenty digits hold every 64-bit number.
unfoldable pub decimal : ℕ → Bytes
decimal n = emit 20 n []

-- Exactly `k` digits, with leading zeros.
unfoldable pub padded : ℕ → ℕ → Bytes → Bytes
padded zero n out = out
padded (suc k) n out = padded k (n / 10) ((b'0' + n % 10) ∷ out)

pub emit_fuel :
    (j k n : ℕ) (out : Bytes)
    → 0 < j
    → 0 < k
    → n < pow10 j
    → n < pow10 k
    → emit j n out ≡ emit k n out
unfolding emit
emit_fuel zero k n out p q hj hk = absurd (omega arith)
emit_fuel (suc j) zero n out p q hj hk = absurd (omega arith)
emit_fuel (suc zero) (suc zero) n out p q hj hk = refl
emit_fuel (suc zero) (suc (suc k)) n out p q hj hk = ground arith
emit_fuel (suc (suc j)) (suc zero) n out p q hj hk = ground arith
emit_fuel (suc (suc j)) (suc (suc k)) n out p q hj hk =
    let ih =
      emit_fuel (suc j) (suc k) (n / 10) ((b'0' + n % 10) ∷ out) (omega arith) (omega arith)
        (omega arith) (omega arith) in
    rw ih

pub value-emit :
    (k n : ℕ) (out : Bytes) → 0 < k → n < pow10 k → value 0 (emit k n out) ≡ value n out
unfolding emit
value-emit zero n out p h = absurd (omega arith)
value-emit (suc zero) n out p h = ground arith
value-emit (suc (suc k)) n out p h =
    ground (arith, value-emit (suc k) (n / 10) ((b'0' + n % 10) ∷ out) (omega arith) (omega arith))

pub emit_digits : (k n : ℕ) (out : Bytes) → All IsDigit out → All IsDigit (emit k n out)
unfolding emit
emit_digits zero n out h = h
emit_digits (suc k) n out h = ground (arith, emit_digits k (n / 10) ((b'0' + n % 10) ∷ out))

pub length-emit : (k n : ℕ) (out : Bytes) → length (emit k n out) ≤ k + length out
unfolding emit
length-emit zero n out = omega arith
length-emit (suc k) n out = ground (arith, length-emit k (n / 10) ((b'0' + n % 10) ∷ out))

-- A print is never empty.
pub emit-cons : (k n : ℕ) (out : Bytes) → 0 < k → (d : ℕ) × (ds : Bytes) × (emit k n out ≡ d ∷ ds)
unfolding emit
emit-cons zero n out p = absurd (omega arith)
emit-cons (suc zero) n out p = elim (Bool-cases (ltb n 10)) [
  | inl small ↦ (b'0' + n, out, rw small)
  | inr large ↦ (b'0' + n % 10, out, rw large)
]
emit-cons (suc (suc k)) n out p = elim (Bool-cases (ltb n 10)) [
  | inl small ↦ (b'0' + n, out, rw small)
  | inr large ↦
      let (d, ds, e) = emit-cons (suc k) (n / 10) ((b'0' + n % 10) ∷ out) (omega arith) in
      (d, ds, rw large e)
]

pub length-padded : (k n : ℕ) (out : Bytes) → length (padded k n out) ≡ k + length out
unfolding padded
length-padded zero n out = omega arith
length-padded (suc k) n out = omega (arith, length-padded k (n / 10) ((b'0' + n % 10) ∷ out))

pub padded_digits : (k n : ℕ) (out : Bytes) → All IsDigit out → All IsDigit (padded k n out)
unfolding padded
padded_digits zero n out h = h
padded_digits (suc k) n out h =
    padded_digits k (n / 10) ((b'0' + n % 10) ∷ out) ((omega arith, omega arith), h)

pub value-padded : (k n : ℕ) (out : Bytes) → n < pow10 k → value 0 (padded k n out) ≡ value n out
unfolding padded
value-padded zero n out h = ap (λ m. value m out) (omega arith)
value-padded (suc k) n out h =
    value-padded k (n / 10) ((b'0' + n % 10) ∷ out) (omega arith)
    ∙ ap (λ m. value m out) (omega arith)

pub decimal-zero : decimal 0 ≡ b'0' ∷ []
unfolding decimal emit
decimal-zero = refl

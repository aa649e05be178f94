-- ===== src/Serializer/Digits.antt =====
-- The serializer's printers, two digits at a time from a table, against the reference print.
use fix_engine.Base.{
  ==_iff, Bool-cases, Bytes, [], ap, arith, false, inl, inr, leb, length, le→not_ltb, lt→ltb, refl,
  replicate, returns, suc, sym, tables_agree, tables_agree_at, zero, ℕ, ◌%◌, ◌*◌, ◌++◌, ◌+◌, ◌-◌,
  ◌/◌, ◌<◌, ◌==◌, ◌∙◌, ◌∷◌, ◌≡◌, ◌≤◌,
}
use fix_engine.Decimal.{pow10, emit, emit_fuel, decimal, padded}
use fix_engine.Serializer.{pair_at, digit_pair, last_digits, fill, low_digits, write_u64_to_buf}

tens : (r : ℕ) → r < 100 → pair_at (r * 2) ≡ b'0' + r / 10
unfolding tables_agree pair_at
tens r h = tables_agree_at (λ k. pair_at (k * 2)) (λ k. b'0' + k / 10) 100 r h refl

units : (r : ℕ) → r < 100 → pair_at (r * 2 + 1) ≡ b'0' + r % 10
unfolding tables_agree pair_at
units r h = tables_agree_at (λ k. pair_at (k * 2 + 1)) (λ k. b'0' + k % 10) 100 r h refl

digit_pair_cons : (r : ℕ) → digit_pair r ≡ pair_at (r * 2) ∷ pair_at (r * 2 + 1) ∷ []
unfolding digit_pair
digit_pair_cons r = refl

-- The table holds the tens and the units of each number below 100.
pub digit_pair_lem : (r : ℕ) → r < 100 → digit_pair r ≡ (b'0' + r / 10) ∷ (b'0' + r % 10) ∷ []
digit_pair_lem r h = rw (digit_pair_cons r, tens r h, units r h)

emit_one : (i val : ℕ) (out : Bytes) → val < 10 → emit (suc i) val out ≡ (b'0' + val) ∷ out
unfolding emit
emit_one i val out h = rw (lt→ltb val 10 h)

emit_pair :
    (i val : ℕ) (out : Bytes)
    → 10 ≤ val
    → val < 100
    → emit (suc (suc i)) val out ≡ (b'0' + val / 10) ∷ (b'0' + val % 10) ∷ out
unfolding emit
emit_pair i val out h k =
    rw (le→not_ltb val 10 h) (emit_one i (val / 10) ((b'0' + val % 10) ∷ out) (omega arith))

last_digits-emit :
    (i val : ℕ) (out : Bytes)
    → 0 < i
    → val < 100
    → val < pow10 i
    → last_digits i val out ≡ returns (emit i val out)
unfolding last_digits
last_digits-emit zero val out p h k = absurd (omega arith)
last_digits-emit (suc zero) val out p h k = ground (arith, emit_one 0 val out)
last_digits-emit (suc (suc i)) val out p h k =
    ground (arith, digit_pair_lem val h, emit_one (suc i) val out, emit_pair i val out)

emit_two :
    (i val : ℕ) (out : Bytes)
    → 0 < i
    → 100 ≤ val
    → emit (suc (suc i)) val out
      ≡ emit i (val / 100) ((b'0' + val % 100 / 10) ∷ (b'0' + val % 100 % 10) ∷ out)
unfolding emit
emit_two (suc i) val out p large = ground (arith)
emit_two zero val out p large = absurd (omega arith)

-- The scratch array of `i` bytes holds every number of at most `i` digits, and the pairs spell it.
pub fill-emit :
    (i val : ℕ) (out : Bytes) → 0 < i → val < pow10 i → fill i val out ≡ returns (emit i val out)
unfolding fill
fill-emit zero val out p h = absurd (omega arith)
fill-emit (suc zero) val out p h =
    ground (arith, last_digits-emit 1 val out (omega arith) (omega arith) h)
fill-emit (suc (suc zero)) val out p h =
    ground (arith, last_digits-emit 2 val out (omega arith) (omega arith) h)
fill-emit (suc (suc (suc i))) val out p h = elim (Bool-cases (leb 100 val)) [
  | inl large ↦ ground (
    arith,
    digit_pair_lem (val % 100),
    emit_two (suc i) val out,
    fill-emit (suc i) (val / 100) (digit_pair (val % 100) ++ out) (omega arith) (omega arith),
  )
  | inr small ↦
      ground (arith, last_digits-emit (suc (suc (suc i))) val out (omega arith) (ground arith) h)
]

-- A scratch array of `i` bytes takes every number of at most `i` digits, and what the pairs of the
-- table spell in it is the decimal print, one digit at a time, of that number.
pub fill-decimal :
    (i n : ℕ) → 0 < i → n < pow10 i → n < pow10 20 → fill i n [] ≡ returns (decimal n)
unfolding decimal
fill-decimal i n p h k = fill-emit i n [] p h ∙ ap returns (emit_fuel i 20 n [] p (omega arith) h k)

-- The digits of the body length behind zeros are the six lowest digits.
padded-zero : (k : ℕ) (out : Bytes) → padded k 0 out ≡ replicate k b'0' ++ out
unfolding padded
padded-zero zero out = refl
padded-zero (suc k) out = padded-zero k (b'0' ∷ out) ∙ shift k out
  where
    shift :
        (k : ℕ) (out : Bytes) → replicate k b'0' ++ b'0' ∷ out ≡ b'0' ∷ (replicate k b'0' ++ out)
    shift zero out = refl
    shift (suc k) out = ap (◌∷◌ b'0') (shift k out)

length-low_digits : (k n : ℕ) (out : Bytes) → length out ≤ length (low_digits k n out)
unfolding low_digits
length-low_digits zero n out = omega arith
length-low_digits (suc k) n out =
    ground (arith, length-low_digits k (n / 10) ((b'0' + n % 10) ∷ out))

low_digits-le : (k n : ℕ) (out : Bytes) → length (low_digits k n out) ≤ k + length out
unfolding low_digits
low_digits-le zero n out = omega arith
low_digits-le (suc k) n out = ground (arith, low_digits-le k (n / 10) ((b'0' + n % 10) ∷ out))

low_digits_more :
    (k : ℕ) (out more target : Bytes)
    → replicate (k + suc (length out) - length more) b'0' ++ more ≡ target
    → replicate (suc k + length out - length more) b'0' ++ more ≡ target
low_digits_more k out more target h =
    let e : suc k + length out - length more ≡ k + suc (length out) - length more = omega arith in
    rw e h

low_digits-padded :
    (k n : ℕ) (out : Bytes)
    → replicate (k + length out - length (low_digits k n out)) b'0' ++ low_digits k n out
      ≡ padded k n out
unfolding low_digits padded
low_digits-padded zero n out =
    let e : 0 + length out - length out ≡ 0 = omega arith in ap (λ z. replicate z b'0' ++ out) e
low_digits-padded (suc k) n out = elim (Bool-cases (n == 0)) [
  | inl zero_now ↦
      let e : suc k + length out - length out ≡ suc k = omega arith in
      let z : n ≡ 0 = (==_iff n 0).0 zero_now in
      rw zero_now (rw e (sym (rw z (padded-zero (suc k) out))))
  | inr more ↦
      rw more (low_digits_more k out _ _ (low_digits-padded k (n / 10) ((b'0' + n % 10) ∷ out)))
]

write_u64_to_buf-more : (n : ℕ) → (n == 0) ≡ false → write_u64_to_buf n ≡ low_digits 6 n []
unfolding write_u64_to_buf
write_u64_to_buf-more n more = rw more

write_u64_to_buf-zero :
    (n : ℕ)
    → n ≡ 0
    → (replicate (6 - length (write_u64_to_buf n)) b'0' ++ write_u64_to_buf n ≡ padded 6 n [])
      × (length (write_u64_to_buf n) ≤ 6)
unfolding write_u64_to_buf padded
write_u64_to_buf-zero n z = rw z (refl, omega arith)

-- The digits of a body length, right-justified behind zeros, are its six lowest digits.
pub write_u64_to_buf-padded :
    (n : ℕ)
    → (replicate (6 - length (write_u64_to_buf n)) b'0' ++ write_u64_to_buf n ≡ padded 6 n [])
      × (length (write_u64_to_buf n) ≤ 6)
write_u64_to_buf-padded n = elim (Bool-cases (n == 0)) [
  | inl zero_now ↦ write_u64_to_buf-zero n ((==_iff n 0).0 zero_now)
  | inr more ↦ rw (write_u64_to_buf-more n more) (low_digits-padded 6 n [], low_digits-le 6 n [])
]

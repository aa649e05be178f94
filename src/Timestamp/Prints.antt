-- ===== src/Timestamp/Prints.antt =====
-- src/timestamp.rs: the parts of an instant and what stands in its prints.
use fix_engine.Base.{
  All, Bytes, IsDigit, arith, length, refl, value, ℕ, ◌%◌, ◌*◌, ◌+◌, ◌-◌, ◌/◌, ◌<◌, ◌≡◌,
}
use fix_engine.Timestamp.{digit, digits3, digits2, digits6, digits4, digits9}

-- `bs` is `n` in `w` decimal digits.
abbrev pub Prints : ℕ → ℕ → Bytes → Type 0
Prints w n bs = (length bs ≡ w) × All IsDigit bs × (value 0 bs ≡ n)

digit-below : (n : ℕ) → n < 10 → digit n ≡ b'0' + n
digit-below n h = omega arith

digit-IsDigit : (n : ℕ) → n < 10 → IsDigit (digit n)
digit-IsDigit n h = omega arith

-- One more digit behind a number.
digit-append : (q r : ℕ) → q ≡ r / 10 → q * 10 + (digit (r % 10) - b'0') ≡ r
digit-append q r e = rw (digit-below (r % 10) (omega arith)) (omega arith)

digit-first : (q : ℕ) → q < 10 → 0 * 10 + (digit q - b'0') ≡ q
digit-first q h = rw (digit-below q h) (omega arith)

pub digits2-Prints : (v : ℕ) → v < 100 → Prints 2 v (digits2 v)
unfolding digits2
digits2-Prints v h = (
  refl,
  (digit-IsDigit (v / 10) (omega arith), (digit-IsDigit (v % 10) (omega arith), tt)),
  rw (digit-first (v / 10) (omega arith), digit-append (v / 10) (v) (omega arith)) refl,
)

pub digits3-Prints : (v : ℕ) → v < 1000 → Prints 3 v (digits3 v)
unfolding digits3
digits3-Prints v h = (
  refl,
  (
    digit-IsDigit (v / 100) (omega arith),
    (digit-IsDigit (v / 10 % 10) (omega arith), (digit-IsDigit (v % 10) (omega arith), tt)),
  ),
  rw
      (
        digit-first (v / 100) (omega arith),
        digit-append (v / 100) (v / 10) (omega arith),
        digit-append (v / 10) (v) (omega arith),
      )
      refl,
)

pub digits4-Prints : (v : ℕ) → v < 10000 → Prints 4 v (digits4 v)
unfolding digits4
digits4-Prints v h = (
  refl,
  (
    digit-IsDigit (v / 1000) (omega arith),
    (
      digit-IsDigit (v / 100 % 10) (omega arith),
      (digit-IsDigit (v / 10 % 10) (omega arith), (digit-IsDigit (v % 10) (omega arith), tt)),
    ),
  ),
  rw
      (
        digit-first (v / 1000) (omega arith),
        digit-append (v / 1000) (v / 100) (omega arith),
        digit-append (v / 100) (v / 10) (omega arith),
        digit-append (v / 10) (v) (omega arith),
      )
      refl,
)

pub digits6-Prints : (v : ℕ) → v < 1000000 → Prints 6 v (digits6 v)
unfolding digits6
digits6-Prints v h = (
  refl,
  (
    digit-IsDigit (v / 100000) (omega arith),
    (
      digit-IsDigit (v / 10000 % 10) (omega arith),
      (
        digit-IsDigit (v / 1000 % 10) (omega arith),
        (
          digit-IsDigit (v / 100 % 10) (omega arith),
          (digit-IsDigit (v / 10 % 10) (omega arith), (digit-IsDigit (v % 10) (omega arith), tt)),
        ),
      ),
    ),
  ),
  rw
      (
        digit-first (v / 100000) (omega arith),
        digit-append (v / 100000) (v / 10000) (omega arith),
        digit-append (v / 10000) (v / 1000) (omega arith),
        digit-append (v / 1000) (v / 100) (omega arith),
        digit-append (v / 100) (v / 10) (omega arith),
        digit-append (v / 10) (v) (omega arith),
      )
      refl,
)

pub digits9-Prints : (v : ℕ) → v < 1000000000 → Prints 9 v (digits9 v)
unfolding digits9
digits9-Prints v h = (
  refl,
  (
    digit-IsDigit (v / 100000000) (omega arith),
    (
      digit-IsDigit (v / 10000000 % 10) (omega arith),
      (
        digit-IsDigit (v / 1000000 % 10) (omega arith),
        (
          digit-IsDigit (v / 100000 % 10) (omega arith),
          (
            digit-IsDigit (v / 10000 % 10) (omega arith),
            (
              digit-IsDigit (v / 1000 % 10) (omega arith),
              (
                digit-IsDigit (v / 100 % 10) (omega arith),
                (
                  digit-IsDigit (v / 10 % 10) (omega arith),
                  (digit-IsDigit (v % 10) (omega arith), tt),
                ),
              ),
            ),
          ),
        ),
      ),
    ),
  ),
  rw
      (
        digit-first (v / 100000000) (omega arith),
        digit-append (v / 100000000) (v / 10000000) (omega arith),
        digit-append (v / 10000000) (v / 1000000) (omega arith),
        digit-append (v / 1000000) (v / 100000) (omega arith),
        digit-append (v / 100000) (v / 10000) (omega arith),
        digit-append (v / 10000) (v / 1000) (omega arith),
        digit-append (v / 1000) (v / 100) (omega arith),
        digit-append (v / 100) (v / 10) (omega arith),
        digit-append (v / 10) (v) (omega arith),
      )
      refl,
)

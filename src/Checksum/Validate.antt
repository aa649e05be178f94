-- ===== src/Checksum/Validate.antt =====
-- What `validate` answers on a message that ends in a checksum field.
use fix_engine.Base.{
  Bytes, IsDigit, [], ap, append_assoc, arith, false, get_or, get_or-append, length, length-append,
  le→not_ltb, some, suc, sym, take, take-length_append, true, value, ℕ, ◌%◌, ◌++◌, ◌+◌, ◌-◌, ◌==◌,
  ◌∙◌, ◌∷◌, ◌≡◌,
}
use fix_engine.Checksum.{
  compute, is_trailer_at, find_trailer_below, start_of, checksum_start, stated_checksum,
  validate_from, validate,
}

-- SOH, "10=", three bytes and SOH.
abbrev pub trailer : ℕ → ℕ → ℕ → Bytes
trailer h t o = 1 ∷ b'1' ∷ b'0' ∷ b'=' ∷ h ∷ t ∷ o ∷ 1 ∷ []

pub is_trailer_at-append :
    (pre rest : Bytes) (i k : ℕ)
    → i ≡ length pre + k
    → is_trailer_at (pre ++ rest) i ≡ is_trailer_at rest k
unfolding is_trailer_at
is_trailer_at-append pre rest i k e = rw (
  get_or-append pre rest i k 0 e,
  get_or-append pre rest (i + 1) (k + 1) 0 (omega arith),
  get_or-append pre rest (i + 2) (k + 2) 0 (omega arith),
  get_or-append pre rest (i + 3) (k + 3) 0 (omega arith),
)

-- The search steps over a place where no trailer starts.
pub find_trailer_below_skip :
    (i : ℕ) (msg : Bytes)
    → is_trailer_at msg i ≡ false
    → find_trailer_below (suc i) msg ≡ find_trailer_below i msg
unfolding find_trailer_below
find_trailer_below_skip i msg e = rw e

pub find_trailer_below_hit :
    (i : ℕ) (msg : Bytes) → is_trailer_at msg i ≡ true → find_trailer_below (suc i) msg ≡ some i
unfolding find_trailer_below
find_trailer_below_hit i msg e = rw e

module _ (pre : Bytes) (h t o : ℕ) where
  abbrev n : ℕ
  n = length pre

  abbrev msg : Bytes
  msg = pre ++ trailer h t o

  at : (i k : ℕ) → i ≡ n + k → is_trailer_at msg i ≡ is_trailer_at (trailer h t o) k
  at i k e = is_trailer_at-append pre (trailer h t o) i k e

  -- The last trailer is found at the end of the prefix, whatever the prefix holds.
  pub find_trailer_below-append : find_trailer_below (suc (suc (suc (suc n)))) msg ≡ some n
  unfolding is_trailer_at
  find_trailer_below-append =
      find_trailer_below_skip _ msg (at _ 3 (omega arith))
      ∙ find_trailer_below_skip _ msg (at _ 2 (omega arith))
      ∙ find_trailer_below_skip _ msg (at _ 1 (omega arith))
      ∙ find_trailer_below_hit _ msg (at _ 0 (omega arith))

  pub length-msg : length msg ≡ n + 8
  length-msg = length-append pre (trailer h t o)

  checksum_start-append : checksum_start msg ≡ n + 1
  unfolding checksum_start
  checksum_start-append =
      let e : length msg - 4 ≡ suc (suc (suc (suc n))) = omega (arith, length-msg) in
      ap (λ k. start_of (find_trailer_below k msg)) e ∙ ap start_of find_trailer_below-append

  take-msg : take (n + 1) msg ≡ pre ++ 1 ∷ []
  take-msg =
      ap (take (n + 1)) (sym (append_assoc pre (1 ∷ []) _))
      ∙ take-length_append (n + 1) (pre ++ 1 ∷ []) _ (omega (arith, length-append pre (1 ∷ [])))

  byte_at : (i k : ℕ) → i ≡ n + k → get_or msg i 0 ≡ get_or (trailer h t o) k 0
  byte_at i k e = get_or-append pre (trailer h t o) i k 0 e

  stated_checksum-append :
      IsDigit h
      → IsDigit t
      → IsDigit o
      → stated_checksum msg (n + 1 + 3) ≡ value 0 (h ∷ t ∷ o ∷ []) % 256
  unfolding stated_checksum
  stated_checksum-append dh dt do' =
      rw
        (
          byte_at (n + 1 + 3) 4 (omega arith),
          byte_at (n + 1 + 3 + 1) 5 (omega arith),
          byte_at (n + 1 + 3 + 2) 6 (omega arith),
        )
        (omega arith)

  validate_from-append :
      IsDigit h
      → IsDigit t
      → IsDigit o
      → validate_from (n + 1) msg ≡ (compute (pre ++ 1 ∷ []) == value 0 (h ∷ t ∷ o ∷ []) % 256)
  unfolding validate_from
  validate_from-append dh dt do' =
      rw (take-msg, stated_checksum-append dh dt do')
        (rw (le→not_ltb (length msg) (n + 1 + 3 + 3) (omega (arith, length-msg))))

-- On a message that ends in a checksum field with three digits, whatever stands before it,
-- `validate` compares the number that the digits spell, modulo 256, with the checksum of all
-- bytes up to the SOH before "10=".
pub validate-append :
    (pre : Bytes) (h t o : ℕ)
    → IsDigit h
    → IsDigit t
    → IsDigit o
    → validate (pre ++ trailer h t o) ≡ (compute (pre ++ 1 ∷ []) == value 0 (h ∷ t ∷ o ∷ []) % 256)
unfolding validate
validate-append pre h t o dh dt do' = ground (
  arith,
  length-msg pre h t o,
  checksum_start-append pre h t o,
  ap (λ k. validate_from k (pre ++ trailer h t o)) (checksum_start-append pre h t o),
  validate_from-append pre h t o dh dt do',
)

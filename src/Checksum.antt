-- ===== src/Checksum.antt =====
-- src/checksum.rs: the checksum of a message, its three-digit print and its validation.
-- Arithmetic on `u32` and `u8` wraps, as in the release profile.
pub mod Compute
pub mod Validate
pub mod Tests
use fix_engine.Base.{
  Bool, Bytes, Option, [], false, get_or, if◌then◌else◌, length, ltb, none, some, suc, take, zero,
  ℕ, ◌%◌, ◌&&◌, ◌*◌, ◌+◌, ◌-◌, ◌/◌, ◌==◌, ◌^◌, ◌∷◌,
}

-- `u32::wrapping_add`.
pub wrapping_add32 : ℕ → ℕ → ℕ
wrapping_add32 a b = (a + b) % 2 ^ 32

-- The four accumulators of `compute`.
pub record Sums : Type 0 where
  pub sum0 : ℕ
  pub sum1 : ℕ
  pub sum2 : ℕ
  pub sum3 : ℕ

abbrev pub no_sums : Sums
no_sums = record { sum0 = 0; sum1 = 0; sum2 = 0; sum3 = 0 }

-- `for j in 0..remainder`: the last bytes all go to the first accumulator.
pub add_remainder : Bytes → Sums → Sums
add_remainder [] s = s
add_remainder (b ∷ bs) s = add_remainder bs (record s { sum0 = wrapping_add32 s.sum0 b })

-- `for _ in 0..chunks`: four bytes a round, then the remainder of fewer than four bytes.
pub add_chunks : Bytes → Sums → Sums
add_chunks (a ∷ b ∷ c ∷ d ∷ rest) s = add_chunks rest (record {
  sum0 = wrapping_add32 s.sum0 a;
  sum1 = wrapping_add32 s.sum1 b;
  sum2 = wrapping_add32 s.sum2 c;
  sum3 = wrapping_add32 s.sum3 d;
})
add_chunks rest s = add_remainder rest s

unfoldable pub compute : Bytes → ℕ
unfolding add_chunks add_remainder wrapping_add32
compute bytes =
    let s = add_chunks bytes no_sums in
    wrapping_add32 (wrapping_add32 (wrapping_add32 s.sum0 s.sum1) s.sum2) s.sum3 % 256

-- The three bytes that `format` writes; `checksum` is a byte.
unfoldable pub format : ℕ → Bytes
format checksum =
    (b'0' + checksum / 100) ∷ (b'0' + checksum / 10 % 10) ∷ (b'0' + checksum % 10) ∷ []

-- `msg[i..]` begins with SOH and "10=".
unfoldable pub is_trailer_at : Bytes → ℕ → Bool
is_trailer_at msg i =
    get_or msg i 0 == 1
    && get_or msg (i + 1) 0 == b'1'
    && get_or msg (i + 2) 0 == b'0'
    && get_or msg (i + 3) 0 == b'='

-- `for i in (0..n).rev()`: the last place below `n` where a trailer starts.
pub find_trailer_below : ℕ → Bytes → Option ℕ
find_trailer_below zero msg = none
find_trailer_below (suc i) msg =
    let earlier = find_trailer_below i msg in if is_trailer_at msg i then some i else earlier

-- `checksum_start`: behind the SOH that was found, and 0 where none was.
unfoldable pub start_of : Option ℕ → ℕ
start_of none = 0
start_of (some i) = i + 1

pub checksum_start : Bytes → ℕ
unfolding find_trailer_below is_trailer_at start_of
checksum_start msg = start_of (find_trailer_below (length msg - 4) msg)

-- The message itself starts with "10=".
pub starts_with_checksum : Bytes → Bool
starts_with_checksum msg =
    get_or msg 0 0 == b'1' && get_or msg 1 0 == b'0' && get_or msg 2 0 == b'='

-- `(b - b'0') as u8`, wrapping.
pub digit8 : ℕ → ℕ
digit8 b = (b + 256 - b'0') % 256

-- The checksum that the message states, from the three bytes at `cs_offset`, in `u8`.
pub stated_checksum : Bytes → ℕ → ℕ
unfolding digit8
stated_checksum msg cs_offset =
    let hundreds = digit8 (get_or msg cs_offset 0) * 100 % 256 in
    let tens = digit8 (get_or msg (cs_offset + 1) 0) * 10 % 256 in
    ((hundreds + tens) % 256 + digit8 (get_or msg (cs_offset + 2) 0)) % 256

-- The part of `validate` behind the search for the trailer.
pub validate_from : ℕ → Bytes → Bool
unfolding compute stated_checksum
validate_from start msg =
    let computed = compute (take start msg) in
    let cs_offset = start + 3 in
    if ltb (length msg) (cs_offset + 3) then false else computed == stated_checksum msg cs_offset

unfoldable pub validate : Bytes → Bool
unfolding checksum_start starts_with_checksum validate_from
validate msg =
    let start = checksum_start msg in
    if ltb (length msg) 7
    then false
    else if start == 0
    then (if starts_with_checksum msg then validate_from 0 msg else false)
    else validate_from start msg

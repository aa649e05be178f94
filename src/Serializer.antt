-- ===== src/Serializer.antt =====
-- src/serializer.rs: a message written in place into a buffer of the caller's.
-- An index out of range panics; an `i64` is its bit pattern below 2 ^ 64.
pub mod Digits
pub mod Writers
pub mod Build
pub mod Contract
pub mod Builders
pub mod Finalize
pub mod Tests
use fix_engine.Base.{
  Bytes, Outcome, [], codes, drop, get_or, if◌then◌else◌, leb, length, ltb, panics, replicate,
  returns, set, suc, take, zero, ℕ, ◌%◌, ◌*◌, ◌++◌, ◌+◌, ◌-◌, ◌/◌, ◌==◌, ◌>>=◌, ◌^◌, ◌∷◌,
}
use fix_engine.Checksum
use fix_engine.Message.{neg64}
use fix_engine.Tags

abbrev pub digit_pairs : Bytes
digit_pairs =
    codes "0001020304050607080910111213141516171819"
    ++ codes "2021222324252627282930313233343536373839"
    ++ codes "4041424344454647484950515253545556575859"
    ++ codes "6061626364656667686970717273747576777879"
    ++ codes "8081828384858687888990919293949596979899"

pub record FixSerializer : Type 0 where
  pub buffer : Bytes
  pub pos : ℕ
  pub body_start : ℕ

abbrev pub new : Bytes → FixSerializer
new buffer = record { buffer = buffer; pos = 0; body_start = 0 }

-- `buffer[i] = b`.
pub store : Bytes → ℕ → ℕ → Outcome Bytes
store buffer i b = if ltb i (length buffer) then returns (set buffer i b) else panics

-- `buffer[start..start + data.len()].copy_from_slice(data)`.
pub copy_at : Bytes → ℕ → Bytes → Outcome Bytes
copy_at buffer start bytes =
    if leb (start + length bytes) (length buffer)
    then returns (take start buffer ++ (bytes ++ drop (start + length bytes) buffer))
    else panics

-- One byte at the write position.
pub write_byte : FixSerializer → ℕ → Outcome FixSerializer
unfolding store
write_byte s b = do
  buffer ← store s.buffer s.pos b
  returns (record s { buffer = buffer; pos = s.pos + 1 })

pub write_bytes : FixSerializer → Bytes → Outcome FixSerializer
unfolding copy_at
write_bytes s bytes = do
  buffer ← copy_at s.buffer s.pos bytes
  returns (record s { buffer = buffer; pos = s.pos + length bytes })

-- `DIGIT_PAIRS[i]`.
pub pair_at : ℕ → ℕ
pair_at i = get_or digit_pairs i 0

-- The two digits of `r`, from the table.
pub digit_pair : ℕ → Bytes
unfolding pair_at
digit_pair r = pair_at (r * 2) ∷ pair_at (r * 2 + 1) ∷ []

-- Behind the loop: two digits or one. `out` is the part of the scratch array from `i` on.
last_digits : ℕ → ℕ → Bytes → Outcome Bytes
unfolding digit_pair
last_digits i val out =
    if leb 10 val
    then (if leb 2 i then returns (digit_pair val ++ out) else panics)
    else (if leb 1 i then returns ((b'0' + val) ∷ out) else panics)

-- `while val >= 100`, over the index `i` into the scratch array; `i -= 2` below zero panics.
pub fill : ℕ → ℕ → Bytes → Outcome Bytes
unfolding last_digits digit_pair
fill (suc (suc i)) val out =
    let rest = fill i (val / 100) (digit_pair (val % 100) ++ out) in
    if leb 100 val then rest else last_digits (suc (suc i)) val out
fill i val out = if leb 100 val then panics else last_digits i val out

-- `write_u32` and `write_u64` differ in the size of their scratch array alone.
pub write_number : ℕ → FixSerializer → ℕ → Outcome FixSerializer
unfolding write_byte write_bytes fill
write_number size s val =
    let digits = fill size val [] in
    if val == 0 then write_byte s b'0' else (digits >>= write_bytes s)

pub write_u32 : FixSerializer → ℕ → Outcome FixSerializer
unfolding write_number
write_u32 = write_number 10

pub write_u64 : FixSerializer → ℕ → Outcome FixSerializer
unfolding write_number
write_u64 = write_number 20

pub write_i64 : FixSerializer → ℕ → Outcome FixSerializer
unfolding write_u64 write_byte
write_i64 s w =
    if leb (2 ^ 63) w then (write_byte s b'-' >>= λ t. write_u64 t (neg64 w)) else write_u64 s w

pub write_tag : FixSerializer → ℕ → Outcome FixSerializer
unfolding write_u32 write_byte
write_tag s tag = do t ← write_u32 s tag; write_byte t Tags.equals

pub write_tag_value : FixSerializer → ℕ → Bytes → Outcome FixSerializer
unfolding write_tag write_bytes write_byte
write_tag_value s tag bytes = do t ← write_tag s tag; u ← write_bytes t bytes; write_byte u Tags.soh

unfoldable pub begin : FixSerializer → Bytes → Bytes → Outcome FixSerializer
begin s begin_string msg_type = do
  t ← write_tag_value s Tags.begin_string begin_string
  u ← write_bytes t (codes "9=000000" ++ Tags.soh ∷ [])
  write_tag_value (record u { body_start = u.pos }) Tags.msg_type msg_type

unfoldable pub add_str : FixSerializer → ℕ → Bytes → Outcome FixSerializer
unfolding write_tag_value
add_str = write_tag_value

unfoldable pub add_int : FixSerializer → ℕ → ℕ → Outcome FixSerializer
unfolding write_tag write_i64 write_byte
add_int s tag w = do t ← write_tag s tag; u ← write_i64 t w; write_byte u Tags.soh

unfoldable pub add_u64 : FixSerializer → ℕ → ℕ → Outcome FixSerializer
unfolding write_tag write_u64 write_byte
add_u64 s tag n = do t ← write_tag s tag; u ← write_u64 t n; write_byte u Tags.soh

-- `while val > 0 && i > 0`: at most `i` digits, the lowest ones.
pub low_digits : ℕ → ℕ → Bytes → Bytes
low_digits zero val out = out
low_digits (suc i) val out =
    let more = low_digits i (val / 10) ((b'0' + val % 10) ∷ out) in if val == 0 then out else more

-- The digits that `write_u64_to_buf` leaves in its six bytes.
pub write_u64_to_buf : ℕ → Bytes
unfolding low_digits
write_u64_to_buf val = if val == 0 then b'0' ∷ [] else low_digits 6 val []

-- Index stores one after another, as in the loop over the reserved space and behind it.
pub store_all : Bytes → ℕ → Bytes → Outcome Bytes
unfolding store
store_all buffer i [] = returns buffer
store_all buffer i (b ∷ bs) = do stored ← store buffer i b; store_all stored (i + 1) bs

-- The body length goes back into the reserved space, right-justified behind zeros.
pub fill_body_length : FixSerializer → Outcome Bytes
unfolding store_all copy_at write_u64_to_buf
fill_body_length s =
    let bl_start = s.body_start - 7 in
    let bl = write_u64_to_buf (s.pos - s.body_start) in
    do
      zeroed ← store_all s.buffer bl_start (replicate 6 b'0')
      copy_at zeroed (bl_start + (6 - length bl)) bl

-- "10=", the checksum and SOH.
unfoldable pub checksum_field : ℕ → Bytes
unfolding Checksum.format
checksum_field cs = b'1' ∷ b'0' ∷ b'=' ∷ (Checksum.format cs ++ Tags.soh ∷ [])

unfoldable pub finalize : FixSerializer → Outcome (FixSerializer × ℕ)
finalize s = do
  filled ← fill_body_length s
  buffer ← store_all filled s.pos (checksum_field (Checksum.compute (take s.pos filled)))
  returns (record s { buffer = buffer; pos = s.pos + 7 }, s.pos + 7)

unfoldable pub as_bytes : FixSerializer → Bytes
as_bytes s = take s.pos s.buffer

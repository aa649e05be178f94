-- ===== src/Serializer/Writers.antt =====
-- Each writing operation of src/serializer.rs appends known bytes at the write position, or panics
-- if they do not fit; so does every chain of them.
use fix_engine.Message.Numbers.{signed_decimal}
use fix_engine.Base.{
  ==_iff, Bool-cases, Bytes, List, Outcome, [], ap, append_assoc, ap₂, arith, dec_le, drop,
  drop-append, drop-drop, if◌then◌else◌, inl, inr, leb, length, length-append, length-drop, le→leb,
  le→not_ltb, lt→ltb, lt→not_leb, panics, refl, returns, set-append, suc, sym, take-length_append,
  ℕ, ◌++◌, ◌+◌, ◌-◌, ◌<◌, ◌==◌, ◌>>=◌, ◌^◌, ◌∙◌, ◌∷◌, ◌≡◌, ◌≤◌,
}
use fix_engine.Decimal.{decimal, pow10, decimal-zero}
use fix_engine.Serializer.{
  FixSerializer, store, copy_at, write_byte, write_bytes, write_number, write_u32, write_u64,
  write_i64, write_tag, write_tag_value, add_u64, add_str, add_int, neg64,
}
use fix_engine.Serializer.Digits.{fill-decimal}

-- `written` stands in the buffer up to the write position, and `rest` behind it.
abbrev pub state : Bytes → Bytes → ℕ → FixSerializer
state written rest body_start = record {
  buffer = written ++ rest;
  pos = length written;
  body_start = body_start;
}

-- `bytes` appended, where they fit.
pub put : Bytes → Bytes → ℕ → Bytes → Outcome FixSerializer
put written rest body_start bytes =
    if leb (length bytes) (length rest)
    then returns (state (written ++ bytes) (drop (length bytes) rest) body_start)
    else panics

-- The operation appends `bytes` in every state.
abbrev pub Writes : (FixSerializer → Outcome FixSerializer) → Bytes → Type 0
Writes op bytes = (w r : Bytes) (b : ℕ) → op (state w r b) ≡ put w r b bytes

leb_shift : (k n m : ℕ) → leb (k + n) (k + m) ≡ leb n m
leb_shift k n m = ground arith

leb_sub : (k n m : ℕ) → k ≤ m → leb n (m - k) ≡ leb (k + n) m
leb_sub k n m h = ground arith

fits_behind :
    (k n : ℕ) (w r : Bytes) → k ≡ length w → leb (k + n) (length (w ++ r)) ≡ leb n (length r)
fits_behind k n w r h = rw (h, length-append w r) (leb_shift (length w) n (length r))

-- Behind a known prefix, a copy and a store act on the rest alone.
pub copy_at-append :
    (w r bytes : Bytes) (k : ℕ)
    → k ≡ length w
    → copy_at (w ++ r) k bytes ≡ (
        if leb (length bytes) (length r)
        then returns (w ++ (bytes ++ drop (length bytes) r))
        else panics)
unfolding copy_at
copy_at-append w r bytes k h = rw (
  fits_behind k (length bytes) w r h,
  take-length_append k w r h,
  drop-append (k + length bytes) (length bytes) w r (omega arith),
)

pub store-append :
    (w r : Bytes) (k c : ℕ)
    → k ≡ length w
    → store (w ++ r) k c ≡ (if leb 1 (length r) then returns (w ++ (c ∷ drop 1 r)) else panics)
unfolding store
store-append w [] k c h = rw (le→not_ltb k (length (w ++ [])) (omega (arith, length-append w [])))
store-append w (x ∷ r) k c h = rw (
  lt→ltb k (length (w ++ x ∷ r)) (omega (arith, length-append w (x ∷ r))),
  set-append w (x ∷ r) k 0 c (omega arith),
  le→leb 1 (suc (length r)) (omega arith),
)

mk : ℕ → Bytes → ℕ → FixSerializer
mk b buffer pos = record { buffer = buffer; pos = pos; body_start = b }

state_behind :
    (w bytes r : Bytes) (b : ℕ)
    → mk b (w ++ (bytes ++ r)) (length w + length bytes) ≡ state (w ++ bytes) r b
unfolding mk
state_behind w bytes r b = ap₂ (mk b) (sym (append_assoc w bytes r)) (sym (length-append w bytes))

pub put-append :
    (w r xs ys : Bytes) (b : ℕ)
    → length xs ≤ length r
    → put (w ++ xs) (drop (length xs) r) b ys ≡ put w r b (xs ++ ys)
unfolding put
put-append w r xs ys b h = rw (
  length-append xs ys,
  length-drop (length xs) r,
  drop-drop (length xs + length ys) (length xs) (length ys) r refl,
  append_assoc w xs ys,
  leb_sub (length xs) (length ys) (length r) h,
)

pub put_overflow : (w r bytes : Bytes) (b : ℕ) → length r < length bytes → put w r b bytes ≡ panics
unfolding put
put_overflow w r bytes b h = rw (lt→not_leb _ _ h)

pub put_fits :
    (w r bytes : Bytes) (b : ℕ)
    → length bytes ≤ length r
    → put w r b bytes ≡ returns (state (w ++ bytes) (drop (length bytes) r) b)
unfolding put
put_fits w r bytes b h = rw (le→leb _ _ h)

pub Writes-bind :
    (f g : FixSerializer → Outcome FixSerializer) (xs ys : Bytes)
    → Writes f xs
    → Writes g ys
    → Writes (λ s. f s >>= g) (xs ++ ys)
Writes-bind f g xs ys hf hg w r b = elim (dec_le (length xs) (length r)) [
  | yes h ↦
      rw (hf w r b, put_fits w r xs b h)
        (hg (w ++ xs) (drop (length xs) r) b ∙ put-append w r xs ys b h)
  | no h ↦ rw (
    hf w r b,
    put_overflow w r xs b (omega arith),
    put_overflow w r (xs ++ ys) b (omega (arith, length-append xs ys)),
  )
]

pub write_bytes-Writes : (bytes : Bytes) → Writes (λ s. write_bytes s bytes) bytes
unfolding write_bytes put mk
write_bytes-Writes bytes w r b =
    rw (copy_at-append w r bytes (length w) refl)
      (elim (Bool-cases (leb (length bytes) (length r))) [
        | inl h ↦ rw h (ap returns (state_behind w bytes (drop (length bytes) r) b))
        | inr h ↦ rw h
      ])

pub write_byte-Writes : (c : ℕ) → Writes (λ s. write_byte s c) (c ∷ [])
unfolding write_byte put mk
write_byte-Writes c w r b =
    rw (store-append w r (length w) c refl) (elim (Bool-cases (leb 1 (length r))) [
      | inl h ↦ rw h (ap returns (state_behind w (c ∷ []) (drop 1 r) b))
      | inr h ↦ rw h
    ])

zero_print : (n : ℕ) → n ≡ 0 → b'0' ∷ [] ≡ decimal n
zero_print n h = rw h (sym decimal-zero)

-- Each operation and the bytes that it appends.
pub write_number-Writes :
    (size n : ℕ)
    → 0 < size
    → n < pow10 size
    → n < pow10 20
    → Writes (λ s. write_number size s n) (decimal n)
unfolding write_number
write_number-Writes size n p h k w r b = elim (Bool-cases (n == 0)) [
  | inl zero_now ↦
      rw zero_now
        (write_byte-Writes b'0' w r b ∙ ap (put w r b) (zero_print n ((==_iff n 0).0 zero_now)))
  | inr more ↦ rw (more, fill-decimal size n p h k) (write_bytes-Writes (decimal n) w r b)
]

pub write_tag-Writes :
    (tag : ℕ) → tag < 2 ^ 32 → Writes (λ s. write_tag s tag) (decimal tag ++ b'=' ∷ [])
unfolding write_tag write_u32
write_tag-Writes tag h =
    Writes-bind (λ s. write_number 10 s tag) (λ s. write_byte s b'=') (decimal tag) (b'=' ∷ [])
      (write_number-Writes 10 tag (omega arith) (omega arith) (omega arith))
      (write_byte-Writes b'=')

-- `tag=value` and SOH.
abbrev pub field : ℕ → Bytes → Bytes
field tag bytes = decimal tag ++ b'=' ∷ [] ++ (bytes ++ 1 ∷ [])

-- The fields of a message on the wire.
abbrev pub wire : List (ℕ × Bytes) → Bytes
wire [] = []
wire ((tag, bytes) ∷ fs) = field tag bytes ++ wire fs

pub write_tag_value-Writes :
    (tag : ℕ) (bytes : Bytes)
    → tag < 2 ^ 32
    → Writes (λ s. write_tag_value s tag bytes) (field tag bytes)
unfolding write_tag_value
write_tag_value-Writes tag bytes h =
    Writes-bind (λ s. write_tag s tag) (λ s. write_bytes s bytes >>= λ u. write_byte u 1) _ _
      (write_tag-Writes tag h)
      (Writes-bind (λ s. write_bytes s bytes) (λ s. write_byte s 1) bytes (1 ∷ [])
        (write_bytes-Writes bytes) (write_byte-Writes 1))

pub add_str-Writes :
    (tag : ℕ) (bytes : Bytes) → tag < 2 ^ 32 → Writes (λ s. add_str s tag bytes) (field tag bytes)
unfolding add_str
add_str-Writes tag bytes h = write_tag_value-Writes tag bytes h

write_u64-Writes : (n : ℕ) → n < 2 ^ 64 → Writes (λ s. write_u64 s n) (decimal n)
unfolding write_u64
write_u64-Writes n h = write_number-Writes 20 n (omega arith) (omega arith) (omega arith)

write_i64-Writes : (w : ℕ) → w < 2 ^ 64 → Writes (λ s. write_i64 s w) (signed_decimal w)
unfolding write_i64 signed_decimal
write_i64-Writes n h w r b = elim (Bool-cases (leb (2 ^ 63) n)) [
  | inl negative ↦ rw negative (
      Writes-bind (λ s. write_byte s b'-') (λ s. write_u64 s (neg64 n)) (b'-' ∷ [])
        (decimal (neg64 n)) (write_byte-Writes b'-') (write_u64-Writes (neg64 n) (omega arith)) w r
        b)
  | inr positive ↦ rw positive (write_u64-Writes n h w r b)
]

pub add_u64-Writes :
    (tag n : ℕ) → tag < 2 ^ 32 → n < 2 ^ 64 → Writes (λ s. add_u64 s tag n) (field tag (decimal n))
unfolding add_u64
add_u64-Writes tag n h k =
    Writes-bind (λ s. write_tag s tag) (λ s. write_u64 s n >>= λ u. write_byte u 1) _ _
      (write_tag-Writes tag h)
      (Writes-bind (λ s. write_u64 s n) (λ s. write_byte s 1) (decimal n) (1 ∷ [])
        (write_u64-Writes n k) (write_byte-Writes 1))

pub add_int-Writes :
    (tag w : ℕ)
    → tag < 2 ^ 32
    → w < 2 ^ 64
    → Writes (λ s. add_int s tag w) (field tag (signed_decimal w))
unfolding add_int
add_int-Writes tag n h k =
    Writes-bind (λ s. write_tag s tag) (λ s. write_i64 s n >>= λ u. write_byte u 1) _ _
      (write_tag-Writes tag h)
      (Writes-bind (λ s. write_i64 s n) (λ s. write_byte s 1) (signed_decimal n) (1 ∷ [])
        (write_i64-Writes n k) (write_byte-Writes 1))

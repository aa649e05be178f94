-- ===== src/Journal/Layout.antt =====
-- src/journal.rs: the bytes of a header, and copies into the map.
use fix_engine.Base.{
  >>=-eq-returns, Bytes, [], ap, append_assoc, arith, drop, length, length-append, length-take,
  patch, refl, returns, returns-injective, slice, slice-bound, slice-within, sym, take,
  take-length_append, ℕ, ◌++◌, ◌+◌, ◌<◌, ◌^◌, ◌∙◌, ◌≡◌, ◌≤◌,
}
use fix_engine.Cluster.Codec.{le_bytes, from_le}
use fix_engine.Cluster.RoundTrip.{length-le_bytes, number-le_bytes}
use fix_engine.Journal.{JournalEntryHeader, header_bytes, read_header, copied}

pub length-header_bytes : (h : JournalEntryHeader) → length (header_bytes h) ≡ 24
unfolding header_bytes
length-header_bytes h = omega (
  arith,
  length-append (le_bytes 8 h.session_hash)
      (le_bytes 8 h.seq_num ++ (le_bytes 4 h.body_length ++ le_bytes 4 h.crc32)),
  length-append (le_bytes 8 h.seq_num) (le_bytes 4 h.body_length ++ le_bytes 4 h.crc32),
  length-append (le_bytes 4 h.body_length) (le_bytes 4 h.crc32),
  length-le_bytes 8 h.session_hash,
  length-le_bytes 8 h.seq_num,
  length-le_bytes 4 h.body_length,
  length-le_bytes 4 h.crc32,
)

-- The numbers of a header are within their widths.
abbrev pub HeaderFits : JournalEntryHeader → Type 0
HeaderFits h =
    (h.session_hash < 2 ^ 64) × (h.seq_num < 2 ^ 64) × (h.body_length < 2 ^ 32) × (h.crc32 < 2 ^ 32)

pub read_header-header_bytes :
    (h : JournalEntryHeader) (rest : Bytes)
    → HeaderFits h
    → read_header (header_bytes h ++ rest) ≡ h
unfolding read_header header_bytes le_bytes from_le
read_header-header_bytes h rest (a, b, c, d) = λ i. record {
  session_hash = number-le_bytes 8 h.session_hash [] a i;
  seq_num = number-le_bytes 8 h.seq_num [] b i;
  body_length = number-le_bytes 4 h.body_length [] c i;
  crc32 = number-le_bytes 4 h.crc32 [] d i;
}

-- A successful copy.
pub copied-eq :
    (mmap bytes out : Bytes) (offset : ℕ)
    → copied mmap offset bytes ≡ returns out
    → (offset + length bytes ≤ length mmap) × (out ≡ patch mmap offset (length bytes) bytes)
unfolding copied
copied-eq mmap bytes out offset e =
    let (old, s, k) = >>=-eq-returns (slice mmap offset (length bytes)) _ e in
    (slice-bound mmap offset (length bytes) s, sym (returns-injective k))

pub copied-within :
    (mmap bytes : Bytes) (offset : ℕ)
    → offset + length bytes ≤ length mmap
    → copied mmap offset bytes ≡ returns (patch mmap offset (length bytes) bytes)
unfolding copied
copied-within mmap bytes offset h = rw (slice-within mmap offset (length bytes) h) refl

-- Two parts written one behind another.
pub patch-patch :
    (xs a b : Bytes) (o k l : ℕ)
    → o ≤ length xs
    → length a ≡ k
    → patch (patch xs o k a) (o + k) l b
      ≡ take o xs ++ (a ++ (b ++ drop (o + k + l) (patch xs o k a)))
patch-patch xs a b o k l fits e =
    let front : take (o + k) (patch xs o k a) ≡ take o xs ++ a =
      ap (take (o + k)) (sym (append_assoc (take o xs) a (drop (o + k) xs)))
      ∙ take-length_append (o + k) (take o xs ++ a) (drop (o + k) xs)
          (omega (arith, e, length-append (take o xs) a, length-take o xs fits)) in
    ap (λ z. z ++ (b ++ drop (o + k + l) (patch xs o k a))) front ∙ append_assoc (take o xs) a _

-- ===== src/Journal/Entries.antt =====
-- src/journal.rs: an appended entry is read back.
use fix_engine.Journal.Crc.{crc32_simple-lt}
use fix_engine.Base.{
  ==_refl, >>=-eq-returns, All, Bytes, IsByte, Result, ap, append_assoc, arith, drop,
  drop-length_append, length, length-append, length-patch, length-take, le→not_ltb, patch, refl,
  returns, returns-injective, slice, slice-append, some, sym, take, ℕ, ◌%◌, ◌++◌, ◌+◌, ◌<◌, ◌^◌,
  ◌∙◌, ◌≡◌, ◌≤◌,
}
use fix_engine.Journal.{
  entry_with, JournalEntryHeader, header_bytes, read_header, copied, Journal, append, place,
  header_size, entry_header, synced, read_entry, crc32_simple,
}
use fix_engine.Journal.Layout.{
  length-header_bytes, read_header-header_bytes, copied-eq, copied-within, patch-patch,
}

module _ {ℓ} {E : Type ℓ} (flushed : Result (Unit {0}) E) (j t : Journal) (session_hash seq_num : ℕ)
    (message : Bytes) (r : Result ℕ E)
    (e : append flushed j session_hash seq_num message ≡ returns (t, r)) where
  abbrev at : ℕ
  at = place j message

  abbrev header : JournalEntryHeader
  header = entry_header session_hash seq_num message

  -- The journal after an append that does not panic.
  record Appended : Type ℓ where
    fits : at + (header_size + length message) ≤ length j.mmap
    bytes :
        t.mmap ≡ patch (patch j.mmap at 24 (header_bytes header)) (at + 24) (length message) message
    offset : t.write_offset ≡ at + (header_size + length message)
    room : t.capacity ≡ j.capacity
    result : r ≡ synced j.sync_policy flushed at

  appended : Appended
  unfolding append
  appended =
      let hb = header_bytes header in
      let wide = length-header_bytes header in
      let (mid, m1, e1) = >>=-eq-returns (copied j.mmap at hb) _ e in
      let (out, m2, e2) = >>=-eq-returns (copied mid (at + header_size) message) _ e1 in
      let both = returns-injective e2 in
      let (low, mid_is) = copied-eq j.mmap hb mid at m1 in
      let (high, out_is) = copied-eq mid message out (at + header_size) m2 in
      let mid24 : mid ≡ patch j.mmap at 24 hb = mid_is ∙ ap (λ n. patch j.mmap at n hb) wide in
      let same : length mid ≡ length j.mmap =
        ap length mid24 ∙ length-patch j.mmap hb at 24 (omega (arith, low, wide)) wide in
      record {
        fits = omega (arith, high, same);
        bytes =
            sym (ap (λ p. p.0.mmap) both)
            ∙ out_is
            ∙ ap (λ z. patch z (at + 24) (length message) message) mid24;
        offset = sym (ap (λ p. p.0.write_offset) both);
        room = sym (ap (λ p. p.0.capacity) both);
        result = sym (ap (λ p. p.1) both);
      }

-- An entry fits at the place that is chosen for it, when it fits into the map at all.
place-fits :
    (j : Journal) (message : Bytes)
    → header_size + length message ≤ j.capacity
    → place j message + (header_size + length message) ≤ j.capacity
unfolding place
place-fits j message h = ground arith

append-returns {ℓ} :
    {E : Type ℓ} (flushed : Result (Unit {0}) E) (j : Journal) (session_hash seq_num : ℕ)
    (message : Bytes)
    → j.capacity ≡ length j.mmap
    → header_size + length message ≤ j.capacity
    → (t : Journal) × (append flushed j session_hash seq_num message
        ≡ returns (t, synced j.sync_policy flushed (place j message)))
unfolding append
append-returns flushed j session_hash seq_num message whole room =
    let at = place j message in
    let hb = header_bytes (entry_header session_hash seq_num message) in
    let wide = length-header_bytes (entry_header session_hash seq_num message) in
    let fits = place-fits j message room in
    let low : at + length hb ≤ length j.mmap = omega (arith, fits, wide, whole) in
    let mid = patch j.mmap at (length hb) hb in
    let same = length-patch j.mmap hb at (length hb) low refl in
    (
      record j {
        mmap = patch mid (at + header_size) (length message) message;
        write_offset = at + (header_size + length message);
        entry_count = (j.entry_count + 1) % 2 ^ 64;
      },
      rw
          (
            copied-within j.mmap hb at low,
            copied-within mid message (at + header_size) (omega (arith, fits, same, whole)),
          )
          refl,
    )

-- What makes `read_entry` give an entry.
entry_with-some :
    (t : Journal) (offset : ℕ) (h : JournalEntryHeader) (m : Bytes)
    → offset + 24 + h.body_length ≤ t.capacity
    → slice t.mmap (offset + 24) h.body_length ≡ returns m
    → crc32_simple m ≡ h.crc32
    → entry_with t offset h ≡ returns (some (h, m))
unfolding entry_with
entry_with-some t offset h m fits sliced sum =
    rw
      (
        le→not_ltb t.capacity (offset + 24) (omega arith),
        le→not_ltb t.capacity (offset + 24 + h.body_length) fits,
        sliced,
      )
      (rw (sum) (rw (==_refl h.crc32) refl))

read_entry-some :
    (t : Journal) (offset : ℕ) (h : JournalEntryHeader) (m : Bytes)
    → read_header (drop offset t.mmap) ≡ h
    → offset + 24 + h.body_length ≤ t.capacity
    → slice t.mmap (offset + 24) h.body_length ≡ returns m
    → crc32_simple m ≡ h.crc32
    → read_entry t offset ≡ returns (some (h, m))
unfolding read_entry
read_entry-some t offset h m read fits sliced sum =
    ap (entry_with t offset) read ∙ entry_with-some t offset h m fits sliced sum

-- What an append that does not panic leaves.
appended-read_entry {ℓ} :
    {E : Type ℓ} (flushed : Result (Unit {0}) E) (j t : Journal) (session_hash seq_num : ℕ)
    (message : Bytes) (r : Result ℕ E)
    → append flushed j session_hash seq_num message ≡ returns (t, r)
    → j.capacity ≡ length j.mmap
    → session_hash < 2 ^ 64
    → seq_num < 2 ^ 64
    → length message < 2 ^ 32
    → All IsByte message
    → (read_entry t (place j message)
        ≡ returns (some (entry_header session_hash seq_num message, message)))
      × (t.write_offset ≡ place j message + (header_size + length message))
      × (t.write_offset ≤ t.capacity)
      × (r ≡ synced j.sync_policy flushed (place j message))
unfolding entry_header
appended-read_entry flushed j t session_hash seq_num message r e whole hash_fits seq_fits short
      bytes =
    let a = appended flushed j t session_hash seq_num message r e in
    let at = place j message in
    let header = entry_header session_hash seq_num message in
    let wide = length-header_bytes header in
    let rest = drop (at + 24 + length message) (patch j.mmap at 24 (header_bytes header)) in
    let layout : t.mmap ≡ take at j.mmap ++ (header_bytes header ++ (message ++ rest)) =
      a.bytes
      ∙ patch-patch j.mmap (header_bytes header) message at 24 (length message)
          (omega (arith, a.fits)) wide in
    let behind : drop at t.mmap ≡ header_bytes header ++ (message ++ rest) =
      ap (drop at) layout
      ∙ drop-length_append at (take at j.mmap) _
          (sym (length-take at j.mmap (omega (arith, a.fits)))) in
    let read : read_header (drop at t.mmap) ≡ header =
      ap read_header behind
      ∙ read_header-header_bytes header (message ++ rest)
          (hash_fits, seq_fits, omega arith, crc32_simple-lt message bytes) in
    let small : length message % 2 ^ 32 ≡ length message = omega arith in
    let sliced : slice t.mmap (at + 24) (length message) ≡ returns message =
      ap (λ z. slice z (at + 24) (length message))
        (layout ∙ sym (append_assoc (take at j.mmap) (header_bytes header) (message ++ rest)))
      ∙ slice-append (take at j.mmap ++ header_bytes header) message rest (at + 24) (length message)
          (omega (
            arith,
            wide,
            a.fits,
            length-append (take at j.mmap) (header_bytes header),
            length-take at j.mmap (omega (arith, a.fits)),
          ))
          refl in
    (
      read_entry-some t at header message read (omega (arith, a.fits, a.room, whole, small))
          (ap (slice t.mmap (at + 24)) small ∙ sliced) refl,
      a.offset,
      omega (arith, a.offset, a.room, a.fits, whole),
      a.result,
    )

-- An append to a journal whose capacity is the length of its map and has room for the entry, with a
-- hash and a number of 64 bits and a message of bytes shorter than 2 ^ 32, does not panic: its result
-- is the place of the entry, unless the policy syncs every message and the flush fails; the entry
-- that is then read at that place is the header, with the length and the checksum of the message,
-- and the message; and the write offset is behind it and within the capacity.
pub append-read_entry {ℓ} :
    {E : Type ℓ} (flushed : Result (Unit {0}) E) (j : Journal) (session_hash seq_num : ℕ)
    (message : Bytes)
    → j.capacity ≡ length j.mmap
    → header_size + length message ≤ j.capacity
    → session_hash < 2 ^ 64
    → seq_num < 2 ^ 64
    → length message < 2 ^ 32
    → All IsByte message
    → (t : Journal) × (append flushed j session_hash seq_num message
        ≡ returns (t, synced j.sync_policy flushed (place j message)))
      × (read_entry t (place j message)
          ≡ returns (some (entry_header session_hash seq_num message, message)))
      × (t.write_offset ≡ place j message + (header_size + length message))
      × (t.write_offset ≤ t.capacity)
append-read_entry flushed j session_hash seq_num message whole room hash_fits seq_fits short bytes =
    let (t, e) = append-returns flushed j session_hash seq_num message whole room in
    let (read, offset, high, _) =
      appended-read_entry flushed j t session_hash seq_num message _ e whole hash_fits seq_fits
        short bytes in
    (t, e, read, offset, high)

-- ===== src/Journal.antt =====
-- src/journal.rs: the journal of messages in a mapped file. The map is the list of its bytes; the
-- file system is not modelled, and what `flush` of the map gives is an argument. The header's bytes
-- are those of a little-endian machine.
pub mod Crc
pub mod Layout
pub mod Entries
pub mod Tests
use fix_engine.Base.{
  Bytes, Option, Outcome, Result, [], drop, err, if◌then◌else◌, length, ltb, none, ok, patch,
  returns, slice, some, suc, take, zero, ℕ, ◌%◌, ◌*◌, ◌++◌, ◌+◌, ◌/◌, ◌==◌, ◌>>=◌, ◌^◌, ◌∷◌,
}
use fix_engine.Cluster.Codec.{le_bytes, from_le}
use Prim.Native.Nat.{bit_xor}

pub record JournalEntryHeader : Type 0 where
  pub session_hash : ℕ
  pub seq_num : ℕ
  pub body_length : ℕ
  pub crc32 : ℕ

abbrev pub header_size : ℕ
header_size = 24

-- `None` of the source is `no_sync`.
pub data SyncPolicy : Type 0 where
  no_sync : SyncPolicy
  batch : ℕ → SyncPolicy
  every_message : SyncPolicy

pub record Journal : Type 0 where
  pub mmap : Bytes
  pub write_offset : ℕ
  pub capacity : ℕ
  pub sync_policy : SyncPolicy
  pub entry_count : ℕ

-- The journal that `open` gives, on a file with these bytes.
unfoldable pub opened : Bytes → SyncPolicy → Journal
opened mmap policy = record {
  mmap = mmap;
  write_offset = 0;
  capacity = length mmap;
  sync_policy = policy;
  entry_count = 0;
}

-- One of the eight turns for a byte.
abbrev pub crc_bit : ℕ → ℕ
crc_bit crc = if crc % 2 == 0 then crc / 2 else bit_xor (crc / 2) 0xEDB8_8320

unfoldable pub crc_bits : ℕ → ℕ → ℕ
crc_bits zero crc = crc
crc_bits (suc n) crc = crc_bits n (crc_bit crc)

unfoldable pub crc_over : Bytes → ℕ → ℕ
unfolding crc_bits
crc_over [] crc = crc
crc_over (b ∷ bs) crc = crc_over bs (crc_bits 8 (bit_xor crc b))

unfoldable pub crc32_simple : Bytes → ℕ
unfolding crc_over
crc32_simple bytes = bit_xor (crc_over bytes 0xFFFF_FFFF) 0xFFFF_FFFF

-- The fields of the header in memory.
unfoldable pub header_bytes : JournalEntryHeader → Bytes
unfolding le_bytes
header_bytes h =
    le_bytes 8 h.session_hash
    ++ (le_bytes 8 h.seq_num ++ (le_bytes 4 h.body_length ++ le_bytes 4 h.crc32))

unfoldable pub read_header : Bytes → JournalEntryHeader
unfolding from_le
read_header bytes = record {
  session_hash = from_le (take 8 bytes);
  seq_num = from_le (take 8 (drop 8 bytes));
  body_length = from_le (take 4 (drop 16 bytes));
  crc32 = from_le (take 4 (drop 20 bytes));
}

-- `mmap[offset..offset + len].copy_from_slice(bytes)` for `bytes` of this length.
unfoldable pub copied : Bytes → ℕ → Bytes → Outcome Bytes
copied mmap offset bytes =
    slice mmap offset (length bytes) >>= λ old. returns (patch mmap offset (length bytes) bytes)

unfoldable pub entry_header : ℕ → ℕ → Bytes → JournalEntryHeader
unfolding crc32_simple
entry_header session_hash seq_num message = record {
  session_hash = session_hash;
  seq_num = seq_num;
  body_length = length message % 2 ^ 32;
  crc32 = crc32_simple message;
}

-- Where `append` writes: behind the last entry, or at the beginning when that is too small.
unfoldable pub place : Journal → Bytes → ℕ
place j message =
    if ltb j.capacity (j.write_offset + (header_size + length message)) then 0 else j.write_offset

-- The end of `append`.
abbrev pub synced {ℓ} : {E : Type ℓ} → SyncPolicy → Result (Unit {0}) E → ℕ → Result ℕ E
synced every_message (ok _) offset = ok offset
synced every_message (err e) offset = err e
synced _ flushed offset = ok offset

unfoldable pub append {ℓ} :
    {E : Type ℓ} → Result (Unit {0}) E → Journal → ℕ → ℕ → Bytes → Outcome (Journal × Result ℕ E)
unfolding copied entry_header header_bytes place
append flushed j session_hash seq_num message =
    let offset = place j message in
    copied j.mmap offset (header_bytes (entry_header session_hash seq_num message))
    >>= λ with_header. copied with_header (offset + header_size) message >>= λ mmap. returns (
      record j {
        mmap = mmap;
        write_offset = offset + (header_size + length message);
        entry_count = (j.entry_count + 1) % 2 ^ 64;
      },
      synced j.sync_policy flushed offset,
    )

-- `read_entry`, for the header that the bytes at the offset make.
unfoldable pub entry_with :
    Journal → ℕ → JournalEntryHeader → Outcome (Option (JournalEntryHeader × Bytes))
unfolding crc32_simple
entry_with j offset header =
    let body_start = offset + header_size in
    if ltb j.capacity (offset + header_size)
    then returns none
    else if ltb j.capacity (body_start + header.body_length)
    then returns none
    else (slice j.mmap body_start header.body_length >>= λ body.
        returns (if crc32_simple body == header.crc32 then some (header, body) else none))

unfoldable pub read_entry : Journal → ℕ → Outcome (Option (JournalEntryHeader × Bytes))
unfolding entry_with read_header
read_entry j offset = entry_with j offset (read_header (drop offset j.mmap))

-- FNV-1a over bytes.
unfoldable pub fnv : Bytes → ℕ → ℕ
fnv [] hash = hash
fnv (b ∷ bs) hash = fnv bs (bit_xor hash b * 0x1_0000_0001_b3 % 2 ^ 64)

unfoldable pub session_hash : Bytes → Bytes → ℕ
unfolding fnv
session_hash sender target =
    fnv target (bit_xor (fnv sender 0xcbf2_9ce4_8422_2325) b'|' * 0x1_0000_0001_b3 % 2 ^ 64)

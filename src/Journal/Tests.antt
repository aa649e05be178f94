-- ===== src/Journal/Tests.antt =====
-- Runs of src/journal.rs on small maps.
use fix_engine.Base.{
  Bytes, Result, arith, codes, length, ok, patch, refl, replicate, returns, slice, some, ◌+◌, ◌≡◌,
  ◌≤◌,
}
use fix_engine.Journal.{
  Journal, append, crc32_simple, entry_header, every_message, header_size, opened, place,
  read_entry, synced, header_bytes,
}
use fix_engine.Journal.Entries.{append-read_entry}

-- The known check value of CRC-32.
checked : crc32_simple (codes "123456789") ≡ 0xCBF4_3926
unfolding crc32_simple
checked = refl

abbrev blank : Journal
blank = opened (replicate 40 0) every_message

abbrev message : Bytes
message = codes "8="

abbrev stored : Journal
stored = record blank {
  mmap = patch (patch (replicate 40 0) 0 24 (header_bytes (entry_header 5 7 message))) 24 2 message;
  write_offset = 26;
  entry_count = 1;
}

flushed : Result (Unit {0}) (Unit {0})
flushed = ok tt

appended_once : append flushed blank 5 7 message ≡ returns (stored, ok 0)
unfolding append opened slice place flushed
appended_once = refl

append-read_entry_example :
    (t : Journal) × (append flushed blank 5 7 message
      ≡ returns (t, synced every_message flushed (place blank message)))
    × (read_entry t (place blank message) ≡ returns (some (entry_header 5 7 message, message)))
    × (t.write_offset ≡ place blank message + (header_size + length message))
    × (t.write_offset ≤ t.capacity)
unfolding opened
append-read_entry_example =
    append-read_entry flushed blank 5 7 message refl (omega arith) (omega arith) (omega arith)
      (omega arith) (omega arith)

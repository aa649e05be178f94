-- ===== src/Search/Tests.antt =====
-- Runs of src/simd.rs, with intrinsics on lists of lanes.
use fix_engine.Base.{Bytes, List, arith, codes, drop, refl, replicate, some, take, true, ℕ, ◌≡◌}
use fix_engine.Search.{
  Sse2, x86_64, find_byte, find_byte_sse2, lanes_eq, find_byte_scalar, top_bits, count_byte,
  count_byte_scalar,
}
use fix_engine.Search.Agree.{find_byte-scalar}

abbrev lane_lists : Sse2
lane_lists = record {
  Vector = List ℕ;
  lanes = λ v. v;
  set1 = λ b. replicate 16 b;
  loadu = λ buf offset. take 16 (drop offset buf);
  cmpeq = lanes_eq;
  movemask = top_bits;
  lanes-set1 = λ b h. refl;
  lanes-loadu = λ buf offset h. refl;
  lanes-cmpeq = λ a b. refl;
  movemask-lanes = λ a. refl;
}

abbrev message : Bytes
message = codes "35=D|49=BUY|56=SELL|34=2|"

runs : find_byte_sse2 lane_lists message b'L' ≡ some 17
unfolding find_byte_sse2
runs = refl

find_byte-scalar_example :
    (find_byte (x86_64 lane_lists true) message b'|' ≡ find_byte_scalar message b'|')
    × (count_byte (x86_64 lane_lists true) message b'|' ≡ count_byte_scalar message b'|')
find_byte-scalar_example = find_byte-scalar (x86_64 lane_lists true) message b'|' (omega arith)

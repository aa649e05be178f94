-- ===== src/Checksum/Tests.antt =====
-- Runs of src/checksum.rs on concrete bytes.
use fix_engine.Base.{arith, codes, true, ◌++◌, ◌≡◌}
use fix_engine.Checksum.{compute, validate}
use fix_engine.Checksum.Validate.{trailer, validate-append}

validate-append_example : validate (codes "8=A" ++ trailer b'1' b'8' b'3') ≡ true
unfolding compute
validate-append_example =
    validate-append (codes "8=A") b'1' b'8' b'3' (omega arith) (omega arith) (omega arith)

-- 439 is 183 modulo 256.
accepted_modulo_256 : validate (codes "8=A" ++ trailer b'4' b'3' b'9') ≡ true
unfolding compute
accepted_modulo_256 =
    validate-append (codes "8=A") b'4' b'3' b'9' (omega arith) (omega arith) (omega arith)

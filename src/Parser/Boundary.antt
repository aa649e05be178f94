-- ===== src/Parser/Boundary.antt =====
-- Bounds of the end of a message that src/parser.rs finds.
use fix_engine.Base.{
  Bool-cases, Bytes, arith, inl, inr, length, ltb, not_ltb→le, some, some-injective, suc, true,
  zero, ℕ, ◌+◌, ◌-◌, ◌<◌, ◌≡◌, ◌≤◌,
}
use fix_engine.Parser.{boundary_at, scan_boundary, find_message_boundary}

module _ (buffer : Bytes) where
  scan-some :
      (n i e : ℕ)
      → scan_boundary n buffer i ≡ some e
      → (i + 8 ≤ e) × (e < i + n + 8) × (boundary_at buffer (e - 8) ≡ true)
  unfolding scan_boundary
  scan-some zero i e h = ground arith
  scan-some (suc n) i e h = elim (Bool-cases (boundary_at buffer i)) [
    | inl hit ↦
        let end : i + 8 ≡ e = some-injective (rw hit at h) in
        let place : e - 8 ≡ i = omega arith in (omega arith, omega arith, rw place hit)
    | inr miss ↦
        let (low, high, there) = scan-some n (i + 1) e (rw miss at h) in
        (omega arith, omega arith, there)
  ]

pub find_message_boundary-bounds :
    (buffer : Bytes) (e : ℕ) → find_message_boundary buffer ≡ some e → (8 ≤ e) × (e ≤ length buffer)
unfolding find_message_boundary
find_message_boundary-bounds buffer e h = elim (Bool-cases (ltb (length buffer) 7)) [
  | inl short ↦ let never = rw short at h in ground arith
  | inr room ↦
      let enough = not_ltb→le (length buffer) 7 room in
      let found = rw room at h in
      let (low, high, there) = scan-some buffer (length buffer - 7) 0 e found in
      (omega arith, omega arith)
]

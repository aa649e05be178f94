-- ===== src/Parser/Ends.antt =====
-- The search for a message's end in src/parser.rs against a search through the bytes.
use fix_engine.Base.{
  Bool, Bool-cases, Bytes, Option, [], ap, append_assoc, arith, false, get_or-append, if◌then◌else◌,
  inl, inr, length, length-append, ltb, ltb→lt, none, refl, some, suc, sym, zero, ℕ, ◌&&◌, ◌++◌,
  ◌+◌, ◌-◌, ◌<◌, ◌==◌, ◌∙◌, ◌∷◌, ◌≡◌, ◌≤◌,
}
use fix_engine.Checksum.{is_trailer_at}
use fix_engine.Parser.{boundary_at, scan_boundary, find_message_boundary}

-- The bytes begin with SOH, "10=", three bytes and SOH.
unfoldable pub ends_here : Bytes → Bool
ends_here (a ∷ b ∷ c ∷ d ∷ x ∷ y ∷ z ∷ e ∷ rest) =
    (a == 1) && (b == b'1') && (c == b'0') && (d == b'=') && (e == 1)
ends_here _ = false

-- The place behind the first such eight bytes, where `i` bytes stand in front.
unfoldable pub first_end : Bytes → ℕ → Option ℕ
unfolding ends_here
first_end [] i = none
first_end (b ∷ bs) i =
    let later = first_end bs (i + 1) in if ends_here (b ∷ bs) then some (i + 8) else later

at_front : (bytes : Bytes) → 8 ≤ length bytes → boundary_at bytes 0 ≡ ends_here bytes
unfolding boundary_at is_trailer_at ends_here
at_front (a ∷ b ∷ c ∷ d ∷ x ∷ y ∷ z ∷ e ∷ rest) h = ground arith
at_front _ h = absurd (omega arith)

-- The test at a place is the test at the front of what follows it.
behind :
    (pre rest : Bytes) (i : ℕ) → i ≡ length pre → boundary_at (pre ++ rest) i ≡ boundary_at rest 0
unfolding boundary_at is_trailer_at
behind pre rest i h =
    rw
      (
        get_or-append pre rest i 0 0 (omega arith),
        get_or-append pre rest (i + 1) 1 0 (omega arith),
        get_or-append pre rest (i + 2) 2 0 (omega arith),
        get_or-append pre rest (i + 3) 3 0 (omega arith),
        get_or-append pre rest (i + 7) 7 0 (omega arith),
      )
      refl

too_short : (bytes : Bytes) → length bytes < 8 → ends_here bytes ≡ false
unfolding ends_here
too_short (a ∷ b ∷ c ∷ d ∷ x ∷ y ∷ z ∷ e ∷ rest) h = absurd (omega arith)
too_short _ h = refl

first_end-short : (bytes : Bytes) (i : ℕ) → length bytes < 8 → first_end bytes i ≡ none
unfolding first_end
first_end-short [] i h = refl
first_end-short (b ∷ bs) i h =
    rw (too_short (b ∷ bs) h, first_end-short bs (i + 1) (omega arith)) refl

scan-first_end :
    (pre rest : Bytes) (n i : ℕ)
    → i ≡ length pre
    → n ≡ length rest - 7
    → scan_boundary n (pre ++ rest) i ≡ first_end rest i
unfolding scan_boundary first_end
scan-first_end pre rest zero i at left = sym (first_end-short rest i (omega arith))
scan-first_end pre [] (suc n) i at left = absurd (omega arith)
scan-first_end pre (b ∷ bs) (suc n) i at left =
    let here : boundary_at (pre ++ (b ∷ bs)) i ≡ ends_here (b ∷ bs) =
      behind pre (b ∷ bs) i at ∙ at_front (b ∷ bs) (omega arith) in
    let next : scan_boundary n (pre ++ (b ∷ bs)) (i + 1) ≡ first_end bs (i + 1) =
      ap (λ z. scan_boundary n z (i + 1)) (sym (append_assoc pre (b ∷ []) bs))
      ∙ scan-first_end (pre ++ (b ∷ [])) bs n (i + 1) (omega (arith, length-append pre (b ∷ [])))
          (omega arith) in
    rw (here, next) refl

-- On every buffer, `find_message_boundary` gives what a search through the bytes gives: the place
-- behind the first eight bytes that are a delimiter, "10=", three bytes and a delimiter, and nothing
-- where there are none.
pub find_message_boundary-first_end :
    (buffer : Bytes) → find_message_boundary buffer ≡ first_end buffer 0
unfolding find_message_boundary
find_message_boundary-first_end buffer = elim (Bool-cases (ltb (length buffer) 7)) [
  | inl short ↦
      let few = ltb→lt (length buffer) 7 short in
      rw short (sym (first_end-short buffer 0 (omega arith)))
  | inr room ↦ rw room (scan-first_end [] buffer (length buffer - 7) 0 refl refl)
]

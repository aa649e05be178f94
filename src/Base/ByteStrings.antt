-- ===== src/Base/ByteStrings.antt =====
-- Byte strings as lists of numbers, tables over a byte, and decimal digits.
use Prim.Native.Nat.{ℕ, zero, suc, ◌+◌, ◌-◌, ◌*◌, ◌≤◌, ◌<◌}
use Prim.Native.Char.{code}
use Prim.Native.String.{String}
use mathlib.Core.Path.{◌≡◌, ap}
use mathlib.Core.Logic.{◌≢◌, ◌↔◌}
use mathlib.Core.Bool.{Bool, true, false, ◌&&◌}
use mathlib.Core.List.{List, [], ◌∷◌, ◌++◌}
use native.Mathlib.Omega.{arith}
use fix_engine.Base.Lists.{
  All, length, take, drop, drop-length_append, take-length_append, length-append,
}
use fix_engine.Base.Tests.{◌==◌, leb, if◌then◌else◌, le→leb, ==_iff}
use fix_engine.Base.Results.{Outcome, returns, panics}

abbrev pub Bytes : Type 0
Bytes = List ℕ

-- The code points of a literal; these are its bytes when the text is ASCII.
abbrev pub codes : String → Bytes
codes String.[] = []
codes (String.◌∷◌ c s) = code c ∷ codes s

abbrev pub IsByte : ℕ → Type 0
IsByte b = b < 256

abbrev pub IsDigit : ℕ → Type 0
IsDigit c = (b'0' ≤ c) × (c ≤ b'9')

-- The bytes hold no `b`.
abbrev pub Lacks : ℕ → Bytes → Type 0
Lacks b = All (λ c. c ≢ b)

-- The number that digits spell behind `n`, with no bound.
abbrev pub value : ℕ → Bytes → ℕ
value n [] = n
value n (c ∷ cs) = value (n * 10 + (c - b'0')) cs

-- `a == b` on slices.
unfoldable pub bytes_eq : Bytes → Bytes → Bool
bytes_eq [] [] = true
bytes_eq (x ∷ xs) (y ∷ ys) = (x == y) && bytes_eq xs ys
bytes_eq _ _ = false

pub bytes_eq_iff : (a b : Bytes) → (bytes_eq a b ≡ true) ↔ (a ≡ b)
unfolding bytes_eq
bytes_eq_iff (x ∷ a) (y ∷ b) = ground (arith, bytes_eq_iff a b)
bytes_eq_iff _ _ = ground arith

-- `&buffer[offset..offset + length]`.
unfoldable pub slice : Bytes → ℕ → ℕ → Outcome Bytes
slice buffer offset len =
    if leb (offset + len) (length buffer) then returns (take len (drop offset buffer)) else panics

-- A slice of a text between two known parts.
pub slice-append :
    (pre mid post : Bytes) (offset len : ℕ)
    → offset ≡ length pre
    → len ≡ length mid
    → slice (pre ++ (mid ++ post)) offset len ≡ returns mid
unfolding slice
slice-append pre mid post offset len eo el = rw (
  drop-length_append offset pre (mid ++ post) eo,
  take-length_append len mid post el,
  le→leb (offset + len) (length (pre ++ (mid ++ post)))
      (omega (arith, length-append pre (mid ++ post), length-append mid post)),
)

-- Two tables agree on their first entries, by evaluation.
unfoldable pub tables_agree : (ℕ → ℕ) → (ℕ → ℕ) → ℕ → Bool
tables_agree f g zero = true
tables_agree f g (suc k) = tables_agree f g k && f k == g k

pub tables_agree_at : (f g : ℕ → ℕ) (k r : ℕ) → r < k → tables_agree f g k ≡ true → f r ≡ g r
unfolding tables_agree
tables_agree_at f g zero r low agree = absurd (omega arith)
tables_agree_at f g (suc k) r low agree =
    let earlier = λ (b : r < k). tables_agree_at f g k r b (ground arith) in
    let last = ==_iff (f k) (g k) in ground (arith, earlier, last, ap f, ap g)

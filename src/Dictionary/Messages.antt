-- ===== src/Dictionary/Messages.antt =====
-- src/dict_compiler.rs: the loops over messages and their fields end before their fuel does.
use fix_engine.Base.{
  Bool-cases, Bytes, List, Option, Option-cases, [], ap, arith, codes, drop, err, inl, inr, length,
  ltb, none, ok, panics, refl, returns, some, suc, sym, take, zero, ℕ, ◌+◌, ◌<◌, ◌∙◌, ◌∷◌, ◌≡◌, ◌≤◌,
}
use fix_engine.Dictionary.{CompiledFieldDef, CompiledMessageDef, MessageCategory}
use fix_engine.Dictionary.Loops.{
  length-behind, find-bounds, next_tag-shrinks, field_loop-agree, enum_values-agree,
}
use fix_engine.Dictionary.Scan.{Compiled, find, next_tag, push, ok_then, field_loop, enum_values}
use fix_engine.Dictionary.Compile.{
  field_lists, message_loop, message_turn, next_message, message_header, closed_message,
  tagged_message,
}

module _ (fields : List CompiledFieldDef) where
  field_lists-nil : (n : ℕ) → field_lists fields n [] ≡ ([], [])
  unfolding field_lists next_tag find
  field_lists-nil zero = refl
  field_lists-nil (suc n) = refl

  field_lists-agree :
      (n m : ℕ) (body : Bytes)
      → length body ≤ n
      → length body ≤ m
      → field_lists fields n body ≡ field_lists fields m body
  unfolding field_lists
  field_lists-agree n m [] h k = field_lists-nil n ∙ sym (field_lists-nil m)
  field_lists-agree zero m (b ∷ body) h k = absurd (omega arith)
  field_lists-agree (suc n) zero (b ∷ body) h k = absurd (omega arith)
  field_lists-agree (suc n) (suc m) (b ∷ body) h k =
      elim (Option-cases (next_tag (codes "<field ") (b ∷ body))) [
        | inl e ↦ rw (field_lists, e) refl
        | inr ((tag_str, behind), e) ↦
            let less = next_tag-shrinks (codes "<field ") (b ∷ body) e in
            rw (field_lists, e, field_lists-agree n m behind (omega arith) (omega arith)) refl
      ]

  -- What is behind a message is shorter.
  LeavesLess : ℕ → Compiled (Option (CompiledMessageDef × Bytes)) → Type 0
  LeavesLess n (returns (ok (some (message, behind)))) = length behind < n
  LeavesLess n (returns (ok none)) = Unit {0}
  LeavesLess n (returns (err e)) = Unit {0}
  LeavesLess n panics = Unit {0}

  module _ (from : Bytes) (n : ℕ) (shorter : (k : ℕ) → 0 < k → length (drop k from) < n) where
    closed_message-LeavesLess :
        (header_end : ℕ) (header : Bytes × (Bytes × MessageCategory)) (close : Option ℕ)
        → LeavesLess n (closed_message fields from header_end header close)
    unfolding LeavesLess
    closed_message-LeavesLess header_end header none = tt
    closed_message-LeavesLess header_end header (some close) =
        elim (Bool-cases (ltb close (header_end + 1))) [
          | inl early ↦ rw early tt
          | inr late ↦ rw late (shorter (close + 10) (omega arith))
        ]

    header-LeavesLess :
        (header_end : ℕ) (m : Compiled (Bytes × (Bytes × MessageCategory))) (close : Option ℕ)
        → LeavesLess n (ok_then m (λ header. closed_message fields from header_end header close))
    unfolding LeavesLess
    header-LeavesLess header_end (returns (ok header)) close =
        closed_message-LeavesLess header_end header close
    header-LeavesLess header_end (returns (err e)) close = tt
    header-LeavesLess header_end panics close = tt

    tagged_message-LeavesLess : (o : Option ℕ) → LeavesLess n (tagged_message fields from o)
    unfolding LeavesLess
    tagged_message-LeavesLess none = tt
    tagged_message-LeavesLess (some header_end) =
        header-LeavesLess header_end (message_header (take (header_end + 1) from))
          (find (codes "</message>") from)

  next_message-LeavesLess : (rest : Bytes) → LeavesLess (length rest) (next_message fields rest)
  unfolding next_message LeavesLess
  next_message-LeavesLess rest = elim (Option-cases (find (codes "<message ") rest)) [
    | inl e ↦ rw e tt
    | inr (s, e) ↦
        let from = drop s rest in
        rw e (
          tagged_message-LeavesLess from (length rest)
            (λ k pos. length-behind k s rest (find-bounds (codes "<message ") rest s e) pos)
            (find (b'>' ∷ []) from))
  ]

  message_turn-agree :
      (f g : Bytes → Compiled (List CompiledMessageDef)) (n : ℕ)
      (o : Compiled (Option (CompiledMessageDef × Bytes)))
      → LeavesLess n o
      → ((b : Bytes) → length b < n → f b ≡ g b)
      → ok_then o (message_turn f) ≡ ok_then o (message_turn g)
  unfolding LeavesLess
  message_turn-agree f g n (returns (ok (some (message, behind)))) h agree =
      ap (push (returns (ok message))) (agree behind h)
  message_turn-agree f g n (returns (ok none)) h agree = refl
  message_turn-agree f g n (returns (err e)) h agree = refl
  message_turn-agree f g n panics h agree = refl

  message_loop-nil : (n : ℕ) → message_loop fields n [] ≡ returns (ok [])
  unfolding message_loop next_message find
  message_loop-nil zero = refl
  message_loop-nil (suc n) = refl

  message_loop-agree :
      (n m : ℕ) (rest : Bytes)
      → length rest ≤ n
      → length rest ≤ m
      → message_loop fields n rest ≡ message_loop fields m rest
  unfolding message_loop
  message_loop-agree n m [] h k = message_loop-nil n ∙ sym (message_loop-nil m)
  message_loop-agree zero m (b ∷ rest) h k = absurd (omega arith)
  message_loop-agree (suc n) zero (b ∷ rest) h k = absurd (omega arith)
  message_loop-agree (suc n) (suc m) (b ∷ rest) h k =
      message_turn-agree (message_loop fields n) (message_loop fields m) (length (b ∷ rest))
        (next_message fields (b ∷ rest)) (next_message-LeavesLess (b ∷ rest))
        λ c less. message_loop-agree n m c (omega arith) (omega arith)

-- The loops of the compiler stop by themselves: with the fuel that they are called with, the number
-- of bytes of the text, the loops over fields, values, messages and their fields give what they give
-- with any more fuel.
pub loops-enough :
    (fields : List CompiledFieldDef) (text : Bytes) (n : ℕ)
    → length text ≤ n
    → (field_loop n text ≡ field_loop (length text) text)
      × (enum_values n text ≡ enum_values (length text) text)
      × (message_loop fields n text ≡ message_loop fields (length text) text)
      × (field_lists fields n text ≡ field_lists fields (length text) text)
loops-enough fields text n h = (
  field_loop-agree n (length text) text h (omega arith),
  enum_values-agree n (length text) text h (omega arith),
  message_loop-agree fields n (length text) text h (omega arith),
  field_lists-agree fields n (length text) text h (omega arith),
)

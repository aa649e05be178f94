-- ===== src/Serializer/Finalize.antt =====
-- `finalize` of src/serializer.rs: the body length, the checksum and the trailer.
use fix_engine.Base.{
  Bool-cases, Bytes, Outcome, [], ap, append_assoc, ap₂, arith, codes, drop, drop-length_append,
  if◌then◌else◌, inl, inr, leb, length, length-append, length-replicate, le→leb, lt→not_leb, panics,
  refl, replicate, returns, suc, sym, take-length_append, zero, ℕ, ◌++◌, ◌+◌, ◌-◌, ◌∙◌, ◌∷◌, ◌≡◌,
}
use fix_engine.Checksum
use fix_engine.Decimal.{padded, length-padded}
use fix_engine.Serializer.{
  FixSerializer, store_all, copy_at, fill_body_length, checksum_field, finalize, write_u64_to_buf,
}
use fix_engine.Serializer.Digits.{write_u64_to_buf-padded}
use fix_engine.Serializer.Writers.{state, field, store-append, copy_at-append}

-- Everything up to the checksum field: BeginString, the body length in six digits, and the body.
unfoldable pub head : Bytes → Bytes → Bytes
head begin_string body =
    (field 8 begin_string ++ codes "9=") ++ (padded 6 (length body) [] ++ (1 ∷ body))

-- A whole message on the wire.
unfoldable pub message : Bytes → Bytes → Bytes
message begin_string body =
    let front = head begin_string body in front ++ checksum_field (Checksum.compute front)

-- What `begin` writes before the body.
unfoldable pub opening : Bytes → Bytes
opening begin_string = (field 8 begin_string ++ codes "9=") ++ (replicate 6 b'0' ++ 1 ∷ [])

leb-suc : (n m : ℕ) → leb (suc n) (suc m) ≡ leb n m
leb-suc n m = ground arith

store_all-append :
    (bytes w r : Bytes) (k : ℕ)
    → k ≡ length w
    → store_all (w ++ r) k bytes ≡ (
        if leb (length bytes) (length r)
        then returns (w ++ (bytes ++ drop (length bytes) r))
        else panics)
unfolding store_all
store_all-append [] w r k h = rw (le→leb 0 (length r) (omega arith)) refl
store_all-append (c ∷ bytes) w [] k h =
    rw (store-append w [] k c h, lt→not_leb (suc (length bytes)) 0 (omega arith))
store_all-append (c ∷ bytes) w (x ∷ r) k h =
    rw
      (
        store-append w (x ∷ r) k c h,
        le→leb 1 (suc (length r)) (omega arith),
        ← append_assoc w (c ∷ []) r,
      )
      (store_all-append bytes (w ++ c ∷ []) r (k + 1) (omega (arith, length-append w (c ∷ [])))
        ∙ rw (
          append_assoc w (c ∷ []) (bytes ++ drop (length bytes) r),
          leb-suc (length bytes) (length r),
        ))

-- Over bytes of the same length a run of stores, or a copy, replaces those bytes.
store_all_over :
    (w old new post : Bytes) (k : ℕ)
    → k ≡ length w
    → length old ≡ length new
    → store_all (w ++ (old ++ post)) k new ≡ returns (w ++ (new ++ post))
store_all_over w old new post k h same = rw (
  store_all-append new w (old ++ post) k h,
  le→leb (length new) (length (old ++ post)) (omega (arith, length-append old post)),
  drop-length_append (length new) old post (sym same),
)

copy_at_over :
    (w old new post : Bytes) (k : ℕ)
    → k ≡ length w
    → length old ≡ length new
    → copy_at (w ++ (old ++ post)) k new ≡ returns (w ++ (new ++ post))
copy_at_over w old new post k h same = rw (
  copy_at-append w (old ++ post) new k h,
  le→leb (length new) (length (old ++ post)) (omega (arith, length-append old post)),
  drop-length_append (length new) old post (sym same),
)

replicate-append : (i j : ℕ) (b : ℕ) → replicate i b ++ replicate j b ≡ replicate (i + j) b
replicate-append zero j b = let e : j ≡ 0 + j = omega arith in ap (λ k. replicate k b) e
replicate-append (suc i) j b =
    let e : suc (i + j) ≡ suc i + j = omega arith in
    ap (◌∷◌ b) (replicate-append i j b) ∙ ap (λ k. replicate k b) e

-- The reserved zeros become the six digits of the body length.
justify :
    (w post : Bytes) (n k : ℕ)
    → k ≡ length w
    → copy_at
        (w ++ (replicate 6 b'0' ++ post))
        (k + (6 - length (write_u64_to_buf n)))
        (write_u64_to_buf n)
      ≡ returns (w ++ (padded 6 n [] ++ post))
justify w post n k h =
    let (spelled, short) = write_u64_to_buf-padded n in
    let bl : Bytes = write_u64_to_buf n in
    let pad : Bytes = replicate (6 - length bl) b'0' in
    let old : Bytes = replicate (length bl) b'0' in
    let all : 6 - length bl + length bl ≡ 6 = omega arith in
    let six : pad ++ old ≡ replicate 6 b'0' =
      replicate-append (6 - length bl) (length bl) b'0' ∙ ap (λ z. replicate z b'0') all in
    let at : k + (6 - length bl) ≡ length (w ++ pad) =
      omega (arith, length-append w pad, length-replicate {A = ℕ} (6 - length bl) b'0') in
    let start : w ++ (replicate 6 b'0' ++ post) ≡ (w ++ pad) ++ (old ++ post) =
      ap (λ z. w ++ (z ++ post)) (sym six)
      ∙ ap (◌++◌ w) (append_assoc pad old post)
      ∙ sym (append_assoc w pad (old ++ post)) in
    ap (λ z. copy_at z (k + (6 - length bl)) bl) start
    ∙ copy_at_over (w ++ pad) old bl post _ at (length-replicate {A = ℕ} (length bl) b'0')
    ∙ ap returns (
        append_assoc w pad (bl ++ post)
        ∙ ap (◌++◌ w) (sym (append_assoc pad bl post))
        ∙ ap (λ z. w ++ (z ++ post)) spelled)

module _ (begin_string body rest : Bytes) where
  start : Bytes
  start = field 8 begin_string ++ codes "9="

  written : Bytes
  written = opening begin_string ++ body

  -- The state in which `finalize` is called.
  abbrev pub before : FixSerializer
  before = state (opening begin_string ++ body) rest (length (opening begin_string))

  length-opening : length (opening begin_string) ≡ length start + 7
  unfolding opening start
  length-opening = length-append (field 8 begin_string ++ codes "9=") (replicate 6 b'0' ++ 1 ∷ [])

  split_buffer :
      (opening begin_string ++ body) ++ rest ≡ start ++ (replicate 6 b'0' ++ (1 ∷ (body ++ rest)))
  unfolding opening start
  split_buffer =
      append_assoc (opening begin_string) body rest
      ∙ append_assoc start (replicate 6 b'0' ++ 1 ∷ []) (body ++ rest)

  reserved_at : length (opening begin_string) - 7 ≡ length start
  reserved_at = omega (arith, length-opening)

  body_length : length (opening begin_string ++ body) - length (opening begin_string) ≡ length body
  body_length = omega (arith, length-append (opening begin_string) body)

  abbrev front : Bytes
  front = head begin_string body

  join_buffer : start ++ (padded 6 (length body) [] ++ (1 ∷ (body ++ rest))) ≡ front ++ rest
  unfolding head start
  join_buffer =
      let six = padded 6 (length body) [] in
      ap (◌++◌ start) (sym (append_assoc six (1 ∷ body) rest))
      ∙ sym (append_assoc start (six ++ (1 ∷ body)) rest)

  fill_body_length_lem : fill_body_length before ≡ returns (front ++ rest)
  unfolding fill_body_length
  fill_body_length_lem =
      rw
        (
          split_buffer,
          reserved_at,
          body_length,
          store_all_over start (replicate 6 b'0') (replicate 6 b'0') (1 ∷ (body ++ rest))
              (length start) refl refl,
        )
        (justify start (1 ∷ (body ++ rest)) (length body) (length start) refl
          ∙ ap returns join_buffer)

  length-front : length (opening begin_string ++ body) ≡ length front
  unfolding head start
  length-front = omega (
    arith,
    length-append (opening begin_string) body,
    length-opening,
    length-append start (padded 6 (length body) [] ++ (1 ∷ body)),
    length-append (padded 6 (length body) []) (1 ∷ body),
    length-padded 6 (length body) [],
  )

  length-checksum_field : (cs : ℕ) → length (checksum_field cs) ≡ 7
  unfolding checksum_field Checksum.format
  length-checksum_field cs = refl

  length-message : length (message begin_string body) ≡ length front + 7
  unfolding message
  length-message =
      length-append front _
      ∙ ap (λ k. length front + k) (length-checksum_field (Checksum.compute front))

  finished : Bytes → ℕ → Outcome (FixSerializer × ℕ)
  finished buffer n =
      returns (record { buffer = buffer; pos = n; body_start = length (opening begin_string) }, n)

  finished_lem :
      finished
        (front ++ (checksum_field (Checksum.compute front) ++ drop 7 rest))
        (length (opening begin_string ++ body) + 7)
      ≡ finished (message begin_string body ++ drop 7 rest) (length (message begin_string body))
  finished_lem =
      let e : length (opening begin_string ++ body) + 7 ≡ length (message begin_string body) =
        omega (arith, length-front, length-message) in
      ap₂ finished
        (unfold message in
          sym (append_assoc front (checksum_field (Checksum.compute front)) (drop 7 rest)))
        e

  -- Where the buffer holds what `begin` writes and a body, `finalize` fills in the body length and
  -- appends the checksum field when seven bytes are left for it, and panics otherwise.
  pub finalize_lem : finalize before ≡ (
      if leb 7 (length rest)
      then returns (
        record {
          buffer = message begin_string body ++ drop 7 rest;
          pos = length (message begin_string body);
          body_start = length (opening begin_string);
        },
        length (message begin_string body),
      )
      else panics)
  unfolding finalize finished
  finalize_lem =
      let cs : ℕ = Checksum.compute front in
      rw
        (
          fill_body_length_lem,
          take-length_append (length (opening begin_string ++ body)) front rest length-front,
          store_all-append (checksum_field cs) front rest (length (opening begin_string ++ body))
              length-front,
          length-checksum_field cs,
        )
        (elim (Bool-cases (leb 7 (length rest))) [
          | inl fits ↦ rw fits finished_lem
          | inr full ↦ rw full
        ])

pub length-message_parts :
    (begin_string body : Bytes)
    → length (message begin_string body) ≡ length (opening begin_string) + length body + 7
length-message_parts begin_string body = omega (
  arith,
  length-message begin_string body [],
  length-front begin_string body [],
  length-append (opening begin_string) body,
)

-- The message, written out.
pub message-eq :
    (begin_string body : Bytes)
    → message begin_string body
      ≡ head begin_string body
        ++ (b'1'
            ∷ b'0'
            ∷ b'='
            ∷ (Checksum.format (Checksum.compute (head begin_string body)) ++ 1 ∷ []))
unfolding message checksum_field
message-eq begin_string body = refl

-- ===== src/Serializer/Contract.antt =====
-- The serializer's contract, from `new` to `finalize` of src/serializer.rs: what is built is the
-- specified message, or the call panics where the buffer is too small.
use fix_engine.Base.{
  >>=-regroup, Bool-cases, Bytes, Outcome, [], ap, append-nil, append_assoc, arith, codes, dec_le,
  drop, drop-drop, if◌then◌else◌, inl, inr, leb, length, length-append, length-drop, lt→not_leb,
  panics, refl, replicate, returns, sym, ℕ, ◌++◌, ◌+◌, ◌-◌, ◌<◌, ◌>>=◌, ◌∙◌, ◌∷◌, ◌≡◌, ◌≤◌,
}
use fix_engine.Serializer.{FixSerializer, new, begin, write_tag_value, write_bytes}
use fix_engine.Serializer.Build.{finish}
use fix_engine.Serializer.Writers.{
  state, put, put_fits, put_overflow, put-append, Writes, Writes-bind, field,
  write_tag_value-Writes, write_bytes-Writes,
}
use fix_engine.Serializer.Finalize.{message, opening, before, finalize_lem, length-message_parts}

-- The specified result: the message in front of what the buffer held behind it, where it fits.
unfoldable pub serialized : Bytes → Bytes → Bytes → Bytes → Outcome (Bytes × ℕ)
serialized buffer begin_string msg_type tail =
    let msg = message begin_string (field 35 msg_type ++ tail) in
    if leb (length msg) (length buffer)
    then returns (msg ++ drop (length msg) buffer, length msg)
    else panics

-- The operation appends `tail` and finishes the message.
abbrev pub Ends : (FixSerializer → Outcome (Bytes × ℕ)) → Bytes → Type 0
Ends op tail = (w r : Bytes) (b : ℕ) → op (state w r b) ≡ (put w r b tail >>= finish)

pub finish-Ends : Ends finish []
finish-Ends w r b = rw (put_fits w r [] b (omega arith), append-nil w)

pub Ends-bind :
    (f : FixSerializer → Outcome FixSerializer) (g : FixSerializer → Outcome (Bytes × ℕ))
    (xs ys : Bytes)
    → Writes f xs
    → Ends g ys
    → Ends (λ s. f s >>= g) (xs ++ ys)
Ends-bind f g xs ys hf hg w r b = elim (dec_le (length xs) (length r)) [
  | yes h ↦
      rw (hf w r b, put_fits w r xs b h)
        (hg (w ++ xs) (drop (length xs) r) b ∙ ap (λ m. m >>= finish) (put-append w r xs ys b h))
  | no h ↦ rw (
    hf w r b,
    put_overflow w r xs b (omega arith),
    put_overflow w r (xs ++ ys) b (omega (arith, length-append xs ys)),
  )
]

module _ (begin_string msg_type : Bytes) where
  open_message : FixSerializer → Outcome FixSerializer
  open_message s = do
    t ← write_tag_value s 8 begin_string
    write_bytes t (codes "9=000000" ++ 1 ∷ [])

  opening-eq : field 8 begin_string ++ (codes "9=000000" ++ 1 ∷ []) ≡ opening begin_string
  unfolding opening
  opening-eq = sym (append_assoc (field 8 begin_string) (codes "9=") (replicate 6 b'0' ++ 1 ∷ []))

  open_message-Writes : Writes open_message (opening begin_string)
  unfolding open_message
  open_message-Writes w r b =
      Writes-bind (λ s. write_tag_value s 8 begin_string)
        (λ s. write_bytes s (codes "9=000000" ++ 1 ∷ [])) _ _
        (write_tag_value-Writes 8 begin_string (omega arith)) (write_bytes-Writes _) w r b
      ∙ ap (put w r b) opening-eq

  -- From the body on.
  rest_of : (FixSerializer → Outcome (Bytes × ℕ)) → FixSerializer → Outcome (Bytes × ℕ)
  rest_of op u = write_tag_value (record u { body_start = u.pos }) 35 msg_type >>= op

  begin_split :
      (s : FixSerializer) (op : FixSerializer → Outcome (Bytes × ℕ))
      → (begin s begin_string msg_type >>= op) ≡ (open_message s >>= rest_of op)
  unfolding begin open_message rest_of
  begin_split s op =
      >>=-regroup (write_tag_value s 8 begin_string)
        (λ t. write_bytes t (codes "9=000000" ++ 1 ∷ []))
        (λ u. write_tag_value (record u { body_start = u.pos }) 35 msg_type) op

  module _ (op : FixSerializer → Outcome (Bytes × ℕ)) (tail : Bytes) (ends : Ends op tail) where
    abbrev body : Bytes
    body = field 35 msg_type ++ tail

    rest_of-put :
        (r : Bytes)
        → rest_of op (state (opening begin_string) r 0)
          ≡ (put (opening begin_string) r (length (opening begin_string)) body >>= finish)
    unfolding rest_of
    rest_of-put r =
        Ends-bind (λ s. write_tag_value s 35 msg_type) op _ tail
          (write_tag_value-Writes 35 msg_type (omega arith)) ends (opening begin_string) r
          (length (opening begin_string))

    rest_of-fits :
        (r : Bytes)
        → length body ≤ length r
        → rest_of op (state (opening begin_string) r 0)
          ≡ finish (before begin_string body (drop (length body) r))
    rest_of-fits r h = rest_of-put r ∙ rw (put_fits (opening begin_string) r body _ h)

    rest_of-overflow :
        (r : Bytes)
        → length r < length body
        → rest_of op (state (opening begin_string) r 0) ≡ panics
    rest_of-overflow r h = rest_of-put r ∙ rw (put_overflow (opening begin_string) r body _ h)

    abbrev o : ℕ
    o = length (opening begin_string)

    abbrev n : ℕ
    n = length body

    abbrev msg : Bytes
    msg = message begin_string body

    length-msg : length msg ≡ o + n + 7
    length-msg = length-message_parts begin_string body

    room :
        (buffer : Bytes)
        → o + n ≤ length buffer
        → leb 7 (length (drop n (drop o buffer))) ≡ leb (length msg) (length buffer)
    room buffer h =
        rw (length-drop n (drop o buffer), length-drop o buffer, length-msg)
          (leb_room (length buffer) h)
      where
        leb_room : (k : ℕ) → o + n ≤ k → leb 7 (k - o - n) ≡ leb (o + n + 7) k
        leb_room k h = ground arith

    behind : (buffer : Bytes) → drop 7 (drop n (drop o buffer)) ≡ drop (length msg) buffer
    behind buffer =
        ap (drop 7) (drop-drop (o + n) o n buffer refl)
        ∙ drop-drop (length msg) (o + n) 7 buffer length-msg

    finish-before :
        (buffer : Bytes)
        → o + n ≤ length buffer
        → finish (before begin_string body (drop n (drop o buffer)))
          ≡ serialized buffer begin_string msg_type tail
    unfolding serialized
    finish-before buffer h =
        rw (finalize_lem begin_string body (drop n (drop o buffer)), room buffer h, behind buffer)
          (elim (Bool-cases (leb (length msg) (length buffer))) [
            | inl fits ↦ rw fits
            | inr full ↦ rw full
          ])

    serialized-panics :
        (buffer : Bytes)
        → length buffer < o + n
        → serialized buffer begin_string msg_type tail ≡ panics
    unfolding serialized
    serialized-panics buffer h =
        rw (lt→not_leb (length msg) (length buffer) (omega (arith, length-msg)))

    rest_of-serialized :
        (buffer : Bytes)
        → o ≤ length buffer
        → rest_of op (state (opening begin_string) (drop o buffer) 0)
          ≡ serialized buffer begin_string msg_type tail
    rest_of-serialized buffer k = elim (dec_le n (length (drop o buffer))) [
      | yes h ↦
          rest_of-fits (drop o buffer) h
          ∙ finish-before buffer (omega (arith, length-drop o buffer))
      | no h ↦
          rest_of-overflow (drop o buffer) (omega arith)
          ∙ sym (serialized-panics buffer (omega (arith, length-drop o buffer)))
    ]

    -- From `new` to `finalize`: the specified message in the buffer, or a panic.
    pub serialize_lem :
        (buffer : Bytes)
        → (begin (new buffer) begin_string msg_type >>= op)
          ≡ serialized buffer begin_string msg_type tail
    serialize_lem buffer =
        begin_split (new buffer) op
        ∙ ap (λ m. m >>= rest_of op) (open_message-Writes [] buffer 0)
        ∙ elim (dec_le o (length buffer)) [
          | yes h ↦ rw (put_fits [] buffer (opening begin_string) 0 h) (rest_of-serialized buffer h)
          | no h ↦
              rw (put_overflow [] buffer (opening begin_string) 0 (omega arith))
                (sym (serialized-panics buffer (omega arith)))
        ]

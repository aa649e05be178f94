-- ===== src/Cluster/RoundTrip.antt =====
-- The encodings of src/cluster.rs are read back: session states and snapshots.
use fix_engine.Base.{
  Bool, Bytes, ap, append_assoc, arith, drop, drop-length_append, length, length-append, le→not_ltb,
  refl, some, suc, sym, take, take-length_append, true, zero, ℕ, ◌%◌, ◌++◌, ◌+◌, ◌/◌, ◌<◌, ◌^◌, ◌∙◌,
  ◌∷◌, ◌≡◌,
}
use fix_engine.Cluster.Codec.{
  ReplicatedSessionState, encode_session_state, decode_session_state, le_bytes, from_le, read_str,
  encode_str, decode_numbers,
}

from_le-le_bytes : (w n : ℕ) → n < 256 ^ w → from_le (le_bytes w n) ≡ n
unfolding from_le le_bytes
from_le-le_bytes zero n h = omega arith
from_le-le_bytes (suc w) n h =
    let small : n / 256 < 256 ^ w = omega arith in omega (arith, from_le-le_bytes w (n / 256) small)

pub length-le_bytes : (w n : ℕ) → length (le_bytes w n) ≡ w
unfolding le_bytes
length-le_bytes zero n = refl
length-le_bytes (suc w) n = omega (arith, length-le_bytes w (n / 256))

-- Reading an integer in front of other bytes, and skipping it.
take-le_bytes : (w n : ℕ) (rest : Bytes) → take w (le_bytes w n ++ rest) ≡ le_bytes w n
take-le_bytes w n rest = take-length_append w (le_bytes w n) rest (sym (length-le_bytes w n))

pub drop-le_bytes : (w n : ℕ) (rest : Bytes) → drop w (le_bytes w n ++ rest) ≡ rest
drop-le_bytes w n rest = drop-length_append w (le_bytes w n) rest (sym (length-le_bytes w n))

pub number-le_bytes :
    (w n : ℕ) (rest : Bytes) → n < 256 ^ w → from_le (take w (le_bytes w n ++ rest)) ≡ n
number-le_bytes w n rest h = ap from_le (take-le_bytes w n rest) ∙ from_le-le_bytes w n h

-- The states that the types of the source allow, with strings whose length an u16 holds.
pub record Fits (is_utf8 : Bytes → Bool) (s : ReplicatedSessionState) : Type 0 where
  pub session_id : (length s.session_id < 2 ^ 16) × (is_utf8 s.session_id ≡ true)
  pub sender_comp_id : (length s.sender_comp_id < 2 ^ 16) × (is_utf8 s.sender_comp_id ≡ true)
  pub target_comp_id : (length s.target_comp_id < 2 ^ 16) × (is_utf8 s.target_comp_id ≡ true)
  pub outbound_seq_num : s.outbound_seq_num < 2 ^ 64
  pub inbound_seq_num : s.inbound_seq_num < 2 ^ 64
  pub last_updated_ms : s.last_updated_ms < 2 ^ 64

abbrev nums : ReplicatedSessionState → Bytes
nums s =
    le_bytes 8 s.outbound_seq_num
    ++ (le_bytes 8 s.inbound_seq_num ++ (s.state ∷ le_bytes 8 s.last_updated_ms))

module _ (is_utf8 : Bytes → Bool) where
  read_str-append :
      (s rest : Bytes)
      → length s < 2 ^ 16
      → is_utf8 s ≡ true
      → read_str is_utf8 (encode_str s ++ rest) ≡ some (s, rest)
  unfolding read_str encode_str
  read_str-append s rest h u =
      let m = length s % 2 ^ 16 in
      let e : m ≡ length s = omega arith in
      let enough = length-append (le_bytes 2 m) (s ++ rest) in
      rw (
        append_assoc (le_bytes 2 m) s rest,
        number-le_bytes 2 m (s ++ rest) (omega arith),
        drop-le_bytes 2 m (s ++ rest),
        take-length_append m s rest e,
        drop-length_append m s rest e,
        u,
        le→not_ltb (length (s ++ rest)) m (omega (arith, length-append s rest)),
        le→not_ltb (length (le_bytes 2 m ++ (s ++ rest))) 2
            (omega (arith, enough, length-le_bytes 2 m)),
      )

  abbrev state_of : Bytes → Bytes → Bytes → ℕ → ℕ → ℕ → ℕ → ReplicatedSessionState
  state_of id sender target o i st u = record {
    session_id = id;
    sender_comp_id = sender;
    target_comp_id = target;
    outbound_seq_num = o;
    inbound_seq_num = i;
    state = st;
    last_updated_ms = u;
  }

  same_numbers :
      (id sender target : Bytes) (st : ℕ) {o o' i i' u u' : ℕ}
      → o ≡ o'
      → i ≡ i'
      → u ≡ u'
      → some (state_of id sender target o i st u) ≡ some (state_of id sender target o' i' st u')
  same_numbers id sender target st p q r = rw (p, q, r)

  decode_numbers-lem :
      (id sender target : Bytes) (o i st u : ℕ)
      → o < 2 ^ 64
      → i < 2 ^ 64
      → u < 2 ^ 64
      → decode_numbers id sender target (le_bytes 8 o ++ (le_bytes 8 i ++ (st ∷ le_bytes 8 u)))
        ≡ some (state_of id sender target o i st u)
  unfolding decode_numbers le_bytes
  decode_numbers-lem id sender target o i st u ho hi hu =
      same_numbers id sender target st (from_le-le_bytes 8 o ho) (from_le-le_bytes 8 i hi)
        (from_le-le_bytes 8 u hu)

  -- A session state whose strings are shorter than 2^16 bytes and are text, and whose numbers fit
  -- their widths, is decoded from its encoding.
  pub decode_session_state-encode_session_state :
      (s : ReplicatedSessionState)
      → Fits is_utf8 s
      → decode_session_state is_utf8 (encode_session_state s) ≡ some s
  unfolding decode_session_state encode_session_state
  decode_session_state-encode_session_state s f = rw (
    read_str-append s.session_id
        (encode_str s.sender_comp_id ++ (encode_str s.target_comp_id ++ nums s)) f.session_id.0
        f.session_id.1,
    read_str-append s.sender_comp_id (encode_str s.target_comp_id ++ nums s) f.sender_comp_id.0
        f.sender_comp_id.1,
    read_str-append s.target_comp_id (nums s) f.target_comp_id.0 f.target_comp_id.1,
    decode_numbers-lem s.session_id s.sender_comp_id s.target_comp_id s.outbound_seq_num
        s.inbound_seq_num s.state s.last_updated_ms f.outbound_seq_num f.inbound_seq_num
        f.last_updated_ms,
  )

pub length-encode :
    (s : ReplicatedSessionState)
    → length (encode_session_state s)
      ≡ length s.session_id + length s.sender_comp_id + length s.target_comp_id + 31
unfolding encode_session_state encode_str le_bytes
length-encode s = omega (
  arith,
  length-append s.session_id
      (encode_str s.sender_comp_id ++ (encode_str s.target_comp_id ++ nums s)),
  length-append s.sender_comp_id (encode_str s.target_comp_id ++ nums s),
  length-append s.target_comp_id (nums s),
)

-- ===== src/Cluster/Codec.antt =====
-- src/cluster.rs: the encoding of a replicated session state, and its decoder.
-- The decoder runs over the bytes from `offset` on.
use fix_engine.Base.{
  Bool, Bytes, Option, [], drop, get_or, if◌then◌else◌, length, ltb, none, some, suc, take, zero, ℕ,
  ◌%◌, ◌*◌, ◌++◌, ◌+◌, ◌/◌, ◌^◌, ◌∷◌,
}

pub record ReplicatedSessionState : Type 0 where
  pub session_id : Bytes
  pub sender_comp_id : Bytes
  pub target_comp_id : Bytes
  pub outbound_seq_num : ℕ
  pub inbound_seq_num : ℕ
  pub state : ℕ
  pub last_updated_ms : ℕ

-- `to_le_bytes` of an integer of `w` bytes, and `from_le_bytes`.
unfoldable pub le_bytes : ℕ → ℕ → Bytes
le_bytes zero n = []
le_bytes (suc w) n = n % 256 ∷ le_bytes w (n / 256)

unfoldable pub from_le : Bytes → ℕ
from_le [] = 0
from_le (b ∷ bs) = b + 256 * from_le bs

unfoldable pub encode_str : Bytes → Bytes
encode_str s = le_bytes 2 (length s % 2 ^ 16) ++ s

unfoldable pub encode_session_state : ReplicatedSessionState → Bytes
unfolding encode_str
encode_session_state s =
    encode_str s.session_id
    ++ (encode_str s.sender_comp_id
        ++ (encode_str s.target_comp_id
            ++ (le_bytes 8 s.outbound_seq_num
                ++ (le_bytes 8 s.inbound_seq_num ++ (s.state ∷ le_bytes 8 s.last_updated_ms)))))

abbrev and_then {ℓ} : {A : Type 0} {B : Type ℓ} → Option A → (A → Option B) → Option B
and_then none f = none
and_then (some a) f = f a

-- `data[offset..offset + 8]`, the second half of the next step's bytes.
unfoldable pub decode_numbers : Bytes → Bytes → Bytes → Bytes → Option ReplicatedSessionState
decode_numbers session_id sender_comp_id target_comp_id r =
    if ltb (length r) 25
    then none
    else some record {
      session_id = session_id;
      sender_comp_id = sender_comp_id;
      target_comp_id = target_comp_id;
      outbound_seq_num = from_le (take 8 r);
      inbound_seq_num = from_le (take 8 (drop 8 r));
      state = get_or r 16 0;
      last_updated_ms = from_le (take 8 (drop 17 r));
    }

module _ (is_utf8 : Bytes → Bool) where
  -- The string and the bytes behind it.
  unfoldable pub read_str : Bytes → Option (Bytes × Bytes)
  read_str r =
      let len = from_le (take 2 r) in
      let body = drop 2 r in
      if ltb (length r) 2
      then none
      else if ltb (length body) len
      then none
      else if is_utf8 (take len body)
      then some (take len body, drop len body)
      else none

  unfoldable pub decode_session_state : Bytes → Option ReplicatedSessionState
  unfolding read_str decode_numbers
  decode_session_state bytes =
      and_then (read_str bytes) λ a.
        and_then (read_str a.1) λ b. and_then (read_str b.1) λ c. decode_numbers a.0 b.0 c.0 c.1

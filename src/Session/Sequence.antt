-- ===== src/Session/Sequence.antt =====
-- Inbound sequence numbers of src/session.rs over whole runs of received messages.
use fix_engine.Base.{
  ==_iff, Bool, Bool-cases, List, Result, [], ap, ap₂, arith, err, false, if◌then◌else◌, inl, inr,
  length, ltb, ok, refl, suc, true, zero, ℕ, ◌+◌, ◌<◌, ◌==◌, ◌^◌, ◌∙◌, ◌∷◌, ◌≡◌,
}
use fix_engine.Session.{Session, validate_inbound_seq}

-- A run of received messages: each its sequence number, with the clock at the call.
abbrev pub Received : Type 0
Received = List (ℕ × ℕ)

pub receive_all : Session → Received → Session
receive_all s [] = s
receive_all s ((seq, now) ∷ rest) = receive_all (validate_inbound_seq s seq now).0 rest

abbrev is_ok : Result (Unit {0}) (ℕ × ℕ) → Bool
is_ok (ok _) = true
is_ok (err _) = false

-- The numbers that are answered `Ok(())`, repetitions and all.
unfoldable pub accepted : Session → Received → List ℕ
accepted s [] = []
accepted s ((seq, now) ∷ rest) =
    let later = accepted (validate_inbound_seq s seq now).0 rest in
    if is_ok (validate_inbound_seq s seq now).1 then seq ∷ later else later

-- The numbers that are `n` at least and beyond all that stand in front of them.
pub new_from : ℕ → List ℕ → List ℕ
new_from n [] = []
new_from n (x ∷ xs) =
    let after = new_from (suc x) xs in
    let same = new_from n xs in if ltb x n then same else x ∷ after

abbrev pub count_from : ℕ → ℕ → List ℕ
count_from n zero = []
count_from n (suc k) = n ∷ count_from (suc n) k

module _ (s : Session) (seq now : ℕ) where
  in_turn :
      s.inbound_seq_num + 1 < 2 ^ 64
      → seq ≡ s.inbound_seq_num
      → ((validate_inbound_seq s seq now).0.inbound_seq_num ≡ suc s.inbound_seq_num)
        × (is_ok (validate_inbound_seq s seq now).1 ≡ true)
  unfolding validate_inbound_seq
  in_turn fits same = ground arith

  repeated :
      seq < s.inbound_seq_num
      → ((validate_inbound_seq s seq now).0.inbound_seq_num ≡ s.inbound_seq_num)
        × (is_ok (validate_inbound_seq s seq now).1 ≡ true)
  unfolding validate_inbound_seq
  repeated low = ground arith

  beyond :
      s.inbound_seq_num < seq
      → ((validate_inbound_seq s seq now).0.inbound_seq_num ≡ s.inbound_seq_num)
        × (is_ok (validate_inbound_seq s seq now).1 ≡ false)
  unfolding validate_inbound_seq
  beyond high = ground arith

-- Over every run of received messages short of the wrap at 2 ^ 64: the numbers that are answered
-- `Ok`, without those below the expected number or already answered so, are the expected number and
-- the ones that follow it, each once, in order and without a gap; the session then expects the next.
pub accepted-consecutive :
    (msgs : Received) (s : Session)
    → s.inbound_seq_num + length msgs < 2 ^ 64
    → (k : ℕ) × (new_from s.inbound_seq_num (accepted s msgs) ≡ count_from s.inbound_seq_num k)
      × ((receive_all s msgs).inbound_seq_num ≡ s.inbound_seq_num + k)
unfolding accepted receive_all new_from
accepted-consecutive [] s h = (0, refl, omega arith)
accepted-consecutive ((seq, now) ∷ rest) s h = elim (Bool-cases (ltb seq s.inbound_seq_num)) [
  | inl low ↦
      let (kept, good) = repeated s seq now (ground arith) in
      let (k, numbers, last) =
        accepted-consecutive rest (validate_inbound_seq s seq now).0 (omega arith) in
      (k, rw (good, low) (rw kept at numbers), omega arith)
  | inr not_low ↦ elim (Bool-cases (seq == s.inbound_seq_num)) [
    | inl same ↦
        let equal = (==_iff seq s.inbound_seq_num).0 same in
        let (moved, good) = in_turn s seq now (omega arith) equal in
        let (k, numbers, last) =
          accepted-consecutive rest (validate_inbound_seq s seq now).0 (omega arith) in
        (
          suc k,
          rw (good, not_low)
              (ap₂ ◌∷◌ equal (
                ap (λ z. new_from (suc z) (accepted (validate_inbound_seq s seq now).0 rest)) equal
                ∙ (rw moved at numbers))),
          omega arith,
        )
    | inr other ↦
        let (kept, bad) = beyond s seq now (ground arith) in
        let (k, numbers, last) =
          accepted-consecutive rest (validate_inbound_seq s seq now).0 (omega arith) in
        (k, rw bad (rw kept at numbers), omega arith)
  ]
]

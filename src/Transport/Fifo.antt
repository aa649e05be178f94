-- ===== src/Transport/Fifo.antt =====
-- src/transport_aeron.rs: what one endpoint of a bus sends, the other receives, in order.
use fix_engine.Base.{
  ==_refl, All, All-append, Bool-cases, Bytes, List, Result, [], ap, append-nil, append_assoc,
  arith, bytes_eq_iff, err, false, if◌then◌else◌, inl, inr, length, le→not_ltb, ltb, lt→ltb, none,
  ok, refl, some, sym, true, ℕ, ◌++◌, ◌<◌, ◌==◌, ◌∙◌, ◌∷◌, ◌≡◌, ◌≤◌,
}
use fix_engine.Transport.{
  AeronFrame, AeronTransport, ChannelKey, Frames, IoError, Statics, frames_or_none, invalid_input,
  key_eq, recv, send, take_foreign,
}

-- The payloads that others sent to the endpoint.
unfoldable pub inbox : ℕ → Frames → List Bytes
inbox id [] = []
inbox id (f ∷ fs) = let rest = inbox id fs in if f.sender_id == id then rest else f.payload ∷ rest

take_foreign-empty : (id : ℕ) (fs : Frames) → inbox id fs ≡ [] → take_foreign id fs ≡ none
unfolding inbox take_foreign
take_foreign-empty id [] h = refl
take_foreign-empty id (f ∷ fs) h = elim (Bool-cases (f.sender_id == id)) [
  | inl own ↦ rw (own, take_foreign-empty id fs (rw own at h)) refl
  | inr foreign ↦ let k : f.payload ∷ inbox id fs ≡ [] = rw foreign at h in absurd (cc)
]

-- The first frame of another sender is taken out.
take_foreign-first :
    (id : ℕ) (fs : Frames) (p : Bytes) (rest : List Bytes)
    → inbox id fs ≡ p ∷ rest
    → (f : AeronFrame) × (left : Frames) × (take_foreign id fs ≡ some (f, left))
      × (f.payload ≡ p)
      × (inbox id left ≡ rest)
unfolding inbox take_foreign
take_foreign-first id [] p rest h = absurd (cc)
take_foreign-first id (f ∷ fs) p rest h = elim (Bool-cases (f.sender_id == id)) [
  | inl own ↦
      let (g, left, taken, same, others) = take_foreign-first id fs p rest (rw own at h) in
      (g, f ∷ left, rw (own, taken) refl, same, rw own others)
  | inr foreign ↦
      let k : f.payload ∷ inbox id fs ≡ p ∷ rest = rw foreign at h in
      (f, fs, rw foreign refl, cc, cc)
]

inbox-append :
    (id : ℕ) (fs : Frames) (f : AeronFrame)
    → (f.sender_id == id) ≡ false
    → inbox id (fs ++ (f ∷ [])) ≡ inbox id fs ++ (f.payload ∷ [])
unfolding inbox
inbox-append id [] f h = rw h refl
inbox-append id (g ∷ fs) f h = elim (Bool-cases (g.sender_id == id)) [
  | inl own ↦ rw own (inbox-append id fs f h)
  | inr foreign ↦ rw foreign (ap (◌∷◌ g.payload) (inbox-append id fs f h))
]

key_eq_refl : (k : ChannelKey) → key_eq k k ≡ true
key_eq_refl k = rw ((bytes_eq_iff k.channel k.channel).1 refl, ==_refl k.stream_id) refl

-- A call on the bus of a channel.
pub data BusCall : Type 0 where
  sends : Bytes → BusCall
  receives : BusCall

-- The payloads that are sent.
abbrev pub sent : List BusCall → List Bytes
sent [] = []
sent (sends p ∷ calls) = p ∷ sent calls
sent (receives ∷ calls) = sent calls

-- What a call of `recv` delivers, where an answer of no bytes delivers nothing.
abbrev pub delivered : Result Bytes IoError → List Bytes → List Bytes
delivered (ok []) more = more
delivered (ok (b ∷ bs)) more = (b ∷ bs) ∷ more
delivered (err e) more = more

module _ (a b : AeronTransport) (room : ℕ) where
  -- `a` sends and `b` receives: the statics behind the calls, and what was received.
  unfoldable pub run : Statics → List BusCall → Statics × List Bytes
  unfolding send recv
  run w [] = (w, [])
  run w (sends p ∷ calls) = run (send w a p).0 calls
  run w (receives ∷ calls) =
      let (v, got) = run (recv w b room).0 calls in (v, delivered (recv w b room).1 got)

  abbrev pub Fits : Bytes → Type 0
  Fits p = (0 < length p) × (length p ≤ room)

  abbrev pub pending : Statics → ChannelKey → List Bytes
  pending w key = inbox b.endpoint_id (frames_or_none (w.registry key))

  module _ (key : ChannelKey) where
    send-pending :
        (w : Statics) (p : Bytes)
        → a.bus ≡ some key
        → (a.endpoint_id == b.endpoint_id) ≡ false
        → pending (send w a p).0 key ≡ pending w key ++ (p ∷ [])
    unfolding send
    send-pending w p bus apart =
        rw (bus, key_eq_refl key)
          (inbox-append b.endpoint_id (frames_or_none (w.registry key)) _ apart)

    recv-empty :
        (w : Statics)
        → b.bus ≡ some key
        → pending w key ≡ []
        → (pending (recv w b room).0 key ≡ []) × ((recv w b room).1 ≡ ok [])
    unfolding recv
    recv-empty w bus none_left =
        rw (bus, take_foreign-empty b.endpoint_id (frames_or_none (w.registry key)) none_left)
          (none_left, refl)

    -- The oldest pending frame is taken out, whether it fits into the buffer or not.
    pub recv-first :
        (w : Statics) (p : Bytes) (rest : List Bytes)
        → b.bus ≡ some key
        → pending w key ≡ p ∷ rest
        → (pending (recv w b room).0 key ≡ rest)
          × ((recv w b room).1 ≡ (if ltb room (length p) then err invalid_input else ok p))
    unfolding recv
    recv-first w p rest bus some_left =
        let (f, left, taken, same, others) =
          take_foreign-first b.endpoint_id (frames_or_none (w.registry key)) p rest some_left in
        elim (Bool-cases (ltb room (length f.payload))) [
          | inl big ↦ rw (bus, taken, sym same, big, key_eq_refl key) (others, refl)
          | inr small ↦ rw (bus, taken, sym same, small, key_eq_refl key) (others, refl)
        ]

    received-first : (p : Bytes) (more : List Bytes) → Fits p → delivered (ok p) more ≡ p ∷ more
    received-first [] more h = absurd (omega (arith, h.0))
    received-first (c ∷ p) more h = refl

    run-pending :
        (w : Statics) (calls : List BusCall) (queue : List Bytes)
        → a.bus ≡ some key
        → b.bus ≡ some key
        → (a.endpoint_id == b.endpoint_id) ≡ false
        → pending w key ≡ queue
        → All Fits queue
        → All Fits (sent calls)
        → (run w calls).1 ++ pending (run w calls).0 key ≡ queue ++ sent calls
    unfolding run
    run-pending w [] queue ba bb apart e fits more = e ∙ sym (append-nil queue)
    run-pending w (sends p ∷ calls) queue ba bb apart e fits (fp, more) =
        run-pending (send w a p).0 calls (queue ++ (p ∷ [])) ba bb apart
          (send-pending w p ba apart ∙ ap (λ q. q ++ (p ∷ [])) e)
          (All-append Fits queue (p ∷ []) fits (fp, tt)) more
        ∙ append_assoc queue (p ∷ []) (sent calls)
    run-pending w (receives ∷ calls) [] ba bb apart e fits more =
        let (still_none, nothing) = recv-empty w bb e in
        rw nothing (run-pending (recv w b room).0 calls [] ba bb apart still_none tt more)
    run-pending w (receives ∷ calls) (p ∷ queue) ba bb apart e (fp, fits) more =
        let (left, first) = recv-first w p queue bb e in
        let small : ltb room (length p) ≡ false = le→not_ltb room (length p) fp.1 in
        let got = (run (recv w b room).0 calls).1 in
        let took : (recv w b room).1 ≡ ok p = first ∙ (rw small refl) in
        ap (λ r. delivered r got ++ pending (run (recv w b room).0 calls).0 key) took
        ∙ ap (λ l. l ++ pending (run (recv w b room).0 calls).0 key) (received-first p got fp)
        ∙ ap (◌∷◌ p) (run-pending (recv w b room).0 calls queue ba bb apart left fits more)

-- Two endpoints of one bus, of different numbers: for any calls of `send` of the first and `recv` of
-- the second, in any order, what the second received, followed by what is still there for it, is what
-- was there for it at first, followed by what the first sent: nothing is lost, doubled or moved. The
-- frames are not empty and fit into the buffer of `recv`.
pub run-fifo :
    (a b : AeronTransport) (room : ℕ) (key : ChannelKey) (w : Statics) (calls : List BusCall)
    → a.bus ≡ some key
    → b.bus ≡ some key
    → (a.endpoint_id == b.endpoint_id) ≡ false
    → All (Fits a b room) (pending a b room w key)
    → All (Fits a b room) (sent calls)
    → (run a b room w calls).1 ++ pending a b room (run a b room w calls).0 key
      ≡ pending a b room w key ++ sent calls
run-fifo a b room key w calls ba bb apart fits more =
    run-pending a b room key w calls (pending a b room w key) ba bb apart refl fits more

-- A frame that is larger than the buffer of `recv` is answered with an error and is gone: the next
-- call gives the frame behind it.
recv-oversized :
    (a b : AeronTransport) (room : ℕ) (key : ChannelKey) (w : Statics) (p : Bytes)
    (rest : List Bytes)
    → b.bus ≡ some key
    → pending a b room w key ≡ p ∷ rest
    → room < length p
    → ((recv w b room).1 ≡ err invalid_input) × (pending a b room (recv w b room).0 key ≡ rest)
recv-oversized a b room key w p rest bus some_left big =
    let (left, first) = recv-first a b room key w p rest bus some_left in
    (first ∙ (rw (lt→ltb room (length p) big) refl), left)

-- ===== src/Acceptor/Accept.antt =====
-- What a connection that src/acceptor.rs accepts changes.
use fix_engine.Base.{
  ==_refl, All, Bool, Bool-cases, Bytes, [], ap, arith, bytes_eq, bytes_eq_iff, err, false,
  if◌then◌else◌, inl, inr, none, ok, refl, some, sym, true, ℕ, ◌%◌, ◌+◌, ◌^◌, ◌↔◌, ◌∙◌, ◌∷◌, ◌≡◌,
}
use fix_engine.Acceptor.{
  Acceptor, serves, opened, slot_free, is_some, id_of, is_comp_id_allowed, find_by_comp_id,
  accept_connection, holds, release_connection, PooledConnection, cleared, already_connected, count,
  is_active, active_count,
}
use fix_engine.Acceptor.Pool.{
  AcceptorConfig, ConnectionState, Slots, available, closed, count, draining, find, in_use,
  is_active, is_available, update_first,
}
use fix_engine.Acceptor.Unique.{find-none, is_some-id_of}

bytes_eq_refl : (a : Bytes) → bytes_eq a a ≡ true
bytes_eq_refl a = (bytes_eq_iff a a).1 refl

-- A connection is accepted, under the next free number, exactly when no authentication is asked
-- for, the counterparty is allowed, it has no live connection, and a slot is free.
accept_connection_iff :
    (a : Acceptor) (addr comp_id : Bytes) (t now : ℕ)
    → ((accept_connection a addr comp_id t now).1 ≡ ok a.next_conn_id) ↔ (
        (a.config.require_auth ≡ false)
        × (is_comp_id_allowed a comp_id ≡ true)
        × (find_by_comp_id a comp_id ≡ none)
        × (is_some (find slot_free a.connections) ≡ true))
unfolding accept_connection
accept_connection_iff a addr comp_id t now = ground arith

module _ (config : AcceptorConfig) (id : ℕ) (addr comp_id : Bytes) (t now : ℕ) where
  find-opened :
      (cs : Slots)
      → All (λ c. serves comp_id c ≡ false) cs
      → is_some (find slot_free cs) ≡ true
      → id_of
          (find (serves comp_id) (update_first slot_free (opened config id addr comp_id t now) cs))
        ≡ some id
  unfolding find update_first opened
  find-opened [] h room = ground arith
  find-opened (c ∷ cs) (h, hs) room = elim (Bool-cases (slot_free c)) [
    | inl hit ↦ rw (hit, bytes_eq_refl comp_id)
    | inr miss ↦ rw (miss, h) (find-opened cs hs (rw miss at room))
  ]

  -- Where no live connection has the new number, releasing it frees the slot that was opened.
  released_slots :
      (cs : Slots)
      → All (λ c. serves comp_id c ≡ false) cs
      → All (λ c. holds id c ≡ false) cs
      → is_some (find slot_free cs) ≡ true
      → let opens = update_first slot_free (opened config id addr comp_id t now) cs in
        (is_some (find (holds id) opens) ≡ true)
        × All (λ c. serves comp_id c ≡ false) (update_first (holds id) cleared opens)
  unfolding find update_first opened
  released_slots [] h fresh room = ground arith
  released_slots (c ∷ cs) (h, hs) (k, ks) room = elim (Bool-cases (slot_free c)) [
    | inl hit ↦ rw (hit, ==_refl id) (refl, (refl, hs))
    | inr miss ↦
        let (found, quiet) = released_slots cs hs ks (rw miss at room) in
        rw (miss, k) (found, (h, quiet))
  ]

-- A connection that was accepted under the next free number is the one that the acceptor finds for
-- its counterparty.
pub find_by_comp_id-accept_connection :
    (a : Acceptor) (addr comp_id : Bytes) (t now : ℕ)
    → (accept_connection a addr comp_id t now).1 ≡ ok a.next_conn_id
    → find_by_comp_id (accept_connection a addr comp_id t now).0 comp_id ≡ some a.next_conn_id
unfolding accept_connection find_by_comp_id
find_by_comp_id-accept_connection a addr comp_id t now h =
    let (anyone, allowed, unserved, room) = (accept_connection_iff a addr comp_id t now).0 h in
    let nobody : is_some (find (serves comp_id) a.connections) ≡ false =
      sym (is_some-id_of (find (serves comp_id) a.connections)) ∙ ap is_some unserved in
    rw (anyone, allowed, unserved, room)
      (find-opened a.config a.next_conn_id addr comp_id t now a.connections
        (find-none (serves comp_id) a.connections nobody) room)

find-absent :
    (p : PooledConnection → Bool) (cs : Slots) → All (λ c. p c ≡ false) cs → find p cs ≡ none
unfolding find
find-absent p [] h = refl
find-absent p (c ∷ cs) (h, hs) = rw h (find-absent p cs hs)

-- A connection that was accepted under a number that no live connection has can be released, and
-- its counterparty holds none then: it can connect again.
pub release_connection-accept_connection :
    (a : Acceptor) (addr comp_id : Bytes) (t now : ℕ)
    → (accept_connection a addr comp_id t now).1 ≡ ok a.next_conn_id
    → All (λ c. holds a.next_conn_id c ≡ false) a.connections
    → let b = release_connection (accept_connection a addr comp_id t now).0 a.next_conn_id in
      (b.1 ≡ ok tt) × (find_by_comp_id b.0 comp_id ≡ none)
unfolding accept_connection find_by_comp_id release_connection
release_connection-accept_connection a addr comp_id t now h fresh =
    let (anyone, allowed, unserved, room) = (accept_connection_iff a addr comp_id t now).0 h in
    let nobody : is_some (find (serves comp_id) a.connections) ≡ false =
      sym (is_some-id_of (find (serves comp_id) a.connections)) ∙ ap is_some unserved in
    let (found, quiet) =
      released_slots a.config a.next_conn_id addr comp_id t now a.connections
        (find-none (serves comp_id) a.connections nobody) fresh room in
    rw (anyone, allowed, unserved, room, found)
      (refl, ap id_of (find-absent (serves comp_id) _ quiet))

refused_live :
    (a : Acceptor) (addr comp_id : Bytes) (t now : ℕ) {id : ℕ}
    → a.config.require_auth ≡ false
    → is_comp_id_allowed a comp_id ≡ true
    → find_by_comp_id a comp_id ≡ some id
    → (accept_connection a addr comp_id t now).1 ≡ err (already_connected comp_id)
unfolding accept_connection
refused_live a addr comp_id t now anyone allowed found = rw (anyone, allowed, found) refl

-- A counterparty that holds a connection is refused a second one.
pub accept_connection-again :
    (a : Acceptor) (addr other comp_id : Bytes) (t now u later : ℕ)
    → (accept_connection a addr comp_id t now).1 ≡ ok a.next_conn_id
    → (accept_connection (accept_connection a addr comp_id t now).0 other comp_id u later).1
      ≡ err (already_connected comp_id)
accept_connection-again a addr other comp_id t now u later h =
    let (anyone, allowed, unserved, room) = (accept_connection_iff a addr comp_id t now).0 h in
    refused_live (accept_connection a addr comp_id t now).0 other comp_id u later
      (unfold accept_connection in rw (anyone, allowed, unserved, room) refl)
      (unfold accept_connection is_comp_id_allowed in rw (anyone, allowed, unserved, room) allowed)
      (find_by_comp_id-accept_connection a addr comp_id t now h)

available-active : (state : ConnectionState) → is_available state ≡ true → is_active state ≡ false
available-active available free = refl
available-active in_use free = ground arith
available-active draining free = ground arith
available-active closed free = ground arith

count-opened :
    (config : AcceptorConfig) (id : ℕ) (addr comp_id : Bytes) (t now : ℕ) (cs : Slots)
    → is_some (find slot_free cs) ≡ true
    → count
        (λ c. is_active c.state)
        (update_first slot_free (opened config id addr comp_id t now) cs)
      ≡ count (λ c. is_active c.state) cs + 1
unfolding count find update_first opened
count-opened config id addr comp_id t now [] room = ground arith
count-opened config id addr comp_id t now (c ∷ cs) room = elim (Bool-cases (slot_free c)) [
  | inl hit ↦ rw (hit, available-active c.state hit) refl
  | inr miss ↦
      rw miss
        (let ih = count-opened config id addr comp_id t now cs (rw miss at room) in ground arith)
]

find-others :
    (config : AcceptorConfig) (id : ℕ) (addr comp_id other : Bytes) (t now : ℕ) (cs : Slots)
    → bytes_eq comp_id other ≡ false
    → find (serves other) (update_first slot_free (opened config id addr comp_id t now) cs)
      ≡ find (serves other) cs
unfolding find update_first opened
find-others config id addr comp_id other t now [] apart = refl
find-others config id addr comp_id other t now (c ∷ cs) apart = elim (Bool-cases (slot_free c)) [
  | inl hit ↦ rw (hit, apart, available-active c.state hit) refl
  | inr miss ↦ rw miss (
      ap (λ o. if serves other c then some c else o)
        (find-others config id addr comp_id other t now cs apart))
]

-- A connection that is accepted under the next number is open: the acceptor finds its counterparty
-- under that number, it has one live connection more, it holds for another counterparty what it
-- held, the number moves on, and the counterparty is refused a second connection, from whatever
-- address and whenever.
pub accept_connection-opens :
    (a : Acceptor) (addr comp_id from other : Bytes) (t now u later : ℕ)
    → (accept_connection a addr comp_id t now).1 ≡ ok a.next_conn_id
    → bytes_eq comp_id other ≡ false
    → let b = (accept_connection a addr comp_id t now).0 in
      (find_by_comp_id b comp_id ≡ some a.next_conn_id)
      × (active_count b ≡ active_count a + 1)
      × (find_by_comp_id b other ≡ find_by_comp_id a other)
      × (b.next_conn_id ≡ (a.next_conn_id + 1) % 2 ^ 64)
      × ((accept_connection b from comp_id u later).1 ≡ err (already_connected comp_id))
accept_connection-opens a addr comp_id from other t now u later h apart =
    let (anyone, allowed, unserved, room) = (accept_connection_iff a addr comp_id t now).0 h in
    (
      find_by_comp_id-accept_connection a addr comp_id t now h,
      (unfold accept_connection active_count in
          rw (anyone, allowed, unserved, room)
            (count-opened a.config a.next_conn_id addr comp_id t now a.connections room)),
      (unfold accept_connection find_by_comp_id in
          rw (anyone, allowed, unserved, room)
            (ap id_of
              (find-others a.config a.next_conn_id addr comp_id other t now a.connections apart))),
      (unfold accept_connection in rw (anyone, allowed, unserved, room) refl),
      accept_connection-again a addr from comp_id t now u later h,
    )

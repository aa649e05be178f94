-- ===== src/Acceptor/Unique.antt =====
-- No counterparty of src/acceptor.rs holds two connections.
use fix_engine.Base.{
  All, Bool, Bool-cases, Bytes, Option, [], arith, bytes_eq, bytes_eq_iff, false, inl, inr, none,
  refl, some, suc, sym, true, zero, ℕ, ◌+◌, ◌==◌, ◌∙◌, ◌∷◌, ◌≡◌,
}
use fix_engine.Session.{Session}
use fix_engine.Acceptor.{
  get_session_mut, get_connection_mut, changed_session, is_comp_id_allowed, in_use_at, Acceptor,
  new, serves, opened, slot_free, is_some, id_of, find_by_comp_id, accept_connection,
  release_connection, cleared, holds, drains, drain_connection, evict_slots, idle, evict_idle,
}
use fix_engine.Acceptor.Pool.{
  AcceptorConfig, PooledConnection, Slots, empty_slots, is_active, find, update_first,
}

-- The slot serves a live connection of another counterparty, or none.
abbrev pub Apart : Bytes → PooledConnection → Type 0
Apart comp_id c = serves comp_id c ≡ false

-- Behind each live connection there is no live one of the same counterparty.
abbrev pub Unique : Slots → Type 0
Unique [] = Unit {0}
Unique (c ∷ cs) = (is_active c.state ≡ true → All (Apart c.remote_comp_id) cs) × Unique cs

pub find-none :
    (p : PooledConnection → Bool) (cs : Slots)
    → is_some (find p cs) ≡ false
    → All (λ c. p c ≡ false) cs
unfolding find
find-none p [] h = tt
find-none p (c ∷ cs) h = elim (Bool-cases (p c)) [
  | inl hit ↦ let k = rw hit at h in ground arith
  | inr miss ↦ (miss, find-none p cs (rw miss at h))
]

-- A change that makes no slot live and renames no live one.
abbrev Tame : (PooledConnection → PooledConnection) → Type 0
Tame f =
    (c : PooledConnection)
    → is_active (f c).state ≡ true
    → (is_active c.state ≡ true) × ((f c).remote_comp_id ≡ c.remote_comp_id)

Tame-Apart :
    (f : PooledConnection → PooledConnection) (x : Bytes) (c : PooledConnection)
    → Tame f
    → Apart x c
    → Apart x (f c)
Tame-Apart f x c tame h = elim (Bool-cases (is_active (f c).state)) [
  | inl live ↦ let (was, same) = tame c live in rw (live, same) (rw was at h)
  | inr dead ↦ rw dead
]

module _ (f : PooledConnection → PooledConnection) (tame : Tame f)
    (p : PooledConnection → Bool) where
  update_first-Apart :
      (x : Bytes) (cs : Slots) → All (Apart x) cs → All (Apart x) (update_first p f cs)
  unfolding update_first
  update_first-Apart x [] h = tt
  update_first-Apart x (c ∷ cs) (h, hs) = elim (Bool-cases (p c)) [
    | inl hit ↦ rw hit (Tame-Apart f x c tame h, hs)
    | inr miss ↦ rw miss (h, update_first-Apart x cs hs)
  ]

  update_first-Unique : (cs : Slots) → Unique cs → Unique (update_first p f cs)
  unfolding update_first
  update_first-Unique [] u = tt
  update_first-Unique (c ∷ cs) (h, u) = elim (Bool-cases (p c)) [
    | inl hit ↦ rw hit ((λ live. let (was, same) = tame c live in rw same (h was)), u)
    | inr miss ↦
        rw miss
          ((λ live. update_first-Apart c.remote_comp_id cs (h live)), update_first-Unique cs u)
  ]

evict_slots-Apart :
    (p : PooledConnection → Bool) (x : Bytes) (cs : Slots)
    → All (Apart x) cs
    → All (Apart x) (evict_slots p cs)
unfolding evict_slots
evict_slots-Apart p x [] h = tt
evict_slots-Apart p x (c ∷ cs) (h, hs) = elim (Bool-cases (p c)) [
  | inl hit ↦ rw hit (refl, evict_slots-Apart p x cs hs)
  | inr miss ↦ rw miss (h, evict_slots-Apart p x cs hs)
]

evict_slots-Unique :
    (p : PooledConnection → Bool) (cs : Slots) → Unique cs → Unique (evict_slots p cs)
unfolding evict_slots
evict_slots-Unique p [] u = tt
evict_slots-Unique p (c ∷ cs) (h, u) = elim (Bool-cases (p c)) [
  | inl hit ↦ rw hit ((λ live. ground arith), evict_slots-Unique p cs u)
  | inr miss ↦
      rw miss
        ((λ live. evict_slots-Apart p c.remote_comp_id cs (h live)), evict_slots-Unique p cs u)
]

-- A live connection of another counterparty has another name.
Apart-live :
    (x : Bytes) (c : PooledConnection)
    → is_active c.state ≡ true
    → Apart x c
    → bytes_eq c.remote_comp_id x ≡ false
Apart-live x c live h = rw live at h

bytes_eq_sym : (a b : Bytes) → bytes_eq a b ≡ false → bytes_eq b a ≡ false
bytes_eq_sym a b h = elim (Bool-cases (bytes_eq b a)) [
  | inl same ↦
      let back : bytes_eq a b ≡ true = (bytes_eq_iff a b).1 (sym ((bytes_eq_iff b a).0 same)) in
      ground arith
  | inr differs ↦ differs
]

module _ (config : AcceptorConfig) (id : ℕ) (addr comp_id : Bytes) (t now : ℕ) where
  open_slot : PooledConnection → PooledConnection
  open_slot = opened config id addr comp_id t now

  opened-Apart :
      (x : Bytes) (cs : Slots)
      → bytes_eq comp_id x ≡ false
      → All (Apart x) cs
      → All (Apart x) (update_first slot_free open_slot cs)
  unfolding update_first opened open_slot
  opened-Apart x [] ne h = tt
  opened-Apart x (c ∷ cs) ne (h, hs) = elim (Bool-cases (slot_free c)) [
    | inl hit ↦ rw hit (ne, hs)
    | inr miss ↦ rw miss (h, opened-Apart x cs ne hs)
  ]

  opened-Unique :
      (cs : Slots)
      → All (Apart comp_id) cs
      → Unique cs
      → Unique (update_first slot_free open_slot cs)
  unfolding update_first opened open_slot
  opened-Unique [] h u = tt
  opened-Unique (c ∷ cs) (h, hs) (v, u) = elim (Bool-cases (slot_free c)) [
    | inl hit ↦ rw hit ((λ live. hs), u)
    | inr miss ↦ rw miss (
      (λ live.
          opened-Apart c.remote_comp_id cs
            (bytes_eq_sym c.remote_comp_id comp_id (Apart-live comp_id c live h)) (v live)),
      opened-Unique cs hs u,
    )
  ]

empty_slots-Unique : (from n : ℕ) → Unique (empty_slots from n)
unfolding empty_slots
empty_slots-Unique from zero = tt
empty_slots-Unique from (suc n) = ((λ live. ground arith), empty_slots-Unique (from + 1) n)

pub data Step : Acceptor → Acceptor → Type 0 where
  accepted :
      (a : Acceptor) (addr comp_id : Bytes) (t now : ℕ)
      → Step a (accept_connection a addr comp_id t now).0
  released : (a : Acceptor) (id : ℕ) → Step a (release_connection a id).0
  changed :
      (a : Acceptor) (id : ℕ) (change : Session → Session) → Step a (get_session_mut a id change).0
  drained : (a : Acceptor) (id : ℕ) → Step a (drain_connection a id).0
  evicted : (a : Acceptor) (max_idle_ms t : ℕ) → Step a (evict_idle a max_idle_ms t).0

pub data Reach (a : Acceptor) : Acceptor → Type 0 where
  here : Reach a a
  next : {b c : Acceptor} → Reach a b → Step b c → Reach a c

pub is_some-id_of : (o : Option PooledConnection) → is_some (id_of o) ≡ is_some o
is_some-id_of none = refl
is_some-id_of (some c) = refl

accept-Unique :
    (a : Acceptor) (addr comp_id : Bytes) (t now : ℕ)
    → Unique a.connections
    → Unique (accept_connection a addr comp_id t now).0.connections
unfolding accept_connection find_by_comp_id open_slot
accept-Unique a addr comp_id t now u = elim (Bool-cases a.config.require_auth) [
  | inl auth ↦ rw auth u
  | inr anyone ↦ rw anyone (elim (Bool-cases (is_comp_id_allowed a comp_id)) [
    | inl allowed ↦ rw allowed (elim (Bool-cases (is_some (find_by_comp_id a comp_id))) [
      | inl served ↦ rw served u
      | inr unserved ↦ rw unserved (elim (Bool-cases (is_some (find slot_free a.connections))) [
        | inl room ↦ rw room (
            opened-Unique a.config a.next_conn_id addr comp_id t now a.connections (nobody unserved)
              u)
        | inr full ↦ rw full u
      ])
    ])
    | inr refused ↦ rw refused u
  ])
]
  where
    nobody : is_some (find_by_comp_id a comp_id) ≡ false → All (Apart comp_id) a.connections
    nobody h =
        find-none (serves comp_id) a.connections
          (sym (is_some-id_of (find (serves comp_id) a.connections)) ∙ h)

cleared-Tame : Tame cleared
cleared-Tame c live = ground arith

changed-Tame : (change : Session → Session) → Tame (changed_session change)
changed-Tame change c live = (live, refl)

drains-Tame : Tame drains
unfolding drains
drains-Tame c live = ground arith

Step-Unique : {a b : Acceptor} → Step a b → Unique a.connections → Unique b.connections
unfolding release_connection drain_connection evict_idle get_session_mut get_connection_mut
Step-Unique (accepted a addr comp_id t now) u = accept-Unique a addr comp_id t now u
Step-Unique (released a id) u = elim (Bool-cases (is_some (find (holds id) a.connections))) [
  | inl hit ↦ rw hit (update_first-Unique cleared cleared-Tame (holds id) a.connections u)
  | inr miss ↦ rw miss u
]
Step-Unique (changed a id change) u =
    update_first-Unique (changed_session change) (changed-Tame change) (λ c. c.id == id)
      a.connections u
Step-Unique (drained a id) u =
    let has_id : PooledConnection → Bool = λ c. c.id == id in
    elim (Bool-cases (in_use_at (find has_id a.connections))) [
      | inl hit ↦ rw hit (update_first-Unique drains drains-Tame has_id a.connections u)
      | inr miss ↦ rw miss u
    ]
Step-Unique (evicted a max_idle_ms t) u = evict_slots-Unique (idle max_idle_ms t) a.connections u

-- In every state that calls can lead a new acceptor to, accepting, releasing, draining, evicting
-- and changing sessions in any order, no two live connections are of the same counterparty.
pub Reach-Unique :
    (config : AcceptorConfig) {a : Acceptor} → Reach (new config) a → Unique a.connections
unfolding new
Reach-Unique config here = empty_slots-Unique 0 config.connection_pool_size
Reach-Unique config (next r st) = Step-Unique st (Reach-Unique config r)

-- ===== src/Pool/Threads.antt =====
-- src/pool.rs: the atomic steps of `allocate`, with other threads between them.
use fix_engine.Base.{
  ==_refl, >>=-eq-returns, Bool, List, Outcome, ap, false, get_or, if◌then◌else◌, length,
  length-set, lt→ltb, ne→not_eq, refl, returns, returns-injective, set, some, sym, true, ℕ, ◌<◌,
  ◌==◌, ◌>>=◌, ◌∙◌, ◌∷◌, ◌≡◌, ◌≢◌,
}
use fix_engine.Pool.{BufferPool, allocate, deallocate, index, end_of_list}
use fix_engine.Pool.FreeList.{Free, allocate-step}

-- What a thread has read: the head and the link of its slot.
pub record Loaded : Type 0 where
  pub head : ℕ
  pub next : ℕ

-- The two loads of `allocate`, when the head is a slot.
unfoldable pub load : BufferPool → Outcome Loaded
unfolding index
load p =
    index p.free_list p.free_head >>= λ next. returns (record { head = p.free_head; next = next })

-- The exchange of `allocate`, and whether it succeeds.
unfoldable pub exchange : BufferPool → Loaded → BufferPool × Bool
exchange p t = if p.free_head == t.head then (record p { free_head = t.next }, true) else (p, false)

-- Without another thread between them, the loads and the exchange are `allocate`.
pub load-exchange :
    (p : BufferPool) (t : Loaded)
    → p.free_head ≢ end_of_list
    → load p ≡ returns t
    → allocate p ≡ returns ((exchange p t).0, some t.head)
unfolding load exchange allocate
load-exchange p t real e =
    let (n, found, k) = >>=-eq-returns (index p.free_list p.free_head) _ e in
    let same : t ≡ record { head = p.free_head; next = n } = sym (returns-injective k) in
    rw (same, ne→not_eq p.free_head end_of_list real, found, ==_refl p.free_head) refl

loads :
    (p : BufferPool) (a b : ℕ)
    → p.free_head ≡ a
    → a < length p.free_list
    → get_or p.free_list a 0 ≡ b
    → load p ≡ returns (record { head = a; next = b })
unfolding load
loads p a b e low link = rw (e, lt→ltb a (length p.free_list) low, link) refl

frees :
    (p : BufferPool) (a : ℕ)
    → a < length p.free_list
    → deallocate p a
      ≡ returns (record p { free_list = set p.free_list a p.free_head; free_head = a })
unfolding deallocate
frees p a low = rw (lt→ltb a (length p.free_list) low) refl

exchanges :
    (p : BufferPool) (t : Loaded)
    → p.free_head ≡ t.head
    → exchange p t ≡ (record p { free_head = t.next }, true)
unfolding exchange
exchanges p t e = rw (e, ==_refl t.head) refl

-- One slot for two owners: from a pool with at least two free slots `a` and `b`, a thread loads the
-- head `a` and its link `b`; another thread allocates `a` and `b` and frees `a`; then the exchange of
-- the first thread succeeds and gives it `a`, while the head is `b` again, which the second thread
-- still owns, and the next `allocate` gives `b` to a second owner.
pub exchange-allocate_twice :
    (p : BufferPool) (a b : ℕ) (xs : List ℕ)
    → Free p (a ∷ (b ∷ xs))
    → (t : Loaded) × (q r s u v : BufferPool) × (load p ≡ returns t)
      × (allocate p ≡ returns (q, some a))
      × (allocate q ≡ returns (r, some b))
      × (deallocate r a ≡ returns s)
      × (exchange s t ≡ (u, true))
      × (t.head ≡ a)
      × (allocate u ≡ returns (v, some b))
exchange-allocate_twice p a b xs (size, (ea, low_a, (a_b, _), (eb, low_b, _, _))) =
    let c = get_or p.free_list b 0 in
    let q = record p { free_head = b } in
    let r = record q { free_head = c } in
    let s = record r { free_list = set p.free_list a c; free_head = a } in
    let u = record s { free_head = b } in
    let same = length-set p.free_list a c in
    (
      record { head = a; next = b },
      q,
      r,
      s,
      u,
      record u { free_head = get_or (set p.free_list a c) b 0 },
      loads p a b ea low_a eb,
      allocate-step p a ea low_a size ∙ ap (λ h. returns (record p { free_head = h }, some a)) eb,
      allocate-step q b refl low_b size,
      frees r a low_a,
      exchanges s (record { head = a; next = b }) refl,
      refl,
      allocate-step u b refl (rw same low_b) (rw same size),
    )

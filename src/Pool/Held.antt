-- ===== src/Pool/Held.antt =====
-- src/pool.rs: the slots that callers hold, over any calls of `allocate` and `deallocate`.
use fix_engine.Base.{
  All, List, Option, [], ap, arith, inl, inr, length, none, refl, returns, returns-injective, some,
  some-injective, suc, sym, zero, ℕ, ◌+◌, ◌<◌, ◌^◌, ◌∙◌, ◌∷◌, ◌≡◌, ◌≢◌, ◌≤◌, ◌⊎◌,
}
use fix_engine.Pool.{BufferPool, allocate, deallocate, new}
use fix_engine.Pool.FreeList.{
  length-links, Free, slots, allocate-exhausted, allocate-Free, new-Free, deallocate-Free,
}

-- Taking one `h` out of a list.
pub data Removes (h : ℕ) : List ℕ → List ℕ → Type 0 where
  here : {hs : List ℕ} → Removes h (h ∷ hs) hs
  behind : {g : ℕ} {hs rest : List ℕ} → Removes h hs rest → Removes h (g ∷ hs) (g ∷ rest)

-- A new pool of `capacity` slots after calls of `allocate` and `deallocate`, and the handles that
-- were given out and not freed.
pub data Held (slot_size capacity : ℕ) : BufferPool → List ℕ → Type 0 where
  untouched : Held slot_size capacity (new slot_size capacity) []
  took :
      {p q : BufferPool} {hs : List ℕ} {h : ℕ}
      → allocate p ≡ returns (q, some h)
      → Held slot_size capacity p hs
      → Held slot_size capacity q (h ∷ hs)
  freed :
      {p q : BufferPool} {hs rest : List ℕ} {h : ℕ}
      → Removes h hs rest
      → deallocate p h ≡ returns q
      → Held slot_size capacity p hs
      → Held slot_size capacity q rest

abbrev pub Distinct : List ℕ → Type 0
Distinct [] = Unit
Distinct (x ∷ xs) = All (λ y. x ≢ y) xs × Distinct xs

-- The free slots and the held ones share the pool out.
pub record Shared (capacity : ℕ) (p : BufferPool) (hs xs : List ℕ) : Type 0 where
  pub free : Free p xs
  pub size : length p.free_list ≡ capacity
  pub held : Distinct hs
  pub apart : All (λ h. (h < capacity) × All (λ y. h ≢ y) xs) hs
  pub sum : length xs + length hs ≡ capacity

apart-first :
    (capacity x : ℕ) (xs hs : List ℕ)
    → All (λ h. (h < capacity) × All (λ y. h ≢ y) (x ∷ xs)) hs
    → All (λ y. x ≢ y) hs × All (λ h. (h < capacity) × All (λ y. h ≢ y) xs) hs
apart-first capacity x xs [] a = (tt, tt)
apart-first capacity x xs (h ∷ hs) ((low, (ne, rest)), a) =
    let (b, c) = apart-first capacity x xs hs a in (((λ e. ne (sym e)), b), ((low, rest), c))

apart-more :
    (capacity x : ℕ) (xs hs : List ℕ)
    → All (λ y. x ≢ y) hs
    → All (λ h. (h < capacity) × All (λ y. h ≢ y) xs) hs
    → All (λ h. (h < capacity) × All (λ y. h ≢ y) (x ∷ xs)) hs
apart-more capacity x xs [] b c = tt
apart-more capacity x xs (h ∷ hs) (ne, b) ((low, rest), c) =
    ((low, ((λ e. ne (sym e)), rest)), apart-more capacity x xs hs b c)

-- What taking one out leaves, for a property of all.
removed :
    {h : ℕ} {hs rest : List ℕ}
    → Removes h hs rest
    → (P : ℕ → Type 0) → Distinct hs
    → All P hs
    → P h × All P rest × Distinct rest × All (λ y. h ≢ y) rest × (length hs ≡ suc (length rest))
removed here P (once, d) (p, ps) = (p, ps, d, once, refl)
removed (behind {g} {hs} {rest} r) P (once, d) (p, ps) =
    let (ph, prest, drest, fresh, e) = removed r P d ps in
    let (ne, others, _, _, _) = removed r (λ y. g ≢ y) d once in
    (ph, (p, prest), (others, drest), ((λ k. ne (sym k)), fresh), ap suc e)

empty : {h : ℕ} → none ≢ some h
empty e = ground arith

took-Shared :
    (capacity : ℕ) (p q : BufferPool) (hs : List ℕ) (h : ℕ) (xs : List ℕ)
    → allocate p ≡ returns (q, some h)
    → Shared capacity p hs xs
    → (ys : List ℕ) × Shared capacity q (h ∷ hs) ys
took-Shared capacity p q hs h [] e s =
    let both : ◌≡◌ {A = BufferPool × Option ℕ} (p, none) (q, some h) =
      returns-injective (sym (allocate-exhausted p s.free) ∙ e) in
    absurd (empty (ap (λ r. r.1) both))
took-Shared capacity p q hs h (x ∷ xs) e s =
    let (q', e', free, links) = allocate-Free p x xs s.free in
    let both : ◌≡◌ {A = BufferPool × Option ℕ} (q', some x) (q, some h) =
      returns-injective (sym e' ∙ e) in
    let qe : q' ≡ q = ap (λ r. r.0) both in
    let he : x ≡ h = some-injective (ap (λ r. r.1) both) in
    let (_, (_, low, once, _)) = s.free in
    let (fresh, apart) = apart-first capacity x xs hs s.apart in
    let shared : Shared capacity q' (x ∷ hs) xs = record {
      free = free;
      size = ap length links ∙ s.size;
      held = (fresh, s.held);
      apart = ((omega (arith, low, s.size), once), apart);
      sum = omega (arith, s.sum);
    } in
    rw (sym qe, sym he) (xs, shared)

freed-Shared :
    (capacity : ℕ) (p q : BufferPool) (hs rest : List ℕ) (h : ℕ) (xs : List ℕ)
    → Removes h hs rest
    → deallocate p h ≡ returns q
    → Shared capacity p hs xs
    → (ys : List ℕ) × Shared capacity q rest ys
freed-Shared capacity p q hs rest h xs r e s =
    let ((low, own), others, held, fresh, count) =
      removed r (λ g. (g < capacity) × All (λ y. g ≢ y) xs) s.held s.apart in
    let (q', e', free, links) = deallocate-Free p h xs (omega (arith, low, s.size)) own s.free in
    let qe : q' ≡ q = returns-injective (sym e' ∙ e) in
    let shared : Shared capacity q' rest (h ∷ xs) = record {
      free = free;
      size = links ∙ s.size;
      held = held;
      apart = apart-more capacity h xs rest fresh others;
      sum = omega (arith, s.sum, count);
    } in
    rw (sym qe) (h ∷ xs, shared)

length-slots : (n i : ℕ) → length (slots n i) ≡ n
length-slots zero i = refl
length-slots (suc n) i = ap suc (length-slots n (i + 1))

-- In a pool with 1 to 2 ^ 32 - 1 slots, after any calls of `allocate` and `deallocate` of handles
-- that are held, the handles that are held are distinct and below the capacity, none of them is in
-- the free list, and the two together have as many slots as the pool.
pub Held-Shared :
    (slot_size capacity : ℕ) {p : BufferPool} {hs : List ℕ}
    → 1 ≤ capacity
    → capacity < 2 ^ 32
    → Held slot_size capacity p hs
    → (xs : List ℕ) × Shared capacity p hs xs
unfolding new
Held-Shared slot_size capacity low high untouched =
    let start : Shared capacity (new slot_size capacity) [] (slots capacity 0) = record {
      free = new-Free slot_size capacity low high;
      size = length-links capacity 0 capacity;
      held = tt;
      apart = tt;
      sum = omega (arith, length-slots capacity 0);
    } in
    (slots capacity 0, start)
Held-Shared slot_size capacity low high (took e h) =
    let (xs, s) = Held-Shared slot_size capacity low high h in took-Shared capacity _ _ _ _ xs e s
Held-Shared slot_size capacity low high (freed r e h) =
    let (xs, s) = Held-Shared slot_size capacity low high h in
    freed-Shared capacity _ _ _ _ _ xs r e s

-- After any calls of `allocate` and `deallocate` of handles that are held, on a pool with 1 to
-- 2 ^ 32 - 1 slots: with fewer handles held than slots, `allocate` gives a handle below the capacity
-- that nobody holds; with all of them held it gives none, and the pool stays as it is.
pub Held-allocate :
    (slot_size capacity : ℕ) {p : BufferPool} {hs : List ℕ}
    → 1 ≤ capacity
    → capacity < 2 ^ 32
    → Held slot_size capacity p hs
    → ((length hs < capacity)
        × ((q : BufferPool) × (h : ℕ) × (allocate p ≡ returns (q, some h))
            × (h < capacity)
            × All (λ y. h ≢ y) hs))
      ⊎ ((length hs ≡ capacity) × (allocate p ≡ returns (p, none)))
Held-allocate slot_size capacity {p} {hs} low high h =
    let (xs, s) = Held-Shared slot_size capacity low high h in go xs s
  where
    go :
        (xs : List ℕ)
        → Shared capacity p hs xs
        → ((length hs < capacity)
            × ((q : BufferPool) × (h : ℕ) × (allocate p ≡ returns (q, some h))
                × (h < capacity)
                × All (λ y. h ≢ y) hs))
          ⊎ ((length hs ≡ capacity) × (allocate p ≡ returns (p, none)))
    go [] s = inr (omega (arith, s.sum), allocate-exhausted p s.free)
    go (x ∷ xs) s =
        let (q, e, _, _) = allocate-Free p x xs s.free in
        let (_, (_, small, _, _)) = s.free in
        let (unheld, _) = apart-first capacity x xs hs s.apart in
        inl (omega (arith, s.sum), (q, x, e, omega (arith, small, s.size), unheld))

-- ===== src/Pool/FreeList.antt =====
-- src/pool.rs: the free list as a stack of free slots, without interference.
use fix_engine.Base.{
  All, List, [], ap, append_assoc, arith, get_or, get_or-append, get_or-set_ne, get_or-set_self,
  if◌then◌else◌, length, length-append, length-set, le→not_ltb, ltb, lt→ltb, ne→not_eq, none, refl,
  returns, set, some, suc, sym, zero, ℕ, ◌++◌, ◌+◌, ◌<◌, ◌^◌, ◌∙◌, ◌∷◌, ◌≡◌, ◌≢◌, ◌≤◌,
}
use mathlib.Core.Path.{subst}
use fix_engine.Pool.{BufferPool, allocate, deallocate, end_of_list, index, links, new}

-- From `head`, the links `next` pass through the slots of the list, each once, and end.
abbrev pub Chain : List ℕ → ℕ → List ℕ → Type 0
Chain next head [] = head ≡ end_of_list
Chain next head (x ∷ xs) =
    (head ≡ x) × (x < length next) × All (λ y. x ≢ y) xs × Chain next (get_or next x 0) xs

-- The free slots of the pool, the last freed first.
abbrev pub Free : BufferPool → List ℕ → Type 0
Free p xs = (length p.free_list < 2 ^ 32) × Chain p.free_list p.free_head xs

Chain-set :
    (next : List ℕ) (head x v : ℕ) (xs : List ℕ)
    → All (λ y. x ≢ y) xs
    → Chain next head xs
    → Chain (set next x v) head xs
Chain-set next head x v [] fresh c = c
Chain-set next head x v (y ∷ ys) (ne, fresh) (e, low, once, c) = (
  e,
  rw (length-set next x v) low,
  once,
  rw (get_or-set_ne next x y v 0 ne) (Chain-set next (get_or next y 0) x v ys fresh c),
)

pub allocate-step :
    (p : BufferPool) (x : ℕ)
    → p.free_head ≡ x
    → x < length p.free_list
    → length p.free_list < 2 ^ 32
    → allocate p ≡ returns (record p { free_head = get_or p.free_list x 0 }, some x)
unfolding allocate index
allocate-step p x e low size =
    rw (e, ne→not_eq x end_of_list (omega arith), lt→ltb x (length p.free_list) low) refl

-- In a pool with these free slots, `allocate` takes the first of them and leaves the rest free.
pub allocate-Free :
    (p : BufferPool) (x : ℕ) (xs : List ℕ)
    → Free p (x ∷ xs)
    → (q : BufferPool) × (allocate p ≡ returns (q, some x))
      × Free q xs
      × (q.free_list ≡ p.free_list)
allocate-Free p x xs (size, c) =
    let (e, low, once, rest) = c in
    let after : Free (record p { free_head = get_or p.free_list x 0 }) xs = (size, rest) in
    (record p { free_head = get_or p.free_list x 0 }, allocate-step p x e low size, after, refl)

pub allocate-exhausted : (p : BufferPool) → Free p [] → allocate p ≡ returns (p, none)
unfolding allocate
allocate-exhausted p (size, e) = rw (e) refl

pub deallocate-Free :
    (p : BufferPool) (x : ℕ) (xs : List ℕ)
    → x < length p.free_list
    → All (λ y. x ≢ y) xs
    → Free p xs
    → (q : BufferPool) × (deallocate p x ≡ returns q)
      × Free q (x ∷ xs)
      × (length q.free_list ≡ length p.free_list)
unfolding deallocate
deallocate-Free p x xs low fresh (size, c) =
    let q = record p { free_list = set p.free_list x p.free_head; free_head = x } in
    let same = length-set p.free_list x p.free_head in
    let after : Free q (x ∷ xs) = (
      rw same size,
      (
        refl,
        rw same low,
        fresh,
        rw (get_or-set_self p.free_list x p.free_head 0 low)
            (Chain-set p.free_list p.free_head x p.free_head xs fresh c),
      ),
    ) in
    (q, rw (lt→ltb x (length p.free_list) low) refl, after, same)

-- The slots from `i` on.
abbrev pub slots : ℕ → ℕ → List ℕ
slots zero i = []
slots (suc n) i = i ∷ slots n (i + 1)

slots-later : (n i x : ℕ) → x < i → All (λ y. x ≢ y) (slots n i)
slots-later zero i x h = tt
slots-later (suc n) i x h = (omega arith, slots-later n (i + 1) x (omega arith))

pub length-links : (n i capacity : ℕ) → length (links n i capacity) ≡ n
unfolding links
length-links zero i capacity = refl
length-links (suc n) i capacity = ap suc (length-links n (i + 1) capacity)

-- The links of the last slots, behind those of the slots before them.
links-Chain :
    (n i capacity : ℕ) (pre : List ℕ)
    → length pre ≡ i
    → i + suc n ≡ capacity
    → Chain (pre ++ links (suc n) i capacity) i (slots (suc n) i)
unfolding links
links-Chain zero i capacity pre e sum =
    let link = if ltb (i + 1) capacity then i + 1 else end_of_list in
    let found : get_or (pre ++ (link ∷ [])) i 0 ≡ link =
      get_or-append pre (link ∷ []) i 0 0 (omega (arith, e)) in
    let last : link ≡ end_of_list = rw (le→not_ltb (i + 1) capacity (omega (arith, sum))) refl in
    (refl, omega (arith, e, length-append pre (link ∷ [])), tt, found ∙ last)
links-Chain (suc n) i capacity pre e sum =
    let link = if ltb (i + 1) capacity then i + 1 else end_of_list in
    let rest = links (suc n) (i + 1) capacity in
    let found : get_or (pre ++ (link ∷ rest)) i 0 ≡ link =
      get_or-append pre (link ∷ rest) i 0 0 (omega (arith, e)) in
    let next : link ≡ i + 1 = rw (lt→ltb (i + 1) capacity (omega (arith, sum))) refl in
    let later =
      links-Chain n (i + 1) capacity (pre ++ (link ∷ []))
        (omega (arith, e, length-append pre (link ∷ []))) (omega (arith, sum)) in
    let moved : Chain (pre ++ (link ∷ rest)) (i + 1) (slots (suc n) (i + 1)) =
      subst (λ l. Chain l (i + 1) (slots (suc n) (i + 1))) (append_assoc pre (link ∷ []) rest)
        later in
    (
      refl,
      omega (arith, e, length-append pre (link ∷ rest)),
      slots-later (suc n) (i + 1) i (omega arith),
      subst (λ h. Chain (pre ++ (link ∷ rest)) h (slots (suc n) (i + 1))) (sym (found ∙ next))
          moved,
    )

pub new-Free :
    (slot_size capacity : ℕ)
    → 1 ≤ capacity
    → capacity < 2 ^ 32
    → Free (new slot_size capacity) (slots capacity 0)
unfolding new
new-Free slot_size zero some_slot fits = absurd (omega arith)
new-Free slot_size (suc n) some_slot fits =
    (rw (length-links (suc n) 0 (suc n)) fits, links-Chain n 0 (suc n) [] refl (omega arith))

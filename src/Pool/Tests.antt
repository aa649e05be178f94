-- ===== src/Pool/Tests.antt =====
-- Runs of src/pool.rs on small pools.
use fix_engine.Base.{
  All, [], arith, length, none, refl, returns, slice, some, true, ℕ, ◌<◌, ◌∷◌, ◌≡◌, ◌≢◌, ◌⊎◌,
}
use fix_engine.Pool.{BufferPool, allocate, index, deallocate, write, new, links}
use fix_engine.Pool.FreeList.{Free, new-Free}
use fix_engine.Pool.Held.{untouched, took, Held-allocate}
use fix_engine.Pool.Threads.{Loaded, load, exchange, exchange-allocate_twice}

abbrev three : BufferPool
three = new 2 3

three-Free : Free three (0 ∷ (1 ∷ (2 ∷ [])))
three-Free = new-Free 2 3 (omega arith) (omega arith)

abbrev one_out : BufferPool
one_out = record three { free_head = 1 }

first_out : allocate three ≡ returns (one_out, some 0)
unfolding allocate index new links
first_out = refl

Held-allocate_example :
    ((length {A = ℕ} (0 ∷ []) < 3)
      × ((q : BufferPool) × (h : ℕ) × (allocate one_out ≡ returns (q, some h))
          × (h < 3)
          × All (λ y. h ≢ y) (0 ∷ [])))
    ⊎ ((length {A = ℕ} (0 ∷ []) ≡ 3) × (allocate one_out ≡ returns (one_out, none)))
Held-allocate_example = Held-allocate 2 3 (omega arith) (omega arith) (took first_out untouched)

exchange-allocate_twice_example :
    (t : Loaded) × (q r s u v : BufferPool) × (load three ≡ returns t)
    × (allocate three ≡ returns (q, some 0))
    × (allocate q ≡ returns (r, some 1))
    × (deallocate r 0 ≡ returns s)
    × (exchange s t ≡ (u, true))
    × (t.head ≡ 0)
    × (allocate u ≡ returns (v, some 1))
exchange-allocate_twice_example = exchange-allocate_twice three 0 1 (2 ∷ []) three-Free

abbrev filled : BufferPool
filled = record three { storage = 0 ∷ (0 ∷ (7 ∷ (8 ∷ (0 ∷ (0 ∷ []))))) }

wrote : write three 1 (7 ∷ (8 ∷ [])) ≡ returns filled
unfolding write slice new
wrote = refl

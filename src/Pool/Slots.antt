-- ===== src/Pool/Slots.antt =====
-- src/pool.rs: the slots of the storage, written and read.
use fix_engine.Base.{
  Bool-cases, Bytes, List, ap, arith, drop, inl, inr, length, length-patch, length-take, ltb, patch,
  patch-before, patch-behind, refl, returns, slice, slice-agree, slice-append, slice-within, sym,
  take, ℕ, ◌*◌, ◌+◌, ◌<◌, ◌≡◌, ◌≢◌, ◌≤◌,
}
use fix_engine.Pool.{BufferPool, get, write}

-- Slots of different handles do not overlap.
stride : (g h k : ℕ) → g < h → g * k + k ≤ h * k
stride g h k l = grind arith

written :
    (p : BufferPool) (h : ℕ) (bytes : Bytes)
    → length bytes ≡ p.slot_size
    → h * p.slot_size + p.slot_size ≤ length p.storage
    → let q = record p { storage = patch p.storage (h * p.slot_size) p.slot_size bytes } in
      (get q h ≡ returns bytes) × ((g : ℕ) → g ≢ h → get q g ≡ get p g)
unfolding get
written p h bytes e fits = (own, others)
  where
    xs : List ℕ
    xs = p.storage

    k : ℕ
    k = p.slot_size

    o : ℕ
    o = h * p.slot_size

    same : length (patch xs o k bytes) ≡ length xs
    same = length-patch xs bytes o k fits e

    own : slice (patch xs o k bytes) o k ≡ returns bytes
    own =
        slice-append (take o xs) bytes (drop (o + k) xs) o k (sym (length-take o xs (omega arith)))
          (sym e)

    others : (g : ℕ) → g ≢ h → slice (patch xs o k bytes) (g * k) k ≡ slice xs (g * k) k
    others g ne = slice-agree (patch xs o k bytes) xs (g * k) k same (elim (Bool-cases (ltb g h)) [
      | inl l ↦ patch-before xs bytes o k (g * k) (omega arith) (stride g h k (ground arith))
      | inr l ↦ ap (take k) (patch-behind xs bytes o k (g * k) fits e (stride h g k (ground arith)))
    ])

-- A write of as many bytes as a slot has, to a handle whose slot is in the storage, does not panic;
-- `get` then gives the bytes for that handle, and for any other handle what it gave before.
get-write :
    (p : BufferPool) (h g : ℕ) (bytes : Bytes)
    → length bytes ≡ p.slot_size
    → h * p.slot_size + p.slot_size ≤ length p.storage
    → g ≢ h
    → (q : BufferPool) × (write p h bytes ≡ returns q)
      × (get q h ≡ returns bytes)
      × (get q g ≡ get p g)
unfolding write
get-write p h g bytes e fits ne =
    let (own, others) = written p h bytes e fits in
    (_, rw (slice-within p.storage (h * p.slot_size) p.slot_size fits) refl, own, others g ne)

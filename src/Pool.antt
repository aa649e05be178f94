-- ===== src/Pool.antt =====
-- src/pool.rs: the buffer pool with its free list, and the tiers of pools.
-- A thread's run of `allocate` or `deallocate` with no other thread between its loads and its
-- exchange is one function; the single atomic steps are in Pool/Threads.
pub mod FreeList
pub mod Slots
pub mod Held
pub mod Threads
pub mod Tests
use fix_engine.Base.{
  Bytes, List, Option, Outcome, [], drop, get_or, if◌then◌else◌, leb, length, ltb, none, panics,
  replicate, returns, set, slice, some, suc, take, zero, ℕ, ◌*◌, ◌++◌, ◌+◌, ◌-◌, ◌==◌, ◌>>=◌, ◌^◌,
  ◌∷◌,
}
use mathlib.Core.Option

-- `u32::MAX`.
abbrev pub end_of_list : ℕ
end_of_list = 2 ^ 32 - 1

-- A `PoolHandle` is the index of its slot.
pub record BufferPool : Type 0 where
  pub storage : Bytes
  pub slot_size : ℕ
  pub capacity : ℕ
  pub free_list : List ℕ
  pub free_head : ℕ

-- The links of the slots from `i` on, `n` of them.
unfoldable pub links : ℕ → ℕ → ℕ → List ℕ
links zero i capacity = []
links (suc n) i capacity =
    (if ltb (i + 1) capacity then i + 1 else end_of_list) ∷ links n (i + 1) capacity

-- The pages are touched with the zero that they hold.
unfoldable pub new : ℕ → ℕ → BufferPool
unfolding links
new slot_size capacity = record {
  storage = replicate (slot_size * capacity) 0;
  slot_size = slot_size;
  capacity = capacity;
  free_list = links capacity 0 capacity;
  free_head = 0;
}

-- An index, with the panic when it is out of bounds.
unfoldable pub index : List ℕ → ℕ → Outcome ℕ
index xs i = if ltb i (length xs) then returns (get_or xs i 0) else panics

-- `allocate`; `None` on an exhausted pool.
unfoldable pub allocate : BufferPool → Outcome (BufferPool × Option ℕ)
unfolding index
allocate p =
    if p.free_head == end_of_list
    then returns (p, none)
    else (index p.free_list p.free_head >>= λ next.
        returns (record p { free_head = next }, some p.free_head))

unfoldable pub deallocate : BufferPool → ℕ → Outcome BufferPool
deallocate p handle =
    if ltb handle (length p.free_list)
    then returns (record p { free_list = set p.free_list handle p.free_head; free_head = handle })
    else panics

unfoldable pub get : BufferPool → ℕ → Outcome Bytes
unfolding slice
get p handle = slice p.storage (handle * p.slot_size) p.slot_size

-- A write of a whole slot through the slice of `get_mut`.
unfoldable pub write : BufferPool → ℕ → Bytes → Outcome BufferPool
unfolding slice
write p handle bytes =
    let offset = handle * p.slot_size in
    slice p.storage offset p.slot_size >>= λ old. returns (record p {
      storage = take offset p.storage ++ (bytes ++ drop (offset + p.slot_size) p.storage);
    })

pub record TieredPool : Type 0 where
  pub small : BufferPool
  pub medium : BufferPool
  pub large : BufferPool

unfoldable pub tiered : TieredPool
unfolding new
tiered = record { small = new 256 1_048_576; medium = new 4_096 262_144; large = new 65_536 16_384 }

pub data Tier : Type 0 where
  small_tier medium_tier large_tier : Tier

-- `TieredPool::allocate`, with the tier in place of the reference to its pool.
unfoldable pub allocate_for : TieredPool → ℕ → Outcome (TieredPool × Option (ℕ × Tier))
unfolding allocate
allocate_for t size =
    if leb size 256
    then (allocate t.small >>= λ r.
        returns (record t { small = r.0 }, Option.map (λ h. (h, small_tier)) r.1))
    else if leb size 4_096
    then (allocate t.medium >>= λ r.
        returns (record t { medium = r.0 }, Option.map (λ h. (h, medium_tier)) r.1))
    else if leb size 65_536
    then (allocate t.large >>= λ r.
        returns (record t { large = r.0 }, Option.map (λ h. (h, large_tier)) r.1))
    else returns (t, none)

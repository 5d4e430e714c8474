-- ===== src/Pool.antt =====
-- fabric-lib/src/utils/obj_pool.rs: the pool that hands out stable addresses of objects.
pub mod Distinct
pub mod Live
pub mod Growth
mod Tests
use pplx_garden_cxi.Common.{
  ℕ, ◌+◌, ◌-◌, Option, none, some, List, [], ◌∷◌, ◌||◌, ◌==◌, ltb, if◌then◌else◌,
}

-- A slot is an index into one chunk. Chunks are separate allocations, so different slots have
-- different addresses, and a slot stays where it is.
abbrev pub Slot : Type 0
Slot = ℕ × ℕ

-- `chunks` is the number of chunks; their objects are not modelled. The free list is a stack,
-- its top first.
pub record ObjectPool : Type 0 where
  pub chunks : ℕ
  pub chunk_size : ℕ
  pub next_in_last : ℕ
  pub free_list : List Slot

-- `none` is the failed assertion.
pub with_chunk_size : ℕ → Option ObjectPool
with_chunk_size n =
    if ltb 0 n
    then some (record { chunks = 0; chunk_size = n; next_in_last = 0; free_list = [] })
    else none

-- the test and the body of `if self.chunks.is_empty() || …`
abbrev grow : ObjectPool → ObjectPool
grow p =
    if p.chunks == 0 || p.next_in_last == p.chunk_size
    then record p { chunks = p.chunks + 1; next_in_last = 0 }
    else p

-- the rest of `alloc_uninit`: the next slot of the last chunk
abbrev bump : ObjectPool → Slot × ObjectPool
bump p = ((p.chunks - 1, p.next_in_last), record p { next_in_last = p.next_in_last + 1 })

alloc_from : List Slot → ObjectPool → Slot × ObjectPool
alloc_from (s ∷ rest) p = (s, record p { free_list = rest })
alloc_from [] p = bump (grow p)

pub alloc_uninit : ObjectPool → Slot × ObjectPool
unfolding alloc_from
alloc_uninit p = alloc_from p.free_list p

pub free_no_drop : Slot → ObjectPool → ObjectPool
free_no_drop s p = record p { free_list = s ∷ p.free_list }

-- The destructor of the object comes first; what it changes is the caller's `W`.
pub free_and_drop {ℓ} : {W : Type ℓ} → (Slot → W → W) → Slot → ObjectPool → W → ObjectPool × W
free_and_drop drop_in_place s p w = (record p { free_list = s ∷ p.free_list }, drop_in_place s w)

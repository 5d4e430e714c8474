-- ===== src/Host.antt =====
-- fabric-lib/src/host_buffer.rs: buffers of registered host memory, which are kept when they are
-- dropped and handed out again.
mod Search
mod Power
mod Held
mod Served
mod Tests
use pplx_garden_cxi.Common.{
  ℕ, zero, suc, ◌-◌, ◌*◌, ◌%◌, ◌^◌, Option, none, some, List, [], ◌∷◌, ◌++◌, Map, lookup, insert,
  set_insert, set_remove, ltb, leb, if◌then◌else◌, length, get_elem?,
}
use pplx_garden_cxi.Api.{Result, ok, err, panicked, Action}

-- `Box<Vec<u8>>`, as its address and its length
pub record Storage : Type 0 where
  pub ptr : ℕ
  pub len : ℕ

pub record HostBufferEntry : Type 0 where
  pub storage : Storage
  pub mr_handle : ℕ

-- The lock is held from the start of an operation to its end.
pub record HostBufferCache : Type 0 where
  pub buffers : List HostBufferEntry
  pub free_bufs : Map (List ℕ)

pub record HostBuffer : Type 0 where
  pub index : ℕ
  pub ptr : ℕ
  pub length : ℕ
  pub mr_handle : ℕ

-- The engine of the allocator, which is generic over it, and the memory that `Vec` allocates from.
pub record RdmaEngine (E : Type 0) : Type 0 where
  pub vec_with_capacity : ℕ → E → ℕ × E
  pub drop_vec : Storage → E → E
  pub register_memory_local : (buf_base len : ℕ) → Action E ℕ

pub record HostBufferAllocator (E : Type 0) : Type 0 where
  pub cache : HostBufferCache
  pub engine : E

-- `usize::next_power_of_two`, which wraps to 0 if the power is not a `usize`
unfoldable pub power_from : (fuel p n : ℕ) → ℕ
power_from zero p n = p
power_from (suc fuel) p n = let rest = power_from fuel (2 * p) n in if leb n p then p else rest

unfoldable pub next_power_of_two : ℕ → ℕ
next_power_of_two n = power_from 64 1 n % 2 ^ 64

unfoldable pub or_default : Option (List ℕ) → List ℕ
or_default none = []
or_default (some entries) = entries

unfoldable pub free : (index length : ℕ) → HostBufferCache → HostBufferCache
free index length c =
    let entries = or_default (lookup length c.free_bufs) in
    record c { free_bufs = insert length (set_insert index entries) c.free_bufs }

-- `drop` of a `HostBuffer`
unfoldable pub drop_buffer :
    {E : Type 0} → HostBuffer → HostBufferAllocator E → HostBufferAllocator E
drop_buffer b a = record a { cache = free b.index b.length a.cache }

unfoldable pub keep : ℕ × List ℕ → Option (ℕ × ℕ × Map (List ℕ)) → Option (ℕ × ℕ × Map (List ℕ))
keep entry none = none
keep entry (some (index, allocated, bufs)) = some (index, allocated, entry ∷ bufs)

-- The first index of the first set for buffers that are large enough and that is not empty, with
-- the size of the buffer and what is left. The table and the sets are in the order of iteration.
unfoldable pub find_free : (size : ℕ) → Map (List ℕ) → Option (ℕ × ℕ × Map (List ℕ))
find_free size [] = none
find_free size ((allocated, []) ∷ rest) = keep (allocated, []) (find_free size rest)
find_free size ((allocated, index ∷ others) ∷ rest) =
    let entries = index ∷ others in
    let later = keep (allocated, entries) (find_free size rest) in
    if ltb allocated size
    then later
    else some (index, allocated, (allocated, set_remove index entries) ∷ rest)

-- `HostBufferEntry::new`. A vector of more than `isize::MAX` bytes panics.
module _ {E : Type 0} (R : RdmaEngine E) where
  unfoldable pub new_entry : ℕ → Action E HostBufferEntry
  new_entry size e =
      if ltb (2 ^ 63 - 1) size
      then (panicked, e)
      else let (base, e₁) = R.vec_with_capacity size e in
        let storage : Storage = record { ptr = base; len = size } in
        let (r, e₂) = R.register_memory_local base size e₁ in
        elim r [
          | ok handle ↦ (ok (record { storage = storage; mr_handle = handle }), e₂)
          | err x ↦ (err x, R.drop_vec storage e₂)
          | panicked ↦ (panicked, R.drop_vec storage e₂)
        ]

  unfoldable pub hand_out : (index length : ℕ) → Action (HostBufferAllocator E) HostBuffer
  hand_out index length a = elim (get_elem? a.cache.buffers index) [
    | none ↦ (panicked, a)
    | some entry ↦ (
      ok (record {
        index = index;
        ptr = entry.storage.ptr;
        length = length;
        mr_handle = entry.mr_handle;
      }),
      a,
    )
  ]

  unfoldable pub allocate_new : ℕ → Action (HostBufferAllocator E) HostBuffer
  allocate_new size a =
      let c = a.cache in
      let (r, e) = new_entry size a.engine in
      elim r [
        | ok entry ↦
            hand_out (length c.buffers) size
              (record { cache = record c { buffers = c.buffers ++ (entry ∷ []) }; engine = e })
        | err x ↦ (err x, record a { engine = e })
        | panicked ↦ (panicked, record a { engine = e })
      ]

  unfoldable pub allocate : ℕ → Action (HostBufferAllocator E) HostBuffer
  allocate size a = elim (find_free size a.cache.free_bufs) [
    | none ↦ allocate_new (next_power_of_two size) a
    | some (index, allocated, bufs) ↦
        hand_out index allocated (record a { cache = record a.cache { free_bufs = bufs } })
  ]

unfoldable pub new : {E : Type 0} → E → HostBufferAllocator E
new engine = record { cache = record { buffers = []; free_bufs = [] }; engine = engine }

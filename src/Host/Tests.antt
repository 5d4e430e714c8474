-- ===== src/Host/Tests.antt =====
-- Runs of the allocator, over an engine that registers at most 1024 bytes at once.
use pplx_garden_cxi.Common.{
  ℕ, ◌+◌, ◌*◌, ◌^◌, ◌≡◌, refl, [], ◌∷◌, arith, ltb, if◌then◌else◌, insert, lookup, set_insert,
  set_has,
}
use pplx_garden_cxi.Api.{ok, err, custom}
use pplx_garden_cxi.Host.{
  RdmaEngine, HostBuffer, HostBufferAllocator, power_from, next_power_of_two, find_free, keep,
  or_default, free, drop_buffer, new_entry, hand_out, allocate_new, allocate, new,
}
use pplx_garden_cxi.Host.Served.{Reached, Served, allocate_lem}

-- The engine counts the bytes it has given, and its handle is the address.
abbrev small : RdmaEngine ℕ
small = record {
  vec_with_capacity = λ size e. (4096 + e, e + size);
  drop_vec = λ storage e. e;
  register_memory_local =
      λ base len e. if ltb 1024 len then (err (custom "too large"), e) else (ok (7 * base), e);
}

powers : (next_power_of_two 0 ≡ 1) × (next_power_of_two 100 ≡ 128) × (next_power_of_two 128 ≡ 128)
unfolding next_power_of_two power_from
powers = (refl, refl, refl)

-- Above 2^63 the size wraps to 0.
wraps : next_power_of_two (2 ^ 63 + 1) ≡ 0
unfolding next_power_of_two power_from
wraps = refl

abbrev first : HostBuffer
first = record { index = 0; ptr = 4096; length = 128; mr_handle = 28672 }

abbrev second : HostBuffer
second = record { index = 1; ptr = 4224; length = 16; mr_handle = 29568 }

abbrev one : HostBufferAllocator ℕ
one = (allocate small 100 (new 0)).1

abbrev two : HostBufferAllocator ℕ
two = (allocate small 10 one).1

abbrev freed : HostBufferAllocator ℕ
freed = drop_buffer first two

one_is : allocate small 100 (new 0) ≡ (ok first, one)
unfolding allocate allocate_new new_entry hand_out find_free next_power_of_two power_from new
one_is = refl

two_is : allocate small 10 one ≡ (ok second, two)
unfolding allocate allocate_new new_entry hand_out find_free next_power_of_two power_from new
two_is = refl

-- A dropped buffer is used again, and a call that is too large fails.
again : (allocate small 50 freed).0 ≡ ok first
unfolding allocate allocate_new new_entry hand_out find_free keep next_power_of_two power_from new
    drop_buffer free or_default insert lookup set_insert set_has
again = refl

too_large : (allocate small 2000 freed).0 ≡ err (custom "too large")
unfolding allocate allocate_new new_entry hand_out find_free keep next_power_of_two power_from new
    drop_buffer free or_default insert lookup set_insert set_has
too_large = refl

past : Reached small freed (second ∷ [])
past = Reached.dropped (second ∷ []) [] first refl (
    Reached.allocated (Reached.allocated (Reached.begin 0) 100 first one one_is) 10 second two
      two_is)

allocate_lem_example : Served small 50 freed (second ∷ []) (allocate small 50 freed)
allocate_lem_example = allocate_lem small past 50 (omega arith)

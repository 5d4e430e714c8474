-- ===== src/Host/Served.antt =====
-- `allocate`, on every branch and however the allocator was used before.
use mathlib.Core.Path.{subst}
use pplx_garden_cxi.Common.{
  ℕ, ◌^◌, ◌≤◌, ◌<◌, ◌≡◌, ◌⊎◌, inl, inr, refl, sym, ap, none, some, List, [], ◌∷◌, ◌++◌, map, Map,
  arith, ltb, tally, All, Bool-cases, Option-cases, ◌+◌, if◌then◌else◌, length,
}
use pplx_garden_cxi.Api.{FabricLibError, Result, ok, err, panicked}
use pplx_garden_cxi.Host.{
  HostBufferEntry, HostBufferCache, HostBuffer, HostBufferAllocator, RdmaEngine, new, drop_buffer,
  allocate, allocate_new, hand_out, new_entry, find_free, next_power_of_two,
}
use pplx_garden_cxi.Host.Power.{next_power_of_two-bounds}
use pplx_garden_cxi.Host.Search.{held, held_at, Found, NoneFits, find_free_lem}
use pplx_garden_cxi.Host.Held.{
  IsValid, Backed, index_of, new-IsValid, IsValid-held, Found-IsValid, made-IsValid, free-IsValid,
  get_elem?-last,
}

-- The same buffers are free; a table and a set are iterated in an order of their own.
pub record SameFree (bufs old : Map (List ℕ)) : Type 0 where
  pub same_held : (i : ℕ) → held i bufs ≡ held i old
  pub same_held_at : (len i : ℕ) → held_at len i bufs ≡ held_at len i old

Result-cases :
    (r : Result ℕ)
    → ((handle : ℕ) × (r ≡ ok handle)) ⊎ ((x : FabricLibError) × (r ≡ err x)) ⊎ (r ≡ panicked)
Result-cases (ok handle) = inl (handle, refl)
Result-cases (err x) = inr (inl (x, refl))
Result-cases panicked = inr (inr refl)

module _ {E : Type 0} (R : RdmaEngine E) where
  -- A use of the allocator, with the buffers that were allocated and not dropped.
  pub data Reached : HostBufferAllocator E → List HostBuffer → Type 0 where
    begin : (e : E) → Reached (new e) []
    allocated :
        {a : HostBufferAllocator E} {live : List HostBuffer}
        → Reached a live
        → (size : ℕ) (b : HostBuffer) (a' : HostBufferAllocator E) → allocate R size a ≡ (ok b, a')
        → Reached a' (b ∷ live)
    refused :
        {a : HostBufferAllocator E} {live : List HostBuffer}
        → Reached a live
        → (size : ℕ) (x : FabricLibError) (a' : HostBufferAllocator E)
        → allocate R size a ≡ (err x, a')
        → Reached a' live
    dropped :
        {a : HostBufferAllocator E} {live : List HostBuffer} (xs ys : List HostBuffer)
        (b : HostBuffer)
        → live ≡ xs ++ (b ∷ ys)
        → Reached a live
        → Reached (drop_buffer b a) (xs ++ ys)
    reordered :
        {a : HostBufferAllocator E} {live : List HostBuffer} (bufs : Map (List ℕ))
        → SameFree bufs a.cache.free_bufs
        → Reached a live
        → Reached (record a { cache = record a.cache { free_bufs = bufs } }) live

  -- what the engine answers when a new buffer of the size is registered
  abbrev pub registered : ℕ → E → Result ℕ × E
  registered size e =
      let (base, e₁) = R.vec_with_capacity size e in R.register_memory_local base size e₁

  abbrev entry_of : ℕ → E → ℕ → HostBufferEntry
  entry_of size e handle = record {
    storage = record { ptr = (R.vec_with_capacity size e).0; len = size };
    mr_handle = handle;
  }

  abbrev buffer_of : ℕ → HostBufferAllocator E → ℕ → HostBuffer
  buffer_of size a handle = record {
    index = length a.cache.buffers;
    ptr = (R.vec_with_capacity size a.engine).0;
    length = size;
    mr_handle = handle;
  }

  abbrev with_entry : HostBufferCache → HostBufferEntry → HostBufferCache
  with_entry c entry = record c { buffers = c.buffers ++ (entry ∷ []) }

  -- What one call of `allocate` does to a cache with these buffers in use.
  abbrev Answers :
      ℕ
      → HostBufferAllocator E
      → List HostBuffer
      → Result HostBuffer × HostBufferAllocator E
      → Type 0
  Answers size a live (ok b, a') =
      IsValid a'.cache (b ∷ live)
      × (((a'.engine ≡ a.engine) × (a'.cache.buffers ≡ a.cache.buffers) × (size ≤ b.length))
          ⊎ (NoneFits size a.cache.free_bufs × (b.length ≡ next_power_of_two size)))
  Answers size a live (err x, a') =
      (a'.cache ≡ a.cache)
      × NoneFits size a.cache.free_bufs
      × ((registered (next_power_of_two size) a.engine).0 ≡ err x)
  Answers size a live (panicked, a') =
      (2 ^ 63 ≤ next_power_of_two size)
      ⊎ ((registered (next_power_of_two size) a.engine).0 ≡ panicked)

  allocate_new-ok :
      (size handle : ℕ) (a : HostBufferAllocator E)
      → size < 2 ^ 63
      → (registered size a.engine).0 ≡ ok handle
      → allocate_new R size a ≡ (
        ok (buffer_of size a handle),
        record {
          cache = with_entry a.cache (entry_of size a.engine handle);
          engine = (registered size a.engine).1;
        },
      )
  unfolding allocate_new new_entry hand_out
  allocate_new-ok size handle a small e =
      ground (arith, e, get_elem?-last a.cache.buffers (entry_of size a.engine handle))

  allocate_new-err :
      (size : ℕ) (x : FabricLibError) (a : HostBufferAllocator E)
      → size < 2 ^ 63
      → (registered size a.engine).0 ≡ err x
      → (e : E) × (allocate_new R size a ≡ (err x, record a { engine = e }))
  unfolding allocate_new new_entry
  allocate_new-err size x a small e =
      let (base, e₁) = R.vec_with_capacity size a.engine in
      (
        R.drop_vec (record { ptr = base; len = size }) (registered size a.engine).1,
        ground (arith, e),
      )

  allocate_new-panicked :
      (size : ℕ) (a : HostBufferAllocator E)
      → (2 ^ 63 ≤ size) ⊎ ((registered size a.engine).0 ≡ panicked)
      → (a' : HostBufferAllocator E) × (allocate_new R size a ≡ (panicked, a'))
  unfolding allocate_new new_entry
  allocate_new-panicked size a why = ((allocate_new R size a).1, ground (arith, why))

  Found-Answers :
      (size q k : ℕ) (rest : Map (List ℕ)) (a : HostBufferAllocator E) (live : List HostBuffer)
      → find_free size a.cache.free_bufs ≡ some (q, k, rest)
      → Found size q k a.cache.free_bufs rest
      → IsValid a.cache live
      → Answers size a live (allocate R size a)
  unfolding allocate hand_out
  Found-Answers size q k rest a live e f v =
      let (entry, at, len) = v.sized k q f.there in
      let b : HostBuffer = record {
        index = q;
        ptr = entry.storage.ptr;
        length = k;
        mr_handle = entry.mr_handle;
      } in
      let a' : HostBufferAllocator E = record a { cache = record a.cache { free_bufs = rest } } in
      let gives : allocate R size a ≡ (ok b, a') = ground (arith, e, at) in
      let stored : entry.storage ≡ record { ptr = b.ptr; len = k } =
        ap (λ l. record { ptr = entry.storage.ptr; len = l }) len in
      subst (Answers size a live) (sym gives) (
        Found-IsValid size b a.cache rest live v f (entry, at, stored, refl),
        inl (refl, refl, f.fits),
      )

  made-Answers :
      (size : ℕ) (a : HostBufferAllocator E) (live : List HostBuffer)
      → NoneFits size a.cache.free_bufs
      → IsValid a.cache live
      → Answers size a live (allocate_new R (next_power_of_two size) a)
  made-Answers size a live unfit v =
      let n = next_power_of_two size in
      elim (Bool-cases (ltb n (2 ^ 63))) [
        | inl small ↦ elim (Result-cases (registered n a.engine).0) [
          | inl (handle, e) ↦
              let entry = entry_of n a.engine handle in
              subst (Answers size a live) (sym (allocate_new-ok n handle a (ground arith) e)) (
                made-IsValid entry (buffer_of n a handle) a.cache live v refl
                    (entry, get_elem?-last a.cache.buffers entry, refl, refl),
                inr (unfit, refl),
              )
          | inr (inl (x, e)) ↦
              subst (Answers size a live) (sym (allocate_new-err n x a (ground arith) e).1)
                (refl, unfit, e)
          | inr (inr e) ↦
              subst (Answers size a live) (sym (allocate_new-panicked n a (inr e)).1) (inr e)
        ]
        | inr large ↦
            let big : 2 ^ 63 ≤ n = ground arith in
            subst (Answers size a live) (sym (allocate_new-panicked n a (inl big)).1) (inl big)
      ]

  allocate-none :
      (size : ℕ) (a : HostBufferAllocator E)
      → find_free size a.cache.free_bufs ≡ none
      → allocate R size a ≡ allocate_new R (next_power_of_two size) a
  unfolding allocate
  allocate-none size a e = ground (arith, e)

  allocate-Answers :
      (size : ℕ) (a : HostBufferAllocator E) (live : List HostBuffer)
      → IsValid a.cache live
      → Answers size a live (allocate R size a)
  allocate-Answers size a live v =
      let s = find_free_lem size a.cache.free_bufs (IsValid-held a.cache live v) in
      elim (Option-cases (find_free size a.cache.free_bufs)) [
        | inl e ↦
            subst (Answers size a live) (sym (allocate-none size a e))
              (made-Answers size a live (rw e at s) v)
        | inr ((q, k, rest), e) ↦ Found-Answers size q k rest a live e (rw e at s) v
      ]

  reordered-IsValid :
      (bufs : Map (List ℕ)) (c : HostBufferCache) (live : List HostBuffer)
      → SameFree bufs c.free_bufs
      → IsValid c live
      → IsValid (record c { free_bufs = bufs }) live
  reordered-IsValid bufs c live same v = record {
    once = λ i. omega (arith, v.once i, same.same_held i);
    sized = λ len i h. v.sized len i (omega (arith, same.same_held_at len i));
    backed = v.backed;
  }

  Reached-IsValid :
      {a : HostBufferAllocator E} {live : List HostBuffer} → Reached a live → IsValid a.cache live
  unfolding new drop_buffer
  Reached-IsValid (begin e) = new-IsValid
  Reached-IsValid (allocated {a} {live} past size b a' e) =
      (subst (Answers size a live) e (allocate-Answers size a live (Reached-IsValid past))).0
  Reached-IsValid (refused {a} {live} past size x a' e) =
      let v = Reached-IsValid past in
      subst (λ c. IsValid c live)
        (sym (subst (Answers size a live) e (allocate-Answers size a live v)).0) v
  Reached-IsValid (dropped {a} xs ys b e past) =
      free-IsValid b a.cache xs ys (subst (IsValid a.cache) e (Reached-IsValid past))
  Reached-IsValid (reordered {a} {live} bufs same past) =
      reordered-IsValid bufs a.cache live same (Reached-IsValid past)

  -- What a call of `allocate` is to do, with these buffers in use.
  abbrev pub Served :
      ℕ
      → HostBufferAllocator E
      → List HostBuffer
      → Result HostBuffer × HostBufferAllocator E
      → Type 0
  Served size a live (ok b, a') =
      (size ≤ b.length)
      × (tally b.index (map index_of live) ≡ 0)
      × All (Backed a'.cache.buffers) (b ∷ live)
      × ((i : ℕ)
          → held i a'.cache.free_bufs + tally i (map index_of (b ∷ live))
            ≡ (if ltb i (length a'.cache.buffers) then 1 else 0))
      × (((a'.engine ≡ a.engine) × (a'.cache.buffers ≡ a.cache.buffers))
          ⊎ NoneFits size a.cache.free_bufs)
  Served size a live (err x, a') =
      (a'.cache ≡ a.cache)
      × NoneFits size a.cache.free_bufs
      × ((registered (next_power_of_two size) a.engine).0 ≡ err x)
  Served size a live (panicked, a') = (registered (next_power_of_two size) a.engine).0 ≡ panicked

  Answers-Served :
      (size : ℕ) (a : HostBufferAllocator E) (live : List HostBuffer)
      (r : Result HostBuffer × HostBufferAllocator E)
      → size ≤ 2 ^ 62
      → Answers size a live r
      → Served size a live r
  unfolding tally
  Answers-Served size a live (ok b, a') small (v, how) =
      let up = next_power_of_two-bounds size small in
      (
        ground (arith, how, up),
        ground (arith, v.once b.index),
        v.backed,
        v.once,
        elim how [ inl (e, bs, fits) ↦ inl (e, bs) | inr (unfit, len) ↦ inr unfit ],
      )
  Answers-Served size a live (err x, a') small h = h
  Answers-Served size a live (panicked, a') small (inl big) =
      absurd (omega (arith, next_power_of_two-bounds size small))
  Answers-Served size a live (panicked, a') small (inr e) = e

  -- However an allocator is used, with buffers dropped once and the tables iterated in any order,
  -- a call for at most 2^62 bytes returns a buffer of at least that size, whose index no buffer in
  -- past has; each buffer in use, the new one too, shows the address, the length and the handle of
  -- its entry, and every entry is free or in use, once. The engine is asked only if no free buffer
  -- is large enough. If the engine refuses to register the memory, its error is returned and the
  -- cache is unchanged; the call panics only if the engine does.
  pub allocate_lem :
      {a : HostBufferAllocator E} {live : List HostBuffer}
      → Reached a live
      → (size : ℕ) → size ≤ 2 ^ 62
      → Served size a live (allocate R size a)
  allocate_lem {a} {live} past size small =
      Answers-Served size a live (allocate R size a) small
        (allocate-Answers size a live (Reached-IsValid past))

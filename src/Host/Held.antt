-- ===== src/Host/Held.antt =====
-- The invariant of the allocator: every buffer is free or in use, and in one place.
use mathlib.Core.Path.{subst}
use pplx_garden_cxi.Common.{
  ℕ, zero, suc, ◌+◌, ◌≤◌, ◌<◌, ◌≡◌, inl, inr, refl, ap, none, some, List, [], ◌∷◌, ◌++◌, map, Map,
  lookup, insert, arith, ltb, ◌==◌, if◌then◌else◌, tally, set_insert, tally-set_has, All,
  Bool-cases, length, get_elem?, length-append,
}
use pplx_garden_cxi.Host.{HostBufferEntry, HostBufferCache, HostBuffer, or_default, free}
use pplx_garden_cxi.Host.Search.{held, held_at, Found}

abbrev pub index_of : HostBuffer → ℕ
index_of b = b.index

-- the entry of the index has so many bytes
abbrev pub Sized : List HostBufferEntry → ℕ → ℕ → Type 0
Sized buffers len i =
    (entry : HostBufferEntry) × (get_elem? buffers i ≡ some entry) × (entry.storage.len ≡ len)

-- what a buffer shows of its entry
abbrev pub Backed : List HostBufferEntry → HostBuffer → Type 0
Backed buffers b =
    (entry : HostBufferEntry) × (get_elem? buffers b.index ≡ some entry)
    × (entry.storage ≡ record { ptr = b.ptr; len = b.length })
    × (entry.mr_handle ≡ b.mr_handle)

pub record IsValid (c : HostBufferCache) (live : List HostBuffer) : Type 0 where
  pub once :
      (i : ℕ)
      → held i c.free_bufs + tally i (map index_of live)
        ≡ (if ltb i (length c.buffers) then 1 else 0)
  pub sized : (len i : ℕ) → 0 < held_at len i c.free_bufs → Sized c.buffers len i
  pub backed : All (Backed c.buffers) live

pub new-IsValid : IsValid (record { buffers = []; free_bufs = [] }) []
unfolding held held_at tally
new-IsValid = record {
  once = λ i. ground arith;
  sized = λ len i h. absurd (omega arith);
  backed = tt;
}

pub IsValid-held :
    (c : HostBufferCache) (live : List HostBuffer)
    → IsValid c live
    → (i : ℕ) → held i c.free_bufs ≤ 1
IsValid-held c live v i = ground (arith, v.once i)

-- A buffer that is found and handed out.
pub Found-IsValid :
    (size : ℕ) (b : HostBuffer) (c : HostBufferCache) (rest : Map (List ℕ)) (live : List HostBuffer)
    → IsValid c live
    → Found size b.index b.length c.free_bufs rest
    → Backed c.buffers b
    → IsValid (record c { free_bufs = rest }) (b ∷ live)
unfolding tally
Found-IsValid size b c rest live v f at = record {
  once = λ i. ground (arith, v.once i, f.taken i);
  sized = λ len i h. v.sized len i (omega (arith, f.left len i));
  backed = (at, v.backed);
}

get_elem?-append :
    (buffers : List HostBufferEntry) (new entry : HostBufferEntry) (i : ℕ)
    → get_elem? buffers i ≡ some entry
    → get_elem? (buffers ++ (new ∷ [])) i ≡ some entry
get_elem?-append [] new entry i e = absurd (no e)
  where
    no : none ≡ some entry → ⊥
    no h = cc
get_elem?-append (b ∷ buffers) new entry zero e = e
get_elem?-append (b ∷ buffers) new entry (suc i) e = get_elem?-append buffers new entry i e

pub get_elem?-last :
    (buffers : List HostBufferEntry) (new : HostBufferEntry)
    → get_elem? (buffers ++ (new ∷ [])) (length buffers) ≡ some new
get_elem?-last [] new = refl
get_elem?-last (b ∷ buffers) new = get_elem?-last buffers new

Backed-append :
    (buffers : List HostBufferEntry) (new : HostBufferEntry) (live : List HostBuffer)
    → All (Backed buffers) live
    → All (Backed (buffers ++ (new ∷ []))) live
Backed-append buffers new [] h = tt
Backed-append buffers new (b ∷ live) ((entry, at, what, handle), h) = (
  (entry, get_elem?-append buffers new entry b.index at, what, handle),
  Backed-append buffers new live h,
)

-- A buffer that is made and handed out.
pub made-IsValid :
    (entry : HostBufferEntry) (b : HostBuffer) (c : HostBufferCache) (live : List HostBuffer)
    → IsValid c live
    → b.index ≡ length c.buffers
    → Backed (c.buffers ++ (entry ∷ [])) b
    → IsValid (record c { buffers = c.buffers ++ (entry ∷ []) }) (b ∷ live)
unfolding tally
made-IsValid entry b c live v e at = record {
  once = λ i. ground (arith, v.once i, e, length-append c.buffers (entry ∷ []));
  sized = λ len i h.
      let (old, there, what) = v.sized len i h in
      (old, get_elem?-append c.buffers entry old i there, what);
  backed = (at, Backed-append c.buffers entry live v.backed);
}

held-insert :
    (len i : ℕ) (new : List ℕ) (bufs : Map (List ℕ))
    → held i (insert len new bufs) + tally i (or_default (lookup len bufs))
      ≡ held i bufs + tally i new
unfolding held insert lookup or_default tally
held-insert len i new [] = ground arith
held-insert len i new ((k, entries) ∷ rest) = ground (arith, held-insert len i new rest)

held_at-insert :
    (len at i : ℕ) (new : List ℕ) (bufs : Map (List ℕ))
    → held_at at i (insert len new bufs)
        + (if len == at then tally i (or_default (lookup len bufs)) else 0)
      ≡ held_at at i bufs + (if len == at then tally i new else 0)
unfolding held_at insert lookup or_default tally
held_at-insert len at i new [] = ground arith
held_at-insert len at i new ((k, entries) ∷ rest) = ground (arith, held_at-insert len at i new rest)

default-held :
    (len i : ℕ) (bufs : Map (List ℕ)) → tally i (or_default (lookup len bufs)) ≤ held i bufs
unfolding held lookup or_default tally
default-held len i [] = ground arith
default-held len i ((k, entries) ∷ rest) = ground (arith, default-held len i rest)

tally-set_insert :
    (q i : ℕ) (xs : List ℕ)
    → tally q xs ≡ 0
    → tally i (set_insert q xs) ≡ (if q == i then 1 else 0) + tally i xs
unfolding set_insert tally
tally-set_insert q i xs absent = ground (arith, tally-set_has q xs, absent)

tally-split :
    (i : ℕ) (b : HostBuffer) (xs ys : List HostBuffer)
    → tally i (map index_of (xs ++ (b ∷ ys)))
      ≡ (if b.index == i then 1 else 0) + tally i (map index_of (xs ++ ys))
unfolding tally
tally-split i b [] ys = refl
tally-split i b (x ∷ xs) ys = omega (arith, tally-split i b xs ys)

pub All-split :
    (P : HostBuffer → Type 0) (b : HostBuffer) (xs ys : List HostBuffer)
    → All P (xs ++ (b ∷ ys))
    → P b × All P (xs ++ ys)
All-split P b [] ys h = h
All-split P b (x ∷ xs) ys h = let (p, r) = All-split P b xs ys h.1 in (p, (h.0, r))

-- A buffer that is given back.
pub free-IsValid :
    (b : HostBuffer) (c : HostBufferCache) (xs ys : List HostBuffer)
    → IsValid c (xs ++ (b ∷ ys))
    → IsValid (free b.index b.length c) (xs ++ ys)
unfolding free
free-IsValid b c xs ys v =
    let set = or_default (lookup b.length c.free_bufs) in
    let (at, others) = All-split (Backed c.buffers) b xs ys v.backed in
    let (entry, there, what, _) = at in
    let absent : tally b.index set ≡ 0 = ground (
      arith,
      v.once b.index,
      tally-split b.index b xs ys,
      default-held b.length b.index c.free_bufs,
    ) in
    record {
      once = λ i. ground (
        arith,
        v.once i,
        tally-split i b xs ys,
        held-insert b.length i (set_insert b.index set) c.free_bufs,
        tally-set_insert b.index i set absent,
      );
      sized = λ len i h. elim (Bool-cases (b.length == len)) [
        | inl same ↦ elim (Bool-cases (b.index == i)) [
          | inl this ↦
              subst (λ l. Sized c.buffers l i) (ground arith)
                (subst (Sized c.buffers b.length) (ground arith)
                  (entry, there, ap (λ s. s.len) what))
          | inr other ↦ v.sized len i (
              ground (
                arith,
                same,
                other,
                held_at-insert b.length len i (set_insert b.index set) c.free_bufs,
                tally-set_insert b.index i set absent,
              ))
        ]
        | inr different ↦ v.sized len i (
            ground (
              arith,
              different,
              held_at-insert b.length len i (set_insert b.index set) c.free_bufs,
            ))
      ];
      backed = others;
    }

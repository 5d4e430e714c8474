-- ===== src/Pool/Live.antt =====
-- What is live in a pool: the slots that were handed out and not given back.
use mathlib.Core.Path.{subst}
use pplx_garden_cxi.Common.{
  ℕ, ◌+◌, ◌≤◌, ◌<◌, ◌≡◌, ◌≢◌, ◌⊎◌, inl, inr, refl, sym, ap, ◌∙◌, some, List, [], ◌∷◌, ◌++◌,
  append_assoc, arith, All,
}
use pplx_garden_cxi.Pool.{Slot, ObjectPool, with_chunk_size, alloc_uninit, alloc_from, free_no_drop}
use pplx_garden_cxi.Pool.Distinct.{
  Distinct, All-remove, All-insert, Distinct-remove, Distinct-insert,
}

-- A slot that a pool has handed out at some time lies in a chunk that exists, below the next
-- unallocated slot if the chunk is the last one.
pub record Carves (chunks size next : ℕ) (s : Slot) : Type 0 where
  pub chunk_in : s.0 < chunks
  pub slot_in : s.1 < size
  pub below_next : s.0 + 1 ≡ chunks → s.1 < next

abbrev pub IsCarved : ObjectPool → Slot → Type 0
IsCarved p = Carves p.chunks p.chunk_size p.next_in_last

-- A use of the pool that keeps to its contract: only live slots are given back.
pub data Uses (size : ℕ) : ObjectPool → List Slot → Type 0 where
  start : (p : ObjectPool) → with_chunk_size size ≡ some p → Uses size p []
  alloc :
      {p : ObjectPool} {live : List Slot}
      → Uses size p live
      → Uses size (alloc_uninit p).1 ((alloc_uninit p).0 ∷ live)
  free :
      {p : ObjectPool} {live : List Slot} (xs ys : List Slot) (s : Slot)
      → live ≡ xs ++ (s ∷ ys)
      → Uses size p live
      → Uses size (free_no_drop s p) (xs ++ ys)

pub record IsValid (p : ObjectPool) (live : List Slot) : Type 0 where
  pub nonzero : 0 < p.chunk_size
  pub next_in : p.next_in_last ≤ p.chunk_size
  pub carved : All (IsCarved p) (p.free_list ++ live)
  pub distinct : Distinct (p.free_list ++ live)

List-cases : (l : List Slot) → (l ≡ []) ⊎ ((s : Slot) × (r : List Slot) × (l ≡ s ∷ r))
List-cases [] = inl refl
List-cases (s ∷ r) = inr (s, r, refl)

-- the pool after `alloc_uninit` on an empty free list
abbrev bumped : ObjectPool → Slot × ObjectPool
bumped p = alloc_from [] p

IsCarved-bumped :
    (p : ObjectPool) (s : Slot) → IsCarved p s → IsCarved (bumped p).1 s × (s ≢ (bumped p).0)
unfolding alloc_from
IsCarved-bumped p s c = ground arith

bumped-IsCarved :
    (p : ObjectPool)
    → 0 < p.chunk_size
    → p.next_in_last ≤ p.chunk_size
    → IsCarved (bumped p).1 (bumped p).0 × ((bumped p).1.next_in_last ≤ (bumped p).1.chunk_size)
unfolding alloc_from
bumped-IsCarved p h k = ground arith

All-bumped :
    (p : ObjectPool) (l : List Slot)
    → All (IsCarved p) l
    → All (IsCarved (bumped p).1) l × All (λ s. s ≢ (bumped p).0) l
All-bumped p [] h = (tt, tt)
All-bumped p (s ∷ l) h =
    let c = IsCarved-bumped p s h.0 in let r = All-bumped p l h.1 in ((c.0, r.0), (c.1, r.1))

bumped_keeps :
    (p : ObjectPool)
    → ((bumped p).1.free_list ≡ p.free_list) × ((bumped p).1.chunk_size ≡ p.chunk_size)
unfolding alloc_from
bumped_keeps p = ground arith

bumped-IsValid :
    (p : ObjectPool) (live : List Slot)
    → p.free_list ≡ []
    → IsValid p live
    → IsValid (bumped p).1 ((bumped p).0 ∷ live)
bumped-IsValid p live e v =
    let old = subst (λ l. All (IsCarved p) (l ++ live)) e v.carved in
    let apart = subst (λ l. Distinct (l ++ live)) e v.distinct in
    let new = bumped-IsCarved p v.nonzero v.next_in in
    let kept = All-bumped p live old in
    let empty = sym ((bumped_keeps p).0 ∙ e) in
    let s = (bumped p).0 in
    record {
      nonzero = omega (arith, bumped_keeps p);
      next_in = new.1;
      carved = subst (λ l. All (IsCarved (bumped p).1) (l ++ s ∷ live)) empty (new.0, kept.0);
      distinct = subst (λ l. Distinct (l ++ s ∷ live)) empty (kept.1, apart);
    }

popped-IsValid :
    (p : ObjectPool) (live rest : List Slot) (s : Slot)
    → p.free_list ≡ s ∷ rest
    → IsValid p live
    → IsValid (record p { free_list = rest }) (s ∷ live)
popped-IsValid p live rest s e v =
    let c = subst (λ l. All (IsCarved p) (l ++ live)) e v.carved in
    let d = subst (λ l. Distinct (l ++ live)) e v.distinct in
    record {
      nonzero = v.nonzero;
      next_in = v.next_in;
      carved = All-insert (IsCarved p) rest live s c.0 c.1;
      distinct = Distinct-insert rest live s d;
    }

-- `alloc_uninit` returns a slot that is not live, and keeps the invariant with it live.
pub alloc-IsValid :
    (p : ObjectPool) (live : List Slot)
    → IsValid p live
    → IsValid (alloc_uninit p).1 ((alloc_uninit p).0 ∷ live)
unfolding alloc_uninit alloc_from
alloc-IsValid p live v = elim (List-cases p.free_list) [
  | inl e ↦
      subst (λ r. IsValid r.1 (r.0 ∷ live)) (ap (λ l. alloc_from l p) (sym e))
        (bumped-IsValid p live e v)
  | inr (s, rest, e) ↦
      subst (λ r. IsValid r.1 (r.0 ∷ live)) (ap (λ l. alloc_from l p) (sym e))
        (popped-IsValid p live rest s e v)
]

free-IsValid :
    (p : ObjectPool) (xs ys : List Slot) (s : Slot)
    → IsValid p (xs ++ (s ∷ ys))
    → IsValid (free_no_drop s p) (xs ++ ys)
unfolding free_no_drop
free-IsValid p xs ys s v =
    let split = append_assoc p.free_list xs in
    let c = subst (All (IsCarved p)) (sym (split (s ∷ ys))) v.carved in
    let d = subst Distinct (sym (split (s ∷ ys))) v.distinct in
    let c' = All-remove (IsCarved p) (p.free_list ++ xs) ys s c in
    let d' = Distinct-remove (p.free_list ++ xs) ys s d in
    record {
      nonzero = v.nonzero;
      next_in = v.next_in;
      carved = (c'.0, subst (All (IsCarved p)) (split ys) c'.1);
      distinct = subst (λ l. Distinct (s ∷ l)) (split ys) d';
    }

abbrev pub empty_pool : ℕ → ObjectPool
empty_pool n = record { chunks = 0; chunk_size = n; next_in_last = 0; free_list = [] }

pub with_chunk_size-some :
    (n : ℕ) (p : ObjectPool) → with_chunk_size n ≡ some p → (0 < n) × (empty_pool n ≡ p)
unfolding with_chunk_size
with_chunk_size-some n p e = ground arith

start-IsValid : (n : ℕ) (p : ObjectPool) → with_chunk_size n ≡ some p → IsValid p []
start-IsValid n p e =
    let (pos, same) = with_chunk_size-some n p e in
    subst (λ q. IsValid q []) same
      (record { nonzero = pos; next_in = omega arith; carved = tt; distinct = tt })

pub Uses-IsValid : {n : ℕ} {p : ObjectPool} {live : List Slot} → Uses n p live → IsValid p live
Uses-IsValid (start p e) = start-IsValid _ p e
Uses-IsValid (alloc u) = alloc-IsValid _ _ (Uses-IsValid u)
Uses-IsValid (free xs ys s e u) = free-IsValid _ xs ys s (subst (IsValid _) e (Uses-IsValid u))

All-right {κ} : (P : Slot → Type κ) (xs ys : List Slot) → All P (xs ++ ys) → All P ys
All-right P [] ys h = h
All-right P (x ∷ xs) ys h = All-right P xs ys h.1

Distinct-right : (xs ys : List Slot) → Distinct (xs ++ ys) → Distinct ys
Distinct-right [] ys h = h
Distinct-right (x ∷ xs) ys h = Distinct-right xs ys h.1

-- However a pool is used, as long as only live slots are given back: the slot that `alloc_uninit`
-- returns next differs from every live one, all of them differ from one another, and each lies
-- inside a chunk of the pool.
pub alloc_fresh :
    {n : ℕ} {p : ObjectPool} {live : List Slot}
    → Uses n p live
    → let (s, q) = alloc_uninit p in Distinct (s ∷ live) × All (IsCarved q) (s ∷ live)
alloc_fresh {p = p} {live = live} u =
    let v = alloc-IsValid p live (Uses-IsValid u) in
    let q = (alloc_uninit p).1 in
    let l = (alloc_uninit p).0 ∷ live in
    (Distinct-right q.free_list l v.distinct, All-right (IsCarved q) q.free_list l v.carved)

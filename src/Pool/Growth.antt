-- ===== src/Pool/Growth.antt =====
-- How a pool grows: the slots that it has handed out are its free and its live ones.
use mathlib.Core.Path.{subst}
use pplx_garden_cxi.Common.{
  ℕ, ◌+◌, ◌*◌, ◌≤◌, ◌<◌, ◌≡◌, ◌⊎◌, inl, inr, refl, ap, List, [], ◌∷◌, ◌++◌, arith, length,
  length-append, ◌||◌, ◌==◌, Bool-cases,
}
use pplx_garden_cxi.Pool.{Slot, ObjectPool, alloc_uninit, alloc_from, free_no_drop}
use pplx_garden_cxi.Pool.Live.{Uses, start, alloc, free, empty_pool, with_chunk_size-some}

-- `chunks * chunk_size` slots exist; those from `next_in_last` on in the last chunk are untouched.
abbrev Counts : (chunks size next total : ℕ) → Type 0
Counts chunks size next total =
    ((chunks ≡ 0) × (total ≡ 0)) ⊎ ((0 < chunks) × (total + size ≡ chunks * size + next))

record Accounts (n : ℕ) (p : ObjectPool) (live : List Slot) : Type 0 where
  size : p.chunk_size ≡ n
  next_in : p.next_in_last ≤ n
  total : Counts p.chunks n p.next_in_last (length p.free_list + length live)

alloc_from-Accounts :
    (n : ℕ) (p : ObjectPool) (l live : List Slot)
    → 0 < n
    → p.free_list ≡ l
    → Accounts n p live
    → Accounts n (alloc_from l p).1 ((alloc_from l p).0 ∷ live)
unfolding alloc_from
alloc_from-Accounts n p [] live pos e a =
    let free = ap length e in
    elim (Bool-cases (p.chunks == 0 || p.next_in_last == p.chunk_size)) [
      | inl new_chunk ↦ rw new_chunk (grind arith)
      | inr room ↦ rw room (grind arith)
    ]
alloc_from-Accounts n p (s ∷ rest) live pos e a = ground (arith, ap length e)

free-Accounts :
    (n : ℕ) (p : ObjectPool) (xs ys : List Slot) (s : Slot)
    → Accounts n p (xs ++ (s ∷ ys))
    → Accounts n (free_no_drop s p) (xs ++ ys)
unfolding free_no_drop
free-Accounts n p xs ys s a = ground (arith, length-append xs (s ∷ ys), length-append xs ys)

start-Accounts : (n : ℕ) (p : ObjectPool) → empty_pool n ≡ p → Accounts n p []
start-Accounts n p e =
    subst (λ q. Accounts n q []) e
      (record { size = refl; next_in = omega arith; total = inl (refl, refl) })

Uses-Accounts :
    {n : ℕ} {p : ObjectPool} {live : List Slot} → Uses n p live → Accounts n p live × (0 < n)
unfolding alloc_uninit
Uses-Accounts (start p e) =
    let (pos, same) = with_chunk_size-some _ p e in (start-Accounts _ p same, pos)
Uses-Accounts (alloc {p = p} {live = live} u) =
    let (a, pos) = Uses-Accounts u in (alloc_from-Accounts _ p p.free_list live pos refl a, pos)
Uses-Accounts (free xs ys s e u) =
    let (a, pos) = Uses-Accounts u in (free-Accounts _ _ xs ys s (subst (Accounts _ _) e a), pos)

-- the pool has a chunk more after `alloc_uninit`
abbrev pub Grows : ObjectPool → Type 0
Grows p = p.chunks < (alloc_uninit p).1.chunks

grows-full :
    (n : ℕ) (p : ObjectPool) (l live : List Slot)
    → p.free_list ≡ l
    → Accounts n p live
    → p.chunks < (alloc_from l p).1.chunks
    → length live ≡ p.chunks * n
unfolding alloc_from
grows-full n p [] live e a more = ground (arith, ap length e)
grows-full n p (s ∷ rest) live e a more = absurd (omega arith)

-- However a pool is used, `alloc_uninit` adds a chunk only if the live slots are as many as the
-- chunks that are there have slots.
pub Grows-when_full :
    {n : ℕ} {p : ObjectPool} {live : List Slot}
    → Uses n p live
    → Grows p
    → length live ≡ p.chunks * n
unfolding alloc_uninit
Grows-when_full {p = p} {live = live} u more =
    grows-full _ p p.free_list live refl (Uses-Accounts u).0 more

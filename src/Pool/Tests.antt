-- ===== src/Pool/Tests.antt =====
-- A pool with chunks of two objects.
use pplx_garden_cxi.Common.{◌*◌, ◌≡◌, refl, none, List, [], ◌∷◌, arith, All, length}
use pplx_garden_cxi.Pool.{
  Slot, ObjectPool, with_chunk_size, alloc_uninit, alloc_from, free_no_drop, free_and_drop,
}
use pplx_garden_cxi.Pool.Distinct.{Distinct}
use pplx_garden_cxi.Pool.Live.{Uses, start, alloc, free, empty_pool, IsCarved, alloc_fresh}
use pplx_garden_cxi.Pool.Growth.{Grows-when_full}

no_empty_chunks : with_chunk_size 0 ≡ none
unfolding with_chunk_size
no_empty_chunks = refl

two_live : Uses 2 (alloc_uninit (alloc_uninit (empty_pool 2)).1).1 ((0, 1) ∷ (0, 0) ∷ [])
unfolding alloc_uninit alloc_from with_chunk_size
two_live = alloc (alloc (start (empty_pool 2) refl))

abbrev full_pool : ObjectPool
full_pool = record { chunks = 1; chunk_size = 2; next_in_last = 2; free_list = [] }

full_pool-Uses : Uses 2 full_pool ((0, 1) ∷ (0, 0) ∷ [])
unfolding alloc_uninit alloc_from
full_pool-Uses = two_live

one_live : Uses 2 (record full_pool { free_list = (0, 1) ∷ [] }) ((0, 0) ∷ [])
unfolding free_no_drop
one_live = free [] ((0, 0) ∷ []) (0, 1) refl full_pool-Uses

drops_first : (free_and_drop (λ s (l : List Slot). s ∷ l) (0, 1) full_pool []).1 ≡ (0, 1) ∷ []
unfolding free_and_drop
drops_first = refl

-- the slot that was given back comes again
alloc_fresh_example :
    Distinct {A = Slot} ((0, 1) ∷ (0, 0) ∷ []) × All (IsCarved full_pool) ((0, 1) ∷ (0, 0) ∷ [])
unfolding alloc_uninit alloc_from
alloc_fresh_example = alloc_fresh one_live

Grows-when_full_example : length {A = Slot} ((0, 1) ∷ (0, 0) ∷ []) ≡ 1 * 2
unfolding alloc_uninit alloc_from
Grows-when_full_example = Grows-when_full full_pool-Uses (omega arith)

-- ===== src/Efa/Drain/Once.antt =====
-- The one message of a single write or an immediate over libfabric.
use pplx_garden_cxi.Common.{ℕ, zero, suc, ◌+◌, ◌≡◌, refl, true, false, none, [], ◌∷◌, arith}
use pplx_garden_cxi.Api.{ok, panicked}
use pplx_garden_cxi.Efa.Single.{SingleWriteOpIter, peek, mark_done}
use pplx_garden_cxi.Efa.Iter
use pplx_garden_cxi.Efa.Iter.{WriteOpIter, single}
use pplx_garden_cxi.Efa.Drain.{drain}

drain-done :
    (spare : ℕ) (it : SingleWriteOpIter)
    → it.done ≡ true
    → drain spare (single it) ≡ ([], ok tt, single it)
unfolding drain Iter.peek peek
drain-done zero it over = refl
drain-done (suc spare) it over = ground arith

-- The iterator of a single write that is not done posts its message once and is done, in one
-- round or more, and has no further message; to advance it again panics.
pub drain-single :
    (spare : ℕ) (it : SingleWriteOpIter)
    → it.done ≡ false
    → let it' = record it { done = true } in
      (drain (1 + spare) (single it) ≡ ((it.buf, it.flags) ∷ [], ok tt, single it'))
      × (Iter.peek (single it') ≡ none)
      × (Iter.advance (single it') ≡ (panicked, single it'))
unfolding drain Iter.peek Iter.advance peek mark_done
drain-single spare it fresh =
    let it' = record it { done = true } in
    let more : 1 + spare ≡ suc spare = omega arith in
    let rest = drain-done spare it' refl in (rw more (ground (arith, rest)), refl, refl)

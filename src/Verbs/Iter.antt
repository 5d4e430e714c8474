-- ===== src/Verbs/Iter.antt =====
-- `WriteOpIter` of fabric-lib/src/verbs/verbs_rdma_op.rs: the work requests of any write.
use pplx_garden_cxi.Common.{ℕ, not, ◌==◌}
use pplx_garden_cxi.Api.{inside, Action, ◌>>◌, gets, panic_if, modify}
use pplx_garden_cxi.Verbs.{Peeked}
use pplx_garden_cxi.Verbs.Single
use pplx_garden_cxi.Verbs.Paged
use pplx_garden_cxi.Verbs.Scatter
use pplx_garden_cxi.Verbs.Single.{SingleWriteOpIter}
use pplx_garden_cxi.Verbs.Paged.{PagedWriteOpIter}
use pplx_garden_cxi.Verbs.Scatter.{ScatterWriteOpIter}

pub data WriteOpIter : Type 0 where
  single : SingleWriteOpIter → WriteOpIter
  paged : PagedWriteOpIter → WriteOpIter
  scatter : ScatterWriteOpIter → WriteOpIter

unfoldable pub total_ops : WriteOpIter → ℕ
total_ops (single it) = 1
total_ops (paged it) = Paged.total_ops it
total_ops (scatter it) = Scatter.total_ops it

unfoldable pub peek : Action WriteOpIter Peeked
peek (single it) = gets (λ _. Single.peek it) (single it)
peek (paged it) = gets (λ _. Paged.peek it) (paged it)
peek (scatter it) = ((Scatter.peek it).0, scatter it)

unfoldable pub advance : ℕ → Action WriteOpIter (Unit {0})
advance n (single it) = inside single (panic_if (not (n == 1)) >> modify Single.mark_done) it
advance n (paged it) = inside paged (Paged.advance n) it
advance n (scatter it) = inside scatter (panic_if (not (n == 1)) >> Scatter.advance_one) it

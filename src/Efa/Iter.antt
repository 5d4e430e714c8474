-- ===== src/Efa/Iter.antt =====
-- `WriteOpIter` of fabric-lib/src/efa/efa_rdma_op.rs: the messages of any write.
use pplx_garden_cxi.Common.{ℕ, Option}
use pplx_garden_cxi.Api.{Action, inside}
use pplx_garden_cxi.Efa.{RmaBuffer}
use pplx_garden_cxi.Efa.Single
use pplx_garden_cxi.Efa.Paged
use pplx_garden_cxi.Efa.Scatter
use pplx_garden_cxi.Efa.Single.{SingleWriteOpIter}
use pplx_garden_cxi.Efa.Paged.{PagedWriteOpIter}
use pplx_garden_cxi.Efa.Scatter.{ScatterWriteOpIter}

pub data WriteOpIter : Type 0 where
  single : SingleWriteOpIter → WriteOpIter
  paged : PagedWriteOpIter → WriteOpIter
  scatter : ScatterWriteOpIter → WriteOpIter

unfoldable pub total_ops : WriteOpIter → ℕ
total_ops (single it) = 1
total_ops (paged it) = Paged.total_ops it
total_ops (scatter it) = Scatter.total_ops it

unfoldable pub peek : WriteOpIter → Option (RmaBuffer × ℕ)
peek (single it) = Single.peek it
peek (paged it) = Paged.peek it
peek (scatter it) = Scatter.peek it

unfoldable pub advance : Action WriteOpIter (Unit {0})
advance (single it) = inside single Single.mark_done it
advance (paged it) = inside paged Paged.advance it
advance (scatter it) = inside scatter Scatter.advance it

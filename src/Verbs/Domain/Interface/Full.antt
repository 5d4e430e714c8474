-- ===== src/Verbs/Domain/Interface/Full.antt =====
-- A write of one request to a queue pair that has no room, in fabric-lib/src/verbs/verbs_domain.rs
-- and verbs_rdma_op.rs.
use pplx_garden_cxi.Common.{ℕ, ◌≡◌, refl, ap, ◌∙◌, false, some, arith}
use pplx_garden_cxi.Api.{
  ok, panicked, DomainAddress, WriteOp, single_write, imm_write, SingleWriteOp, ImmWriteOp,
}
use pplx_garden_cxi.Verbs.{WrChainBuffer}
use pplx_garden_cxi.Verbs.Single
use pplx_garden_cxi.Verbs.Single.{SingleWriteOpIter}
use pplx_garden_cxi.Verbs.Iter
use pplx_garden_cxi.Verbs.Iter.{WriteOpIter, single}
use pplx_garden_cxi.Verbs.Domain.Heap.{alloc}
use pplx_garden_cxi.Verbs.Domain.Host.{Host, no_memory}
use pplx_garden_cxi.Verbs.Domain.Writes.{
  WriteOpContext, move_on, on_no_memory, count_until, buffer_of, progress_rdma_write_op_context,
}
use pplx_garden_cxi.Verbs.Domain.Writes.Posting.{progress_good, post_loop-busy}
use pplx_garden_cxi.Verbs.Domain.State.{VerbsDomain, Peer, established, find_peer}
use pplx_garden_cxi.Pool.{alloc_uninit}
use pplx_garden_cxi.Verbs.Domain.Submit.{
  fresh_context, do_submit_write, construct_write, do_submit_outbound_op,
}
use pplx_garden_cxi.Verbs.Domain.Peers.{submit_outbound_op}
use pplx_garden_cxi.Verbs.Domain.Interface.{submit_write}

-- a write that is one request
pub data IsOneRequest : WriteOp → Type 0 where
  one_single : (op : SingleWriteOp) → IsOneRequest (single_write op)
  one_imm : (op : ImmWriteOp) → IsOneRequest (imm_write op)

module _ {N : Type 0} (H : Host N) where
  abbrev pub HasNoRoom : ℕ → N → Type 0
  HasNoRoom qp n = (b : WrChainBuffer) → (H.post_send qp b (some 0) n).0 ≡ no_memory 0

  post_lem :
      (it : SingleWriteOpIter) (c : WriteOpContext) (n : N)
      → c.rdma_op_iter ≡ single it
      → it.done ≡ false
      → c.bad ≡ false
      → HasNoRoom it.rma_qp n
      → (progress_rdma_write_op_context H c n).0 ≡ panicked
  unfolding on_no_memory count_until move_on Iter.advance Iter.peek Single.peek
  post_lem it c n is fresh good full =
      let look : (Iter.peek c.rdma_op_iter).0 ≡ ok (it.rma_qp, some 0, 1) =
        ground (arith, is, fresh) in
      let stuck : (on_no_memory (some 0) 0 c).0 ≡ panicked = ground (arith, is) in
      ap (λ out. out.0)
        (progress_good H c n good
          ∙ post_loop-busy H c.total_ops c n it.rma_qp 1 0 (some 0) look (omega arith)
              (full (buffer_of c.rdma_op_iter)))
      ∙ stuck

  -- the iterator of such a write
  one_lem :
      (op : WriteOp) (qp ptr : ℕ) (buf : WrChainBuffer)
      → IsOneRequest op
      → (it : SingleWriteOpIter) × (construct_write H op qp ptr buf ≡ ok (single it))
        × (it.done ≡ false)
        × (it.rma_qp ≡ qp)
  unfolding construct_write Single.new_single Single.new_imm
  one_lem op qp ptr buf (one_single s) =
      (Single.new_single H.constants s qp buf ptr, refl, refl, refl)
  one_lem op qp ptr buf (one_imm s) = (Single.new_imm H.constants s qp buf ptr, refl, refl, refl)

  submit_lem :
      (id qp : ℕ) (op : WriteOp) (d : VerbsDomain N)
      → IsOneRequest op
      → HasNoRoom qp d.nic
      → (do_submit_write H id (construct_write H op qp) d).0 ≡ panicked
  unfolding do_submit_write
  submit_lem id qp op d one full =
      let slot = (alloc d.contexts).0 in
      let wr = (alloc_uninit d.objpool_wr).0 in
      let (it, made, fresh, at) = one_lem op qp (H.slot_address slot) (H.stale_chain wr) one in
      let stops =
        post_lem it (fresh_context id (single it) wr) d.nic refl fresh refl
          (λ b. ap (λ q. (H.post_send q b (some 0) d.nic).0) at ∙ full b) in
      ground (arith, made, stops)

  -- A single or an immediate write to a peer that is connected, whose queue pair has no room for
  -- its one request: `ENOMEM`, with that request as the first that was not posted. The write is
  -- not put in the queue as the code means to: the submission panics.
  pub full_lem :
      (id : ℕ) (addr : DomainAddress) (op : WriteOp) (peer : Peer) (d : VerbsDomain N)
      → find_peer addr d.peers ≡ some peer
      → peer.state ≡ established
      → IsOneRequest op
      → HasNoRoom peer.rma_rc.qp d.nic
      → (submit_write H id addr op d).0 ≡ panicked
  unfolding submit_write submit_outbound_op do_submit_outbound_op
  full_lem id addr op peer d known up one full =
      ground (arith, known, up, submit_lem id peer.rma_rc.qp op d one full)

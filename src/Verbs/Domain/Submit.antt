-- ===== src/Verbs/Domain/Submit.antt =====
-- The queues of fabric-lib/src/verbs/verbs_domain.rs: sends, receives and writes that are posted
-- as the NIC has room.
use pplx_garden_cxi.Common.{
  ℕ, true, false, not, none, some, List, [], ◌∷◌, ◌++◌, ◌==◌, if◌then◌else◌, leb, ◌||◌,
}
use pplx_garden_cxi.Api.{
  Result, ok, err, panicked, Action, ◌>>◌, ScatterGroupWriteOp, single_write, imm_write,
  paged_write, WriteOp,
}
use pplx_garden_cxi.Pool.{Slot, alloc_uninit, free_no_drop}
use pplx_garden_cxi.Verbs.{WrChainBuffer, fill_send_op, fill_recv_op}
use pplx_garden_cxi.Verbs.Single.{new_single, new_imm}
use pplx_garden_cxi.Verbs.Paged
use pplx_garden_cxi.Verbs.Scatter
use pplx_garden_cxi.Verbs.Iter.{WriteOpIter, single, paged, scatter, total_ops}
use pplx_garden_cxi.Verbs.Domain.Heap.{alloc, write, read, modify_at, free}
use pplx_garden_cxi.Verbs.Domain.Host.{Host, posted, no_memory, refused}
use pplx_garden_cxi.Verbs.Domain.Writes.{WriteOpContext, progress_rdma_write_op_context}
use pplx_garden_cxi.Verbs.Domain.State.{
  VerbsDomain, OutboundOp, send_op, write_op, RecvOpContext, SendOpContext,
}

-- a context with an operation of which nothing is posted
abbrev pub fresh_context : ℕ → WriteOpIter → Slot → WriteOpContext
fresh_context id it wr_slot = record {
  transfer_id = id;
  rdma_op_iter = it;
  wr_chain_buffer = wr_slot;
  total_ops = total_ops it;
  cnt_posted_ops = 0;
  cnt_finished_ops = 0;
  in_queue = false;
  bad = false;
}

module _ {N : Type 0} (H : Host N) where
  -- `construct` makes the iterator, given the address of the context and the buffer as it is.
  unfoldable pub do_submit_write :
      ℕ → (ℕ → WrChainBuffer → Result WriteOpIter) → Action (VerbsDomain N) (Unit {0})
  do_submit_write id construct d =
      let (slot, contexts) = alloc d.contexts in
      let (wr_slot, objpool_wr) = alloc_uninit d.objpool_wr in
      let ptr = H.slot_address slot in
      elim (construct ptr (H.stale_chain wr_slot)) [
        | ok it ↦
            let (r, c, nic) =
              progress_rdma_write_op_context H (fresh_context id it wr_slot) d.nic in
            let queued = not (c.cnt_posted_ops == c.total_ops) in
            (
              r,
              record d {
                contexts = write ptr slot (record c { in_queue = queued }) contexts;
                objpool_wr = objpool_wr;
                write_ops = if queued then d.write_ops ++ (ptr ∷ []) else d.write_ops;
                nic = nic;
              },
            )
        | err e ↦ (err e, d)
        | panicked ↦ (panicked, d)
      ]

  abbrev ok_paged : Result Paged.PagedWriteOpIter → Result WriteOpIter
  ok_paged (ok it) = ok (paged it)
  ok_paged (err e) = err e
  ok_paged panicked = panicked

  abbrev ok_scatter : Result Scatter.ScatterWriteOpIter → Result WriteOpIter
  ok_scatter (ok it) = ok (scatter it)
  ok_scatter (err e) = err e
  ok_scatter panicked = panicked

  -- the iterator of a write to one peer, by its queue pair
  unfoldable pub construct_write : WriteOp → (rma_qp ptr : ℕ) → WrChainBuffer → Result WriteOpIter
  construct_write (single_write op) rma_qp ptr buf =
      ok (single (new_single H.constants op rma_qp buf ptr))
  construct_write (imm_write op) rma_qp ptr buf =
      ok (single (new_imm H.constants op rma_qp buf ptr))
  construct_write (paged_write op) rma_qp ptr buf =
      ok_paged (Paged.new H.constants op rma_qp buf ptr)

  unfoldable pub do_submit_outbound_op :
      ℕ → OutboundOp → (msg_qp rma_qp : ℕ) → Action (VerbsDomain N) (Unit {0})
  do_submit_outbound_op id (send_op op) msg_qp rma_qp d = (
    ok tt,
    record d {
      send_ops = d.send_ops ++ (record { transfer_id = id; msg_qp = msg_qp; op = op } ∷ []);
    },
  )
  do_submit_outbound_op id (write_op op) msg_qp rma_qp d =
      do_submit_write id (construct_write op rma_qp) d

  unfoldable pub do_submit_group_write :
      ℕ → List ℕ → ScatterGroupWriteOp → Action (VerbsDomain N) (Unit {0})
  do_submit_group_write id rma_qps op =
      do_submit_write id (λ ptr buf. ok_scatter (Scatter.new H.constants op rma_qps buf ptr))

  -- `progress_rdma_recv_ops`, on the queue that is left
  unfoldable pub progress_rdma_recv_ops : List RecvOpContext → Action (VerbsDomain N) (Unit {0})
  progress_rdma_recv_ops [] d = (ok tt, record d { recv_ops = [] })
  progress_rdma_recv_ops (ctx ∷ rest) d =
      let (r, nic) = H.post_srq_recv d.msg_srq (fill_recv_op ctx.op ctx.transfer_id) d.nic in
      let next = progress_rdma_recv_ops rest (record d { nic = nic }) in
      elim r [
        | posted ↦ next
        | no_memory bad_wr ↦ (ok tt, record d { recv_ops = ctx ∷ rest; nic = nic })
        | refused code ↦ (panicked, record d { recv_ops = ctx ∷ rest; nic = nic })
      ]

  unfoldable pub progress_rdma_send_ops : List SendOpContext → Action (VerbsDomain N) (Unit {0})
  progress_rdma_send_ops [] d = (ok tt, record d { send_ops = [] })
  progress_rdma_send_ops (ctx ∷ rest) d =
      let wr = fill_send_op H.constants ctx.op ctx.transfer_id in
      let (r, nic) = H.post_send ctx.msg_qp (λ _. wr) (some 0) d.nic in
      let next = progress_rdma_send_ops rest (record d { nic = nic }) in
      elim r [
        | posted ↦ next
        | no_memory bad_wr ↦ (ok tt, record d { send_ops = ctx ∷ rest; nic = nic })
        | refused code ↦ (panicked, record d { send_ops = ctx ∷ rest; nic = nic })
      ]

  -- the body of `maybe_drop_write_op_context`, on what is at the address
  abbrev drop_context : ℕ → WriteOpContext → VerbsDomain N → VerbsDomain N
  drop_context ptr c d =
      if not (c.cnt_finished_ops == c.cnt_posted_ops) || c.in_queue then d else record d {
        objpool_wr = free_no_drop c.wr_chain_buffer d.objpool_wr;
        contexts = free ptr d.contexts;
      }

  unfoldable pub maybe_drop_write_op_context : ℕ → Action (VerbsDomain N) (Unit {0})
  maybe_drop_write_op_context ptr d = elim (read ptr d.contexts) [
    | none ↦ (panicked, d)
    | some c ↦ (ok tt, drop_context ptr c d)
  ]

  -- `progress_rdma_write_ops`, on the queue that is left
  unfoldable pub progress_rdma_write_ops : List ℕ → Action (VerbsDomain N) (Unit {0})
  progress_rdma_write_ops [] d = (ok tt, record d { write_ops = [] })
  progress_rdma_write_ops (ptr ∷ rest) d = elim (read ptr d.contexts) [
    | none ↦ (panicked, d)
    | some c ↦ elim (leb c.cnt_finished_ops c.cnt_posted_ops) [
      | false ↦ (panicked, d)
      | true ↦ elim c.bad [
        | true ↦
            let out = record c { in_queue = false } in
            progress_rdma_write_ops rest (
              drop_context ptr out
                (record d { contexts = modify_at ptr (λ _. out) d.contexts; write_ops = rest }))
        | false ↦
            let (r, c', nic) = progress_rdma_write_op_context H c d.nic in
            let d' = record d { contexts = modify_at ptr (λ _. c') d.contexts; nic = nic } in
            elim r [
              | err e ↦ (err e, d')
              | panicked ↦ (panicked, d')
              | ok _ ↦ elim (c'.cnt_posted_ops == c'.total_ops) [
                | false ↦ (ok tt, record d' { write_ops = ptr ∷ rest })
                | true ↦ progress_rdma_write_ops rest (record d' { write_ops = rest })
              ]
            ]
      ]
    ]
  ]

  unfoldable pub progress_ops : Action (VerbsDomain N) (Unit {0})
  progress_ops =
      (λ d. progress_rdma_recv_ops d.recv_ops d)
      >> (λ d. progress_rdma_send_ops d.send_ops d)
      >> (λ d. progress_rdma_write_ops d.write_ops d)

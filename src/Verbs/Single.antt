-- ===== src/Verbs/Single.antt =====
-- `SingleWriteOpIter` of fabric-lib/src/verbs/verbs_rdma_op.rs.
use pplx_garden_cxi.Common.{ℕ, Bool, true, false, none, some}
use pplx_garden_cxi.Api.{add_u64, SingleWriteOp, ImmWriteOp}
use pplx_garden_cxi.Verbs.{Ibverbs, WrChainBuffer, write, Peeked, as_u32, opcode_imm}

pub record SingleWriteOpIter : Type 0 where
  pub rma_qp : ℕ
  pub wr_chain_buffer : WrChainBuffer
  pub done : Bool

unfoldable pub new_single :
    Ibverbs → SingleWriteOp → (rma_qp : ℕ) → WrChainBuffer → (context : ℕ) → SingleWriteOpIter
unfolding opcode_imm
new_single V op rma_qp buf context =
    let (opcode, imm) = opcode_imm V op.imm_data in
    record {
      rma_qp = rma_qp;
      wr_chain_buffer = write buf 0 (record {
        sge_addr = add_u64 op.src_ptr op.src_offset;
        sge_length = as_u32 op.length;
        sge_lkey = as_u32 op.src_desc;
        wr_id = context;
        next = none;
        has_sge = true;
        num_sge = 1;
        opcode = opcode;
        send_flags = V.signaled;
        imm_data = imm;
        remote_addr = add_u64 op.dst_ptr op.dst_offset;
        rkey = as_u32 op.dst_rkey;
      });
      done = false;
    }

-- The scatter-gather entry of the buffer is left as it is.
unfoldable pub new_imm :
    Ibverbs → ImmWriteOp → (rma_qp : ℕ) → WrChainBuffer → (context : ℕ) → SingleWriteOpIter
new_imm V op rma_qp buf context = record {
  rma_qp = rma_qp;
  wr_chain_buffer = write buf 0 (record (buf 0) {
    wr_id = context;
    next = none;
    has_sge = false;
    num_sge = 0;
    opcode = V.rdma_write_with_imm;
    send_flags = V.signaled;
    imm_data = op.imm_data;
    remote_addr = op.dst_ptr;
    rkey = as_u32 op.dst_rkey;
  });
  done = false;
}

unfoldable pub peek : SingleWriteOpIter → Peeked
peek it = elim it.done [ true ↦ (it.rma_qp, none, 0) | false ↦ (it.rma_qp, some 0, 1) ]

unfoldable pub mark_done : SingleWriteOpIter → SingleWriteOpIter
mark_done it = record it { done = true }

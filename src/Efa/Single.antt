-- ===== src/Efa/Single.antt =====
-- `SingleWriteOpIter` of fabric-lib/src/efa/efa_rdma_op.rs.
use pplx_garden_cxi.Common.{ℕ, Bool, true, false, Option, none, some}
use pplx_garden_cxi.Api.{
  Action, ◌>>=◌, ◌>>◌, gets, modify, panic_if, add_u64, SingleWriteOp, ImmWriteOp,
}
use pplx_garden_cxi.Efa.{Libfabric, RmaBuffer, flags_imm}

pub record SingleWriteOpIter : Type 0 where
  pub buf : RmaBuffer
  pub flags : ℕ
  pub done : Bool

unfoldable pub new_single : Libfabric → SingleWriteOp → (addr context : ℕ) → SingleWriteOpIter
unfolding flags_imm
new_single L op addr context =
    let (imm, flags) = flags_imm L op.imm_data in
    record {
      buf = record {
        iov = record { iov_base = add_u64 op.src_ptr op.src_offset; iov_len = op.length };
        rma_iov = record { addr = op.dst_offset; len = op.length; key = op.dst_rkey };
        msg = record {
          has_iov = true;
          desc = op.src_desc;
          iov_count = 1;
          addr = addr;
          rma_iov_count = 1;
          context = context;
          cq_data = imm;
        };
      };
      flags = flags;
      done = false;
    }

-- The vector of the buffer is left as it is.
unfoldable pub new_imm :
    Libfabric → ImmWriteOp → (addr : ℕ) → RmaBuffer → (context : ℕ) → SingleWriteOpIter
new_imm L op addr buf context = record {
  buf = record buf {
    rma_iov = record { addr = 0; len = 0; key = op.dst_rkey };
    msg = record {
      has_iov = false;
      desc = 0;
      iov_count = 0;
      addr = addr;
      rma_iov_count = 1;
      context = context;
      cq_data = op.imm_data;
    };
  };
  flags = L.remote_cq_data;
  done = false;
}

-- No message is a null pointer.
unfoldable pub peek : SingleWriteOpIter → Option (RmaBuffer × ℕ)
peek it = elim it.done [ true ↦ none | false ↦ some (it.buf, it.flags) ]

unfoldable pub mark_done : Action SingleWriteOpIter (Unit {0})
mark_done = do
  finished ← gets (λ it. it.done)
  panic_if finished
  modify (λ it. record it { done = true })

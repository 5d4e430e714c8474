-- ===== src/Verbs.antt =====
-- fabric-lib/src/verbs/verbs_rdma_op.rs: the writes of a verbs domain. This file has the work
-- requests; the iterators over those of a write stand in the children.
pub mod Single
pub mod Paged
pub mod Scatter
pub mod Iter
pub mod Address
pub mod Chain
pub mod Driven
pub mod Domain
pub mod Targets
mod Tests
use pplx_garden_cxi.Common.{ℕ, ◌%◌, ◌^◌, Bool, true, Option, none, some}
use pplx_garden_cxi.Memory.{update}
use pplx_garden_cxi.Api.{SendOp, RecvOp}

-- A work request with its scatter-gather entry. `has_sge` says whether `sg_list` points to that
-- entry or is null; `next` is the place of the next request in the buffer.
pub record WorkRequest : Type 0 where
  pub sge_addr : ℕ
  pub sge_length : ℕ
  pub sge_lkey : ℕ
  pub wr_id : ℕ
  pub next : Option ℕ
  pub has_sge : Bool
  pub num_sge : ℕ
  pub opcode : ℕ
  pub send_flags : ℕ
  pub imm_data : ℕ
  pub remote_addr : ℕ
  pub rkey : ℕ

pub record RecvRequest : Type 0 where
  pub sge_addr : ℕ
  pub sge_length : ℕ
  pub sge_lkey : ℕ
  pub wr_id : ℕ
  pub next : Option ℕ
  pub num_sge : ℕ

abbrev pub wr_chain_len : ℕ
wr_chain_len = 4

-- The array of `WR_CHAIN_LEN` requests; only the places below that length are used.
abbrev pub WrChainBuffer : Type 0
WrChainBuffer = ℕ → WorkRequest

abbrev pub write : WrChainBuffer → ℕ → WorkRequest → WrChainBuffer
write buf i wr = update buf i wr

-- the queue pair, the first request, and how many there are
abbrev pub Peeked : Type 0
Peeked = ℕ × Option ℕ × ℕ

-- constants of libibverbs
pub record Ibverbs : Type 0 where
  pub signaled : ℕ
  pub rdma_write : ℕ
  pub rdma_write_with_imm : ℕ
  pub send : ℕ

abbrev pub as_u32 : ℕ → ℕ
as_u32 n = n % 2 ^ 32

unfoldable pub opcode_imm : Ibverbs → Option ℕ → ℕ × ℕ
opcode_imm V (some imm) = (V.rdma_write_with_imm, imm)
opcode_imm V none = (V.rdma_write, 0)

unfoldable pub fill_send_op : Ibverbs → SendOp → (context : ℕ) → WorkRequest
fill_send_op V op context = record {
  sge_addr = op.ptr;
  sge_length = as_u32 op.len;
  sge_lkey = as_u32 op.desc;
  wr_id = context;
  next = none;
  has_sge = true;
  num_sge = 1;
  opcode = V.send;
  send_flags = V.signaled;
  imm_data = 0;
  remote_addr = 0;
  rkey = 0;
}

unfoldable pub fill_recv_op : RecvOp → (context : ℕ) → RecvRequest
fill_recv_op op context = record {
  sge_addr = op.ptr;
  sge_length = as_u32 op.len;
  sge_lkey = as_u32 op.desc;
  wr_id = context;
  next = none;
  num_sge = 1;
}

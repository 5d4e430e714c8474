-- ===== src/Efa.antt =====
-- fabric-lib/src/efa/efa_rdma_op.rs: the writes of a libfabric domain. This file has the buffer
-- that a write is laid out in; the iterators over the messages of a write stand in the children.
pub mod Single
pub mod Paged
pub mod Scatter
pub mod Iter
pub mod Drain
use pplx_garden_cxi.Common.{ℕ, ◌*◌, ◌%◌, ◌^◌, Bool, Option, none, some}
use pplx_garden_cxi.Api.{SendOp, RecvOp}

pub record Iovec : Type 0 where
  pub iov_base : ℕ
  pub iov_len : ℕ

pub record FiRmaIov : Type 0 where
  pub addr : ℕ
  pub len : ℕ
  pub key : ℕ

-- `has_iov` says whether `msg_iov` points to the buffer's own vector or is null; `rma_iov` always
-- points to the buffer's own.
pub record FiMsgRma : Type 0 where
  pub has_iov : Bool
  pub desc : ℕ
  pub iov_count : ℕ
  pub addr : ℕ
  pub rma_iov_count : ℕ
  pub context : ℕ
  pub cq_data : ℕ

pub record RmaBuffer : Type 0 where
  pub iov : Iovec
  pub rma_iov : FiRmaIov
  pub msg : FiMsgRma

pub record FiMsg : Type 0 where
  pub msg_iov : Iovec
  pub desc : ℕ
  pub iov_count : ℕ
  pub addr : ℕ
  pub context : ℕ
  pub cq_data : ℕ

-- The constants `FI_REMOTE_CQ_DATA` and `FI_ADDR_UNSPEC` of libfabric.
pub record Libfabric : Type 0 where
  pub remote_cq_data : ℕ
  pub addr_unspec : ℕ

-- the immediate of a message, and its flags
unfoldable pub flags_imm : Libfabric → Option ℕ → ℕ × ℕ
flags_imm L (some imm) = (imm, L.remote_cq_data)
flags_imm L none = (0, 0)

-- What a receive or a send writes to its vector and its message.
unfoldable pub fill_send_op : Libfabric → SendOp → (context : ℕ) → FiMsg
fill_send_op L op context = record {
  msg_iov = record { iov_base = op.ptr; iov_len = op.len };
  desc = op.desc;
  iov_count = 1;
  addr = L.addr_unspec;
  context = context;
  cq_data = 0;
}

unfoldable pub fill_recv_op : Libfabric → RecvOp → (context : ℕ) → FiMsg
fill_recv_op L op context = record {
  msg_iov = record { iov_base = op.ptr; iov_len = op.len };
  desc = op.desc;
  iov_count = 1;
  addr = L.addr_unspec;
  context = context;
  cq_data = 0;
}

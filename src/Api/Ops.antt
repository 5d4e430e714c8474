-- ===== src/Api/Ops.antt =====
-- fabric-lib/src/rdma_op.rs, and `DomainCompletionEntry` of fabric-lib/src/provider.rs. A local
-- descriptor is the number in `MemoryRegionLocalDescriptor`.
use pplx_garden_cxi.Common.{ℕ, Option, List, length, ◌*◌, ◌/◌, ◌%◌, ◌^◌}
use pplx_garden_cxi.Api.Error.{FabricLibError}
use pplx_garden_cxi.Api.Transfers.{ScatterTarget}

pub record SingleWriteOp : Type 0 where
  pub src_ptr : ℕ
  pub src_desc : ℕ
  pub src_offset : ℕ
  pub length : ℕ
  pub imm_data : Option ℕ
  pub dst_ptr : ℕ
  pub dst_rkey : ℕ
  pub dst_offset : ℕ

pub record ImmWriteOp : Type 0 where
  pub imm_data : ℕ
  pub dst_ptr : ℕ
  pub dst_rkey : ℕ

pub record PagedWriteOp : Type 0 where
  pub src_page_indices : List ℕ
  pub dst_page_indices : List ℕ
  pub page_indices_beg : ℕ
  pub page_indices_end : ℕ
  pub length : ℕ
  pub src_ptr : ℕ
  pub src_desc : ℕ
  pub src_stride : ℕ
  pub src_offset : ℕ
  pub dst_ptr : ℕ
  pub dst_rkey : ℕ
  pub dst_stride : ℕ
  pub dst_offset : ℕ
  pub imm_data : Option ℕ

pub data WriteOp : Type 0 where
  single_write : SingleWriteOp → WriteOp
  imm_write : ImmWriteOp → WriteOp
  paged_write : PagedWriteOp → WriteOp

-- The one case of `GroupWriteOp`.
pub record ScatterGroupWriteOp : Type 0 where
  pub domain_idx : ℕ
  pub src_ptr : ℕ
  pub src_desc : ℕ
  pub imm_data : Option ℕ
  pub dsts : List ScatterTarget
  pub dst_beg : ℕ
  pub dst_end : ℕ
  pub byte_shards : ℕ
  pub byte_shard_idx : ℕ

-- `GroupWriteOp::num_targets`
unfoldable pub num_targets : ScatterGroupWriteOp → ℕ
num_targets op = length op.dsts

pub record SendOp : Type 0 where
  pub ptr : ℕ
  pub len : ℕ
  pub desc : ℕ

pub record RecvOp : Type 0 where
  pub ptr : ℕ
  pub len : ℕ
  pub desc : ℕ

pub data DomainCompletionEntry : Type 0 where
  recv : (transfer_id data_len : ℕ) → DomainCompletionEntry
  send : (transfer_id : ℕ) → DomainCompletionEntry
  transfer : (transfer_id : ℕ) → DomainCompletionEntry
  imm_data : (imm : ℕ) → DomainCompletionEntry
  imm_count_reached : (imm : ℕ) → DomainCompletionEntry
  failed : (transfer_id : ℕ) → FabricLibError → DomainCompletionEntry

-- The bytes of a target that one byte shard has, and where they start, on 32 bits. The iterators
-- of the domains compute them when they lay out a scatter.
unfoldable pub shard_len : ℕ → ℕ → ℕ
shard_len total shards = total % 2 ^ 32 / shards

unfoldable pub shard_start : ℕ → ℕ → ℕ
shard_start len idx = (len * idx) % 2 ^ 32

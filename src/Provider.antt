-- ===== src/Provider.antt =====
-- The trait `RdmaDomain` of fabric-lib/src/provider.rs: what a group asks of one NIC. The verbs
-- and the libfabric domains implement it; the group is generic over it.
use pplx_garden_cxi.Common.{ℕ, Option, List}
use pplx_garden_cxi.Api.{
  Result, Action, DomainAddress, SendOp, RecvOp, WriteOp, ScatterGroupWriteOp,
  DomainCompletionEntry,
}

pub data Mapping : Type 0 where
  host : Mapping
  device : (device_id : ℕ) → (dmabuf_fd : Option ℕ) → Mapping

-- A region that is registered: `MemoryRegion` of fabric-lib/src/mr.rs.
pub record MemoryRegion : Type 0 where
  pub ptr : ℕ
  pub len : ℕ
  pub mapping : Mapping

pub record RdmaDomain (D : Type 0) : Type 0 where
  pub link_speed : D → ℕ
  pub addr : D → DomainAddress
  pub register_mr_local : MemoryRegion → Action D (Unit {0})
  pub register_mr_allow_remote : MemoryRegion → Action D ℕ
  pub unregister_mr : ℕ → D → D
  pub get_mem_desc : D → ℕ → Result ℕ
  pub submit_recv : ℕ → RecvOp → D → D
  pub submit_send : ℕ → DomainAddress → SendOp → D → D
  pub submit_write : ℕ → DomainAddress → WriteOp → D → D
  pub add_peer_group : ℕ → List DomainAddress → Action D (Unit {0})
  pub submit_group_write : ℕ → Option ℕ → ScatterGroupWriteOp → D → D
  pub poll_progress : D → D
  pub get_completion : D → Option DomainCompletionEntry × D

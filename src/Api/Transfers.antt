-- ===== src/Api/Transfers.antt =====
-- fabric-lib/src/api.rs: descriptors, routing, requests, completions. A `DomainAddress` is its
-- bytes; a `TransferId`, a `PeerGroupHandle` and a key are their numbers.
use pplx_garden_cxi.Common.{
  ℕ, Bool, Option, List, ◌+◌, ◌*◌, ◌^◌, ◌%◌, ◌↔◌, ◌≡◌, true, list_beq, list_beq_iff, ◌==◌, ==_iff,
}
use pplx_garden_cxi.Memory.{Memory, fetch_add}

abbrev pub DomainAddress : Type 0
DomainAddress = List ℕ

pub record MemoryRegionDescriptor : Type 0 where
  pub ptr : ℕ
  pub addr_rkey_list : List (DomainAddress × ℕ)

-- `num_shards` is a `NonZeroU8`.
pub data DomainGroupRouting : Type 0 where
  round_robin_sharded : (num_shards : ℕ) → DomainGroupRouting
  pinned : (domain_idx : ℕ) → DomainGroupRouting

pub data GroupTransferRouting : Type 0 where
  all_domains_shard_peers all_domains_shard_bytes : GroupTransferRouting
  single_domain : (domain_idx : ℕ) → GroupTransferRouting

pub record ImmTransferRequest : Type 0 where
  pub imm_data : ℕ
  pub dst_mr : MemoryRegionDescriptor
  pub routing : DomainGroupRouting

pub record BarrierTransferRequest : Type 0 where
  pub imm_data : ℕ
  pub dst_mrs : List MemoryRegionDescriptor
  pub routing : DomainGroupRouting

-- `src_mr` is the pointer in the handle.
pub record SingleTransferRequest : Type 0 where
  pub src_mr : ℕ
  pub src_offset : ℕ
  pub length : ℕ
  pub imm_data : Option ℕ
  pub dst_mr : MemoryRegionDescriptor
  pub dst_offset : ℕ
  pub routing : DomainGroupRouting

pub record PagedTransferRequest : Type 0 where
  pub length : ℕ
  pub src_mr : ℕ
  pub src_page_indices : List ℕ
  pub src_stride : ℕ
  pub src_offset : ℕ
  pub dst_mr : MemoryRegionDescriptor
  pub dst_page_indices : List ℕ
  pub dst_stride : ℕ
  pub dst_offset : ℕ
  pub imm_data : Option ℕ

pub record ScatterTarget : Type 0 where
  pub dst_mr : MemoryRegionDescriptor
  pub length : ℕ
  pub src_offset : ℕ
  pub dst_offset : ℕ

pub record ScatterTransferRequest : Type 0 where
  pub src_mr : ℕ
  pub dst_handle : Option ℕ
  pub dsts : List ScatterTarget
  pub imm_data : Option ℕ
  pub routing : GroupTransferRouting

pub data TransferRequest : Type 0 where
  imm : ImmTransferRequest → TransferRequest
  single : SingleTransferRequest → TransferRequest
  paged : PagedTransferRequest → TransferRequest
  scatter : ScatterTransferRequest → TransferRequest
  barrier : BarrierTransferRequest → TransferRequest

-- The cells of `TransferCounter`.
pub record TransferCounter : Type 0 where
  pub counter : ℕ
  pub err_counter : ℕ

-- `TransferCounter::error` and `TransferCounter::done`
unfoldable pub error : TransferCounter → Memory → Memory
unfolding fetch_add
error t m = (fetch_add t.counter 1 (fetch_add t.err_counter 1 m).1).1

unfoldable pub done : TransferCounter → Memory → Memory
unfolding fetch_add
done t m = (fetch_add t.counter 1 m).1

-- `a + b` on `u64`
abbrev pub add_u64 : ℕ → ℕ → ℕ
add_u64 a b = (a + b) % 2 ^ 64

-- `a * b` on 64 bits
abbrev pub mul_u64 : ℕ → ℕ → ℕ
mul_u64 a b = (a * b) % 2 ^ 64

-- `==` on the addresses of a peer group
abbrev pub addrs_beq : List (List DomainAddress) → List (List DomainAddress) → Bool
addrs_beq = list_beq (list_beq (list_beq ◌==◌))

pub addrs_beq_iff : (a b : List (List DomainAddress)) → (addrs_beq a b ≡ true) ↔ (a ≡ b)
addrs_beq_iff =
    list_beq_iff (list_beq (list_beq ◌==◌))
      (list_beq_iff (list_beq ◌==◌) (list_beq_iff ◌==◌ ==_iff))

-- ===== src/Group/Scatter.antt =====
-- `submit_scatter_transfer_request` of fabric-lib/src/domain_group.rs: one write to each of many
-- targets.
pub mod Cover
pub mod Submit
mod Tests
use pplx_garden_cxi.Common.{
  ℕ, ◌+◌, ◌^◌, ◌%◌, not, Option, none, some, List, [], ◌∷◌, ◌==◌, length, lookup,
}
use pplx_garden_cxi.Shard.{divide_evenly}
use pplx_garden_cxi.Api.{
  Action, pure, ◌>>=◌, ◌>>◌, gets, raise, raise_if, panic_if, modify, custom, GroupTransferRouting,
  all_domains_shard_peers, all_domains_shard_bytes, single_domain, ScatterTransferRequest,
  TransferCounter, ScatterGroupWriteOp,
}
use pplx_garden_cxi.Provider.{RdmaDomain}
use pplx_garden_cxi.Group.{DomainGroup, for_each, lift, num_domains, on_domain, track, mem_desc}

abbrev pub Ops : Type 0
Ops = List (ℕ × ScatterGroupWriteOp)

abbrev pub scatter_op :
    ScatterTransferRequest
    → (domain_idx src_desc beg end byte_shards byte_shard_idx : ℕ) → ScatterGroupWriteOp
scatter_op req domain_idx src_desc beg end byte_shards byte_shard_idx = record {
  domain_idx = domain_idx;
  src_ptr = req.src_mr;
  src_desc = src_desc;
  imm_data = req.imm_data;
  dsts = req.dsts;
  dst_beg = beg;
  dst_end = end;
  byte_shards = byte_shards;
  byte_shard_idx = byte_shard_idx;
}

module _ {D : Type 0} where
  unfoldable pub check_scatter : ScatterTransferRequest → Action (DomainGroup D) (Unit {0})
  check_scatter req = do
    raise_if (length req.dsts == 0) (custom "Empty scatter targets")
    groups ← gets (λ g. g.peer_groups)
    elim req.dst_handle [
      | none ↦ pure tt
      | some handle ↦ elim (lookup handle groups) [
        | none ↦ raise (custom "PeerGroupHandle not found")
        | some addrs ↦
            raise_if (not (length req.dsts == length addrs))
              (custom "Number of scatter targets must match the number of peer group addresses")
      ]
    ]

module _ {D : Type 0} (R : RdmaDomain D) (req : ScatterTransferRequest) where
  -- `AllDomainsShardPeers`: the domains zipped with the ranges; `i` counts the domains
  unfoldable pub peer_ops : ℕ → List D → List (ℕ × ℕ) → Action (DomainGroup D) Ops
  peer_ops i [] ranges = pure []
  peer_ops i (d ∷ ds) [] = pure []
  peer_ops i (d ∷ ds) ((beg, end) ∷ ranges) = do
    desc ← lift (R.get_mem_desc d req.src_mr)
    ops ← peer_ops (i + 1) ds ranges
    pure ((i, scatter_op req i desc beg end 1 0) ∷ ops)

  -- `AllDomainsShardBytes`; `n` is the number of all domains
  unfoldable pub byte_ops : ℕ → ℕ → List D → Action (DomainGroup D) Ops
  byte_ops n i [] = pure []
  byte_ops n i (d ∷ ds) = do
    desc ← lift (R.get_mem_desc d req.src_mr)
    ops ← byte_ops n (i + 1) ds
    pure ((i, scatter_op req i desc 0 (length req.dsts) (n % 2 ^ 32) (i % 2 ^ 32)) ∷ ops)

  unfoldable pub scatter_ops : GroupTransferRouting → Action (DomainGroup D) Ops
  scatter_ops all_domains_shard_peers = do
    n ← num_domains
    panic_if (n == 0)
    ds ← gets (λ g. g.domains)
    peer_ops 0 ds (divide_evenly (length req.dsts) n)
  scatter_ops all_domains_shard_bytes = do
    n ← num_domains
    ds ← gets (λ g. g.domains)
    byte_ops n 0 ds
  scatter_ops (single_domain idx) = do
    desc ← mem_desc R idx req.src_mr
    pure ((idx, scatter_op req idx desc 0 (length req.dsts) 1 0) ∷ [])

  unfoldable pub submit_scatter_transfer_request :
      ℕ → Option TransferCounter → Action (DomainGroup D) (Unit {0})
  submit_scatter_transfer_request id tx = do
    check_scatter req
    ops ← scatter_ops req.routing
    modify (track id (length ops) tx)
    for_each ops (λ op. on_domain op.0 (R.submit_group_write id req.dst_handle op.1))

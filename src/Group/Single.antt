-- ===== src/Group/Single.antt =====
-- `submit_single_transfer_request` of fabric-lib/src/domain_group.rs: one contiguous range of
-- bytes, cut into shards.
pub mod Placement
pub mod Submit
mod Tests
use pplx_garden_cxi.Common.{ℕ, Option, List, [], ◌∷◌, ltb, leb, length}
use pplx_garden_cxi.Shard.{shard_single_transfer}
use pplx_garden_cxi.Api.{
  Action, pure, ◌>>=◌, ◌>>◌, raise_if, modify, custom, DomainAddress, DomainGroupRouting,
  round_robin_sharded, pinned, SingleTransferRequest, TransferCounter, WriteOp, single_write,
  add_u64,
}
use pplx_garden_cxi.Provider.{RdmaDomain}
use pplx_garden_cxi.Group.{
  DomainGroup, item, num_domains, track, round_robin, check_addresses, mem_desc,
}

module _ {D : Type 0} where
  unfoldable pub num_shards : DomainGroupRouting → Action (DomainGroup D) ℕ
  num_shards (round_robin_sharded shards) = do
    n ← num_domains
    raise_if (ltb n shards) (
        custom
          "DomainGroupRouting::RoundRobinSharded.num_shards is greater than the number of domains")
    pure shards
  num_shards (pinned idx) = do
    n ← num_domains
    raise_if (leb n idx) (custom "DomainGroupRouting::Pinned.domain_idx is out of bounds")
    pure 1

  -- the domain that the next shard is made for
  unfoldable pub pick : DomainGroupRouting → Action (DomainGroup D) ℕ
  pick (round_robin_sharded shards) = round_robin 1
  pick (pinned idx) = pure idx

-- The write of one shard.
abbrev pub shard_op : SingleTransferRequest → (src_desc rkey offset len : ℕ) → WriteOp
shard_op req src_desc rkey offset len = single_write (record {
  src_ptr = req.src_mr;
  src_desc = src_desc;
  src_offset = add_u64 req.src_offset offset;
  length = len;
  imm_data = req.imm_data;
  dst_ptr = req.dst_mr.ptr;
  dst_rkey = rkey;
  dst_offset = add_u64 req.dst_offset offset;
})

module _ {D : Type 0} (R : RdmaDomain D) where
  unfoldable pub build_op :
      SingleTransferRequest → ℕ × ℕ → Action (DomainGroup D) (WriteOp × DomainAddress)
  unfolding pick
  build_op req range = do
    i ← pick req.routing
    target ← item req.dst_mr.addr_rkey_list i
    desc ← mem_desc R i req.src_mr
    pure (shard_op req desc target.1 range.0 range.1, target.0)

  unfoldable pub build_ops :
      SingleTransferRequest → List (ℕ × ℕ) → Action (DomainGroup D) (List (WriteOp × DomainAddress))
  build_ops req [] = pure []
  build_ops req (range ∷ ranges) = do
    op ← build_op req range
    ops ← build_ops req ranges
    pure (op ∷ ops)

  -- `self.domains.iter_mut().zip(rdma_ops)`: the first domains take the operations in order.
  unfoldable pub submit_zip : ℕ → List D → List (WriteOp × DomainAddress) → List D
  submit_zip id [] ops = []
  submit_zip id (d ∷ ds) [] = d ∷ ds
  submit_zip id (d ∷ ds) ((op, addr) ∷ ops) = R.submit_write id addr op d ∷ submit_zip id ds ops

  unfoldable pub submit_single_transfer_request :
      ℕ → SingleTransferRequest → Option TransferCounter → Action (DomainGroup D) (Unit {0})
  submit_single_transfer_request id req tx = do
    check_addresses req.dst_mr
    shards ← num_shards req.routing
    ops ← build_ops req (shard_single_transfer req.length shards)
    modify (track id (length ops) tx)
    modify (λ g. record g { domains = submit_zip id g.domains ops })

-- ===== src/Group/Paged.antt =====
-- `submit_paged_transfer_request` of fabric-lib/src/domain_group.rs: pages by index, a range of
-- the indices to each domain.
pub mod Placement
pub mod Submit
mod Tests
use pplx_garden_cxi.Common.{ℕ, not, Option, List, ◌==◌, length}
use pplx_garden_cxi.Shard.{divide_evenly}
use pplx_garden_cxi.Api.{
  Action, pure, ◌>>=◌, ◌>>◌, raise_if, panic_if, modify, custom, PagedTransferRequest,
  TransferCounter, WriteOp, paged_write,
}
use pplx_garden_cxi.Provider.{RdmaDomain}
use pplx_garden_cxi.Group.{
  DomainGroup, for_each, item, num_domains, on_domain, track, round_robin, check_addresses,
  mem_desc,
}

abbrev pub paged_op : PagedTransferRequest → (src_desc rkey beg end : ℕ) → WriteOp
paged_op req src_desc rkey beg end = paged_write (record {
  src_page_indices = req.src_page_indices;
  dst_page_indices = req.dst_page_indices;
  page_indices_beg = beg;
  page_indices_end = end;
  length = req.length;
  src_ptr = req.src_mr;
  src_desc = src_desc;
  src_stride = req.src_stride;
  src_offset = req.src_offset;
  dst_ptr = req.dst_mr.ptr;
  dst_rkey = rkey;
  dst_stride = req.dst_stride;
  dst_offset = req.dst_offset;
  imm_data = req.imm_data;
})

module _ {D : Type 0} (R : RdmaDomain D) where
  -- one round of the loop over the ranges
  unfoldable pub send_pages : ℕ → PagedTransferRequest → ℕ × ℕ → Action (DomainGroup D) (Unit {0})
  send_pages id req range = do
    i ← round_robin 1
    target ← item req.dst_mr.addr_rkey_list i
    desc ← mem_desc R i req.src_mr
    on_domain i (R.submit_write id target.0 (paged_op req desc target.1 range.0 range.1))

  -- `divide_evenly` divides by the number of domains.
  unfoldable pub submit_paged_transfer_request :
      ℕ → PagedTransferRequest → Option TransferCounter → Action (DomainGroup D) (Unit {0})
  submit_paged_transfer_request id req tx = do
    check_addresses req.dst_mr
    raise_if (not (length req.src_page_indices == length req.dst_page_indices))
        (custom "Length of source and destination page indices must match")
    n ← num_domains
    panic_if (n == 0)
    ranges ← pure (divide_evenly (length req.src_page_indices) n)
    modify (track id (length ranges) tx)
    for_each ranges (send_pages id req)

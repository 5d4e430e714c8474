-- ===== src/Group/Paged/Tests.antt =====
-- Three pages over two recording NICs.
use pplx_garden_cxi.Common.{◌≡◌, refl, none, [], ◌∷◌, arith}
use pplx_garden_cxi.Shard.{divide_evenly}
use pplx_garden_cxi.Api.{ok, PagedTransferRequest}
use pplx_garden_cxi.Testbed.{Nic, recorder, nic, remote}
use pplx_garden_cxi.Group.{DomainGroup, track}
use pplx_garden_cxi.Group.Posting.{post_all}
use pplx_garden_cxi.Group.Paged.{submit_paged_transfer_request}
use pplx_garden_cxi.Group.Paged.Placement.{page_plan}
use pplx_garden_cxi.Group.Paged.Submit.{submit_paged_lem}

abbrev group : DomainGroup Nic
group = record {
  domains = nic 0 ∷ nic 1 ∷ [];
  write_ops = [];
  rr_next = 1;
  next_peer_group_handle = 0;
  peer_groups = [];
}

abbrev request : PagedTransferRequest
request = record {
  length = 4096;
  src_mr = 1000;
  src_page_indices = 4 ∷ 2 ∷ 9 ∷ [];
  src_stride = 4096;
  src_offset = 0;
  dst_mr = remote 5000;
  dst_page_indices = 0 ∷ 1 ∷ 2 ∷ [];
  dst_stride = 4096;
  dst_offset = 0;
  imm_data = none;
}

submit_paged_lem_example : submit_paged_transfer_request recorder 7 request none group ≡ (
  ok tt,
  record (track 7 2 none group) {
    domains =
        post_all recorder 7
          (page_plan recorder 7 request (0 ∷ 1 ∷ []) 2 1 0 ((0, 2) ∷ (2, 3) ∷ []))
          group.domains;
    rr_next = 1;
  },
)
unfolding divide_evenly
submit_paged_lem_example =
    submit_paged_lem recorder 7 request (0 ∷ 1 ∷ []) none group (λ id addr op d. refl) (omega arith)
      refl refl (refl, (refl, tt))

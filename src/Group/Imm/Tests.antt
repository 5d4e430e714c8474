-- ===== src/Group/Imm/Tests.antt =====
-- Three immediates over two recording NICs.
use pplx_garden_cxi.Common.{◌≡◌, refl, none, List, [], ◌∷◌, arith}
use pplx_garden_cxi.Shard.{div_ceil}
use pplx_garden_cxi.Api.{ok, MemoryRegionDescriptor, round_robin_sharded, pinned, imm_write}
use pplx_garden_cxi.Testbed.{Nic, recorder, nic, remote}
use pplx_garden_cxi.Group.{DomainGroup, track}
use pplx_garden_cxi.Group.Posting.{post_all}
use pplx_garden_cxi.Group.Imm.{submit_imm_transfer_request}
use pplx_garden_cxi.Group.Imm.Plan.{imm_plan}
use pplx_garden_cxi.Group.Imm.Submit.{submit_round_robin, submit_pinned}

abbrev group : DomainGroup Nic
group = record {
  domains = nic 0 ∷ nic 1 ∷ [];
  write_ops = [];
  rr_next = 1;
  next_peer_group_handle = 0;
  peer_groups = [];
}

abbrev targets : List MemoryRegionDescriptor
targets = remote 100 ∷ remote 200 ∷ remote 300 ∷ []

-- Two immediates by NIC 1 to the addresses number 0, one by NIC 0 to the address number 1.
planned :
    imm_plan 9 2 1 2 0 targets
    ≡ (1, 0 ∷ [], imm_write (record { imm_data = 9; dst_ptr = 100; dst_rkey = 50 }))
      ∷ (1, 0 ∷ [], imm_write (record { imm_data = 9; dst_ptr = 200; dst_rkey = 50 }))
      ∷ (0, 1 ∷ [], imm_write (record { imm_data = 9; dst_ptr = 300; dst_rkey = 51 }))
      ∷ []
unfolding imm_plan
planned = refl

submit_round_robin_example :
    submit_imm_transfer_request recorder 7 9 targets (round_robin_sharded 1) none group ≡ (
      ok tt,
      record (track 7 3 none group) {
        domains = post_all recorder 7 (imm_plan 9 2 1 2 0 targets) group.domains;
        rr_next = 1;
      },
    )
unfolding div_ceil
submit_round_robin_example =
    submit_round_robin recorder 7 9 targets none group (omega arith) (omega arith) (omega arith)

submit_pinned_example : submit_imm_transfer_request recorder 7 9 targets (pinned 1) none group ≡ (
  ok tt,
  record (track 7 3 none group) {
    domains = post_all recorder 7 (imm_plan 9 2 1 3 0 targets) group.domains;
  },
)
submit_pinned_example = submit_pinned recorder 7 9 targets 1 none group (omega arith) (omega arith)

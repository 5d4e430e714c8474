-- ===== src/Group/Single/Tests.antt =====
-- One transfer of 20000 bytes over two recording NICs.
use pplx_garden_cxi.Common.{◌≡◌, refl, none, some, [], ◌∷◌, arith, get_elem?}
use pplx_garden_cxi.Shard.{shard_single_transfer}
use pplx_garden_cxi.Api.{
  ok, SingleTransferRequest, DomainGroupRouting, round_robin_sharded, pinned, single_write,
}
use pplx_garden_cxi.Testbed.{Nic, recorder, nic, remote}
use pplx_garden_cxi.Group.{DomainGroup, track}
use pplx_garden_cxi.Group.Single.{
  submit_single_transfer_request, num_shards, build_ops, build_op, pick, submit_zip,
}
use pplx_garden_cxi.Group.Single.Placement.{Registered, made_for}
use pplx_garden_cxi.Group.Single.Submit.{submit_single_round_robin, submit_single_pinned}

abbrev group : DomainGroup Nic
group = record {
  domains = nic 0 ∷ nic 1 ∷ [];
  write_ops = [];
  rr_next = 1;
  next_peer_group_handle = 0;
  peer_groups = [];
}

abbrev request : DomainGroupRouting → SingleTransferRequest
request routing = record {
  src_mr = 1000;
  src_offset = 0;
  length = 20000;
  imm_data = none;
  dst_mr = remote 5000;
  dst_offset = 64;
  routing = routing;
}

registered : Registered recorder 1000 group.domains
registered = ((0, refl), ((1, refl), tt))

-- The write pinned to NIC 1 is handed to NIC 0, with the local descriptor of NIC 1.
misplaced :
    ((submit_single_transfer_request recorder 7 (request (pinned 1)) none group).1).domains
    ≡ record (nic 0) {
      writes =
          (
            7,
            1 ∷ [],
            single_write (record {
              src_ptr = 1000;
              src_desc = 1;
              src_offset = 0;
              length = 20000;
              imm_data = none;
              dst_ptr = 5000;
              dst_rkey = 51;
              dst_offset = 64;
            }),
          )
          ∷ [];
    }
      ∷ nic 1
      ∷ []
unfolding submit_single_transfer_request num_shards build_ops build_op pick submit_zip
    shard_single_transfer
misplaced = refl

submit_single_round_robin_example :
    let (r, g') =
      submit_single_transfer_request recorder 7 (request (round_robin_sharded 2)) none group in
    let (op, addr) =
      made_for recorder (request (round_robin_sharded 2)) group.domains 1 (0, 16384) in
    (r ≡ ok tt)
    × (g'.rr_next ≡ 1)
    × (g'.write_ops ≡ (track 7 2 none group).write_ops)
    × (get_elem? g'.domains 0 ≡ some (recorder.submit_write 7 addr op (nic 0)))
unfolding shard_single_transfer
submit_single_round_robin_example =
    submit_single_round_robin recorder 7 (request (round_robin_sharded 2)) 2 0 (nic 0) (0, 16384)
      none group refl (omega arith) (omega arith) refl registered refl refl

submit_single_pinned_example :
    let (op, addr) = made_for recorder (request (pinned 1)) group.domains 1 (0, 20000) in
    submit_single_transfer_request recorder 7 (request (pinned 1)) none group ≡ (
      ok tt,
      record (track 7 1 none group) {
        domains = recorder.submit_write 7 addr op (nic 0) ∷ nic 1 ∷ [];
      },
    )
submit_single_pinned_example =
    submit_single_pinned recorder 7 (request (pinned 1)) 1 (nic 0) (nic 1 ∷ []) none group refl
      (omega arith) refl registered refl

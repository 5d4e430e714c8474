-- ===== src/Group/Scatter/Tests.antt =====
-- Three targets over two recording NICs.
use pplx_garden_cxi.Common.{ℕ, ◌≡◌, refl, none, List, [], ◌∷◌, arith, map}
use pplx_garden_cxi.Shard.{div_ceil, divide_evenly}
use pplx_garden_cxi.Shard.Pages.{Tiles}
use pplx_garden_cxi.Api.{
  ok, ScatterTarget, ScatterTransferRequest, ScatterGroupWriteOp, GroupTransferRouting,
  all_domains_shard_peers, all_domains_shard_bytes,
}
use pplx_garden_cxi.Testbed.{Nic, recorder, nic, remote}
use pplx_garden_cxi.Group.{DomainGroup, track}
use pplx_garden_cxi.Group.Scatter.{submit_scatter_transfer_request}
use pplx_garden_cxi.Group.Scatter.Cover.{peer_plan, byte_plan, Fits, hand_out}
use pplx_garden_cxi.Group.Scatter.Submit.{submit_scatter_peers, submit_scatter_bytes}

abbrev group : DomainGroup Nic
group = record {
  domains = nic 0 ∷ nic 1 ∷ [];
  write_ops = [];
  rr_next = 1;
  next_peer_group_handle = 0;
  peer_groups = [];
}

abbrev target : ℕ → ScatterTarget
target ptr = record { dst_mr = remote ptr; length = 512; src_offset = 0; dst_offset = 64 }

abbrev request : List ScatterTarget → GroupTransferRouting → ScatterTransferRequest
request targets routing = record {
  src_mr = 1000;
  dst_handle = none;
  dsts = targets;
  imm_data = none;
  routing = routing;
}

abbrev targets : List ScatterTarget
targets = target 5000 ∷ target 6000 ∷ target 7000 ∷ []

submit_scatter_peers_example :
    let req = request targets all_domains_shard_peers in
    let ops = peer_plan recorder req 0 (0 ∷ 1 ∷ []) ((0, 2) ∷ (2, 3) ∷ []) in
    (submit_scatter_transfer_request recorder req 7 none group ≡ (
      ok tt,
      record (track 7 2 none group) { domains = hand_out recorder req 7 ops group.domains },
    ))
    × Fits recorder req 0 2 ops
    × Tiles
        (div_ceil 3 2)
        0
        3
        (map (λ (op : ℕ × ScatterGroupWriteOp). (op.1.dst_beg, op.1.dst_end)) ops)
unfolding divide_evenly peer_plan
submit_scatter_peers_example =
    submit_scatter_peers recorder (request targets all_domains_shard_peers) (0 ∷ 1 ∷ []) 7 none
      group refl (omega arith) (omega arith) tt (refl, (refl, tt))

submit_scatter_bytes_example :
    let req = request targets all_domains_shard_bytes in
    let ops = byte_plan recorder req 2 0 (0 ∷ 1 ∷ []) in
    (submit_scatter_transfer_request recorder req 7 none group ≡ (
      ok tt,
      record (track 7 2 none group) { domains = hand_out recorder req 7 ops group.domains },
    ))
    × Fits recorder req 0 2 ops
submit_scatter_bytes_example =
    submit_scatter_bytes recorder (request targets all_domains_shard_bytes) (0 ∷ 1 ∷ []) 7 none
      group refl (omega arith) tt (refl, (refl, tt))

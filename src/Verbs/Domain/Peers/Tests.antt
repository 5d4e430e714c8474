-- ===== src/Verbs/Domain/Peers/Tests.antt =====
-- Peers that are connected, and that are not yet.
use pplx_garden_cxi.Common.{ℕ, ◌≡◌, refl, none, some, List, [], ◌∷◌, lookup, insert, arith}
use pplx_garden_cxi.Api.{
  ok, panicked, ◌>>◌, for_each, single_write, DomainAddress, SingleWriteOp, ScatterGroupWriteOp,
}
use pplx_garden_cxi.Verbs.Address.{to_bytes}
use pplx_garden_cxi.Verbs.Domain.Host.{PeerHandshakeInfo}
use pplx_garden_cxi.Verbs.Domain.State.{
  VerbsDomain, Peer, PeerState, connecting, established, find_peer, same_address, OutboundOp,
  write_op,
}
use pplx_garden_cxi.Verbs.Domain.Submit.{do_submit_group_write}
use pplx_garden_cxi.Verbs.Domain.Peers.{submit_outbound_op}
use pplx_garden_cxi.Verbs.Domain.Peers.Grouped.{add_peer_group, submit_group_write}
use pplx_garden_cxi.Verbs.Domain.Peers.Handshake.{handle_peer_handshake}
use pplx_garden_cxi.Verbs.Domain.Peers.Late.{late_lem}
use pplx_garden_cxi.Verbs.Domain.Peers.Groups.{no_peer, one_more, known_lem}
use pplx_garden_cxi.Verbs.Domain.Interface.{submit_write}
use pplx_garden_cxi.Verbs.Domain.Interface.Full.{one_single, full_lem}
use pplx_garden_cxi.Verbs.Domain.Testbed.{host, here, idle}

abbrev peer : PeerState → Peer
peer state = record {
  ud_addr = here;
  ah = 9;
  msg_rc = record { qp = 11; qp_num = 111; psn = 123 };
  rma_rc = record { qp = 12; qp_num = 112; psn = 456 };
  state = state;
}

abbrev its_address : DomainAddress
its_address = 5 ∷ []

abbrev with_peer : DomainAddress → PeerState → (room : ℕ) → VerbsDomain ℕ
with_peer addr state room = record (idle room) { peers = (addr, peer state) ∷ [] }

abbrev one_kilobyte : SingleWriteOp
one_kilobyte = record {
  src_ptr = 1000;
  src_desc = 3;
  src_offset = 0;
  length = 1024;
  imm_data = none;
  dst_ptr = 5000;
  dst_rkey = 51;
  dst_offset = 64;
}

full_lem_example :
    (submit_write host 31 its_address
      (single_write one_kilobyte)
      (with_peer its_address established 0)).0
    ≡ panicked
unfolding find_peer
full_lem_example =
    full_lem host 31 its_address (single_write one_kilobyte) (peer established)
      (with_peer its_address established 0) refl refl (one_single one_kilobyte) (λ b. refl)

abbrev handshake : PeerHandshakeInfo
handshake = record {
  ud_addr = here;
  lid = 513;
  gid = [];
  msg_qp_num = 211;
  msg_psn = 123;
  rma_qp_num = 212;
  rma_psn = 456;
}

abbrev first_write : ℕ × OutboundOp
first_write = (31, write_op (single_write one_kilobyte))

abbrev two_writes : List (ℕ × OutboundOp)
two_writes =
    (32, write_op (single_write one_kilobyte)) ∷ (33, write_op (single_write one_kilobyte)) ∷ []

abbrev connecting_domain : VerbsDomain ℕ
connecting_domain = with_peer (to_bytes here) (connecting (first_write ∷ []) []) 8

is_known :
    find_peer (to_bytes here) connecting_domain.peers
    ≡ some (peer (connecting (first_write ∷ []) []))
unfolding find_peer
is_known = ground (arith, same_address (to_bytes here))

late_lem_example :
    (for_each two_writes (λ s. submit_outbound_op host s.0 (to_bytes here) s.1)
        >> handle_peer_handshake host handshake)
      connecting_domain
    ≡ (handle_peer_handshake host handshake
          >> for_each two_writes (λ s. submit_outbound_op host s.0 (to_bytes here) s.1))
        connecting_domain
late_lem_example =
    late_lem host (to_bytes here) (peer established) (first_write ∷ []) two_writes handshake
      connecting_domain refl is_known refl (λ qp step n. refl)

abbrev to_one : ScatterGroupWriteOp
to_one = record {
  domain_idx = 0;
  src_ptr = 1000;
  src_desc = 3;
  imm_data = none;
  dsts = [];
  dst_beg = 0;
  dst_end = 1;
  byte_shards = 1;
  byte_shard_idx = 0;
}

abbrev still_connecting : VerbsDomain ℕ
still_connecting = with_peer its_address (connecting [] []) 8

known_lem_example :
    let d' = record still_connecting { peer_groups = insert 7 (12 ∷ []) [] } in
    (add_peer_group host 7 (its_address ∷ []) still_connecting ≡ (ok tt, d'))
    × (submit_group_write host 31 (some 7) to_one d'
        ≡ do_submit_group_write host 31 (12 ∷ []) to_one d')
unfolding find_peer lookup
known_lem_example =
    known_lem host 7 31 (its_address ∷ []) (12 ∷ []) to_one still_connecting refl refl
      (one_more its_address (peer (connecting [] [])) [] [] refl no_peer)

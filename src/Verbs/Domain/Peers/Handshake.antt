-- ===== src/Verbs/Domain/Peers/Handshake.antt =====
-- `handle_peer_handshake` of fabric-lib/src/verbs/verbs_domain.rs: the queue pairs of a peer are
-- brought up, and what waited for them is submitted.
use pplx_garden_cxi.Common.{
  set_remove, ℕ, true, false, none, some, List, [], ◌∷◌, Map, lookup, insert, erase, if◌then◌else◌,
}
use pplx_garden_cxi.Api.{
  ok, err, panicked, Action, pure, panic, ◌>>=◌, ◌>>◌, gets, modify, for_each, DomainAddress,
}
use pplx_garden_cxi.Verbs.Address.{to_bytes}
use pplx_garden_cxi.Verbs.Domain.Heap.{read, free, modify_at}
use pplx_garden_cxi.Verbs.Domain.Host.{
  Host, PeerHandshakeInfo, reset_to_init, init_to_rtr, rtr_to_rts,
}
use pplx_garden_cxi.Verbs.Domain.State.{
  VerbsDomain, Peer, connecting, established, OutboundOp, PendingGroupWriteOp, ConnectingPeerGroup,
  find_peer, set_peer,
}
use pplx_garden_cxi.Verbs.Domain.Submit.{do_submit_outbound_op, do_submit_group_write}
use pplx_garden_cxi.Verbs.Domain.Peers.{call, new_peer, was_last}

-- the groups without the queue pair, and those of them that waited for it alone
unfoldable pub settle_groups : ℕ → Map ConnectingPeerGroup → Map ConnectingPeerGroup × List ℕ
settle_groups q [] = ([], [])
settle_groups q ((handle, group) ∷ rest) =
    let (groups, handles) = settle_groups q rest in
    let group' = record group { pending_peers = set_remove q group.pending_peers } in
    (
      (handle, group') ∷ groups,
      (if was_last q group.pending_peers then handle ∷ handles else handles),
    )

module _ {N : Type 0} (H : Host N) where
  abbrev pkey_index : ℕ
  pkey_index = 0

  -- the six steps of the two queue pairs of a peer, up to the first that fails
  unfoldable pub activate : Peer → PeerHandshakeInfo → Action (VerbsDomain N) (Unit {0})
  activate peer info = do
    d ← gets (λ d. d)
    call H (H.modify_qp peer.msg_rc.qp (reset_to_init d.port_num pkey_index))
    call H (H.modify_qp peer.rma_rc.qp (reset_to_init d.port_num pkey_index))
    call H (
        H.modify_qp peer.msg_rc.qp
          (init_to_rtr d.port_num info.msg_qp_num info.msg_psn info.lid info.gid))
    call H (
        H.modify_qp peer.rma_rc.qp
          (init_to_rtr d.port_num info.rma_qp_num info.rma_psn info.lid info.gid))
    call H (H.modify_qp peer.msg_rc.qp (rtr_to_rts info.msg_psn))
    call H (H.modify_qp peer.rma_rc.qp (rtr_to_rts info.rma_psn))

  -- a group that is complete: its queue pairs are stored, and its writes submitted
  unfoldable pub promote : ℕ → Action (VerbsDomain N) (Unit {0})
  promote handle d = elim (lookup handle d.connecting_peer_groups) [
    | none ↦ (panicked, d)
    | some group ↦
        for_each group.pending_group_ops (λ op. do_submit_group_write H op.0 group.rma_qps op.1)
          (record d {
            connecting_peer_groups = erase handle d.connecting_peer_groups;
            peer_groups = insert handle group.rma_qps d.peer_groups;
          })
  ]

  abbrev submit_taken : PendingGroupWriteOp → Action (VerbsDomain N) (Unit {0})
  submit_taken pending = elim pending.op [
    | none ↦ pure tt
    | some op ↦ do_submit_group_write H pending.transfer_id pending.rma_qps op
  ]

  -- A pending group write that the queue pair `q` completes is submitted and freed. `none` at its
  -- address is a read of what was never written.
  unfoldable pub settle_pending : (q ptr : ℕ) → Action (VerbsDomain N) (Unit {0})
  settle_pending q ptr d = elim (read ptr d.pending_group_writes) [
    | none ↦ (panicked, d)
    | some pending ↦ elim (was_last q pending.pending_peers) [
      | false ↦ (
        ok tt,
        record d {
          pending_group_writes =
              modify_at ptr (λ p. record p { pending_peers = set_remove q p.pending_peers })
                d.pending_group_writes;
        },
      )
      | true ↦
          let (r, d') = submit_taken pending d in
          elim r [
            | ok _ ↦ (ok tt, record d' { pending_group_writes = free ptr d'.pending_group_writes })
            | err e ↦ (err e, d')
            | panicked ↦ (panicked, d')
          ]
    ]
  ]

  -- the groups that waited for a queue pair that is up now, and the writes with no group
  unfoldable pub settle : (q : ℕ) → List ℕ → Action (VerbsDomain N) (Unit {0})
  settle q group_writes = do
    settled ← gets (λ d. settle_groups q d.connecting_peer_groups)
    modify (λ d. record d { connecting_peer_groups = settled.0 })
    for_each settled.1 promote
    for_each group_writes (settle_pending q)

  -- what waited for a peer that is up now
  unfoldable pub release : Peer → List (ℕ × OutboundOp) → List ℕ → Action (VerbsDomain N) (Unit {0})
  release peer submits group_writes =
      for_each submits (λ s. do_submit_outbound_op H s.0 s.1 peer.msg_rc.qp peer.rma_rc.qp)
      >> settle peer.rma_rc.qp group_writes

  -- the second half of `handle_peer_handshake`: a peer that is not established yet
  unfoldable pub establish :
      DomainAddress → Peer → PeerHandshakeInfo → Action (VerbsDomain N) (Unit {0})
  establish addr peer info = do
    activate peer info
    modify (λ d. record d { peers = set_peer addr (record peer { state = established }) d.peers })
    elim peer.state [
      | established ↦ panic
      | connecting submits group_writes ↦ release peer submits group_writes
    ]

  unfoldable pub handle_peer_handshake : PeerHandshakeInfo → Action (VerbsDomain N) (Unit {0})
  handle_peer_handshake info d =
      let addr = to_bytes info.ud_addr in
      elim (find_peer addr d.peers) [
        | some peer ↦ elim peer.state [
          | established ↦ (ok tt, d)
          | connecting submits groups ↦ establish addr peer info d
        ]
        | none ↦
            let (r, d') = new_peer H addr [] [] d in
            elim r [
              | ok peer ↦ establish addr peer info d'
              | err e ↦ (err e, d')
              | panicked ↦ (panicked, d')
            ]
      ]

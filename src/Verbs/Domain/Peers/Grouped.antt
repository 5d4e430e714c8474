-- ===== src/Verbs/Domain/Peers/Grouped.antt =====
-- Groups of peers and writes to several peers, in fabric-lib/src/verbs/verbs_domain.rs.
use pplx_garden_cxi.Common.{set_insert, ℕ, Option, none, some, List, [], ◌∷◌, ◌++◌, lookup, insert}
use pplx_garden_cxi.Api.{
  Result, ok, err, panicked, Action, item, custom, DomainAddress, ScatterGroupWriteOp,
  ScatterTarget,
}
use pplx_garden_cxi.Verbs.Domain.Heap.{alloc, write}
use pplx_garden_cxi.Verbs.Domain.Host.{Host}
use pplx_garden_cxi.Verbs.Domain.State.{VerbsDomain, find_peer}
use pplx_garden_cxi.Verbs.Domain.Submit.{do_submit_group_write}
use pplx_garden_cxi.Verbs.Domain.Peers.{new_peer, push_error, report_failure}

module _ {N : Type 0} (H : Host N) where
  -- `add_peer_group`, on the addresses that are left: the queue pairs, and those of them that are
  -- waited for
  unfoldable pub reach_peers :
      List DomainAddress → (rma_qps pending : List ℕ) → Action (VerbsDomain N) (List ℕ × List ℕ)
  reach_peers [] rma_qps pending d = (ok (rma_qps, pending), d)
  reach_peers (addr ∷ addrs) rma_qps pending d = elim (find_peer addr d.peers) [
    | some peer ↦ reach_peers addrs (rma_qps ++ (peer.rma_rc.qp ∷ [])) pending d
    | none ↦
        let (r, d') = new_peer H addr [] [] d in
        elim r [
          | ok peer ↦
              reach_peers addrs (rma_qps ++ (peer.rma_rc.qp ∷ []))
                (set_insert peer.rma_rc.qp pending) d'
          | err e ↦ (err e, d')
          | panicked ↦ (panicked, d')
        ]
  ]

  abbrev store_group : ℕ → List ℕ × List ℕ → VerbsDomain N → VerbsDomain N
  store_group handle (rma_qps, []) d = record d {
    peer_groups = insert handle rma_qps d.peer_groups;
  }
  store_group handle (rma_qps, q ∷ pending) d = record d {
    connecting_peer_groups =
        insert handle
          (record { rma_qps = rma_qps; pending_peers = q ∷ pending; pending_group_ops = [] })
          d.connecting_peer_groups;
  }

  unfoldable pub add_peer_group : ℕ → List DomainAddress → Action (VerbsDomain N) (Unit {0})
  add_peer_group handle addrs d = elim (lookup handle d.connecting_peer_groups) [
    | some group ↦ (ok tt, d)
    | none ↦ elim (lookup handle d.peer_groups) [
      | some qps ↦ (ok tt, d)
      | none ↦
          let (r, d') = reach_peers addrs [] [] d in
          elim r [
            | ok reached ↦ (ok tt, store_group handle reached d')
            | err e ↦ (err e, d')
            | panicked ↦ (panicked, d')
          ]
    ]
  ]

  -- `op.peer_addr_iter()`: each target's address for the domain
  unfoldable pub peer_addrs : ℕ → List ScatterTarget → Result (List DomainAddress)
  peer_addrs i [] = ok []
  peer_addrs i (dst ∷ dsts) =
      let rest = peer_addrs i dsts in
      let (own, _) = item {S = Unit {0}} dst.dst_mr.addr_rkey_list i tt in
      elim own [
        | ok target ↦ elim rest [
          | ok as' ↦ ok (target.0 ∷ as')
          | err e ↦ err e
          | panicked ↦ panicked
        ]
        | err e ↦ err e
        | panicked ↦ panicked
      ]

  -- the slot of the pending operation, which the first new peer allocates
  abbrev pending_slot : Option (ℕ × ℕ × ℕ) → VerbsDomain N → (ℕ × ℕ × ℕ) × VerbsDomain N
  pending_slot (some at) d = (at, d)
  pending_slot none d =
      let (slot, heap) = alloc d.pending_group_writes in
      ((H.slot_address slot, slot.0, slot.1), record d { pending_group_writes = heap })

  -- The loop of `submit_group_write` over the peers of a write with no group. A peer that cannot be
  -- reached ends it (`none`).
  unfoldable pub reach_targets :
      ℕ
      → List DomainAddress
      → (rma_qps pending : List ℕ) → Option (ℕ × ℕ × ℕ)
      → Action (VerbsDomain N) (Option (List ℕ × List ℕ × Option (ℕ × ℕ × ℕ)))
  reach_targets id [] rma_qps pending ctx d = (ok (some (rma_qps, pending, ctx)), d)
  reach_targets id (addr ∷ addrs) rma_qps pending ctx d = elim (find_peer addr d.peers) [
    | some peer ↦ reach_targets id addrs (rma_qps ++ (peer.rma_rc.qp ∷ [])) pending ctx d
    | none ↦
        let (at, d₁) = pending_slot ctx d in
        let (r, d₂) = report_failure H id addr (new_peer H addr [] (at.0 ∷ []) d₁) in
        elim r [
          | ok found ↦ elim found [
            | none ↦ (ok none, d₂)
            | some peer ↦
                reach_targets id addrs (rma_qps ++ (peer.rma_rc.qp ∷ []))
                  (set_insert peer.rma_rc.qp pending) (some at) d₂
          ]
          | err e ↦ (err e, d₂)
          | panicked ↦ (panicked, d₂)
        ]
  ]

  -- what is done with the peers of a write with no group
  unfoldable pub group_or_wait :
      ℕ
      → ScatterGroupWriteOp
      → List ℕ × List ℕ × Option (ℕ × ℕ × ℕ)
      → Action (VerbsDomain N) (Unit {0})
  group_or_wait id op (rma_qps, [], ctx) d = do_submit_group_write H id rma_qps op d
  group_or_wait id op (rma_qps, q ∷ pending, none) d = (panicked, d)
  group_or_wait id op (rma_qps, q ∷ pending, some (ptr, chunk, index)) d = (
    ok tt,
    record d {
      pending_group_writes =
          write ptr (chunk, index)
            (record {
              transfer_id = id;
              op = some op;
              rma_qps = rma_qps;
              pending_peers = q ∷ pending;
            })
            d.pending_group_writes;
    },
  )

  abbrev gather :
      ℕ
      → ScatterGroupWriteOp
      → Action (VerbsDomain N) (Option (List ℕ × List ℕ × Option (ℕ × ℕ × ℕ)))
  gather id op d = elim (peer_addrs op.domain_idx op.dsts) [
    | ok addrs ↦ reach_targets id addrs [] [] none d
    | err e ↦ (err e, d)
    | panicked ↦ (panicked, d)
  ]

  unfoldable pub submit_group_write :
      ℕ → Option ℕ → ScatterGroupWriteOp → Action (VerbsDomain N) (Unit {0})
  submit_group_write id (some handle) op d = elim (lookup handle d.connecting_peer_groups) [
    | some group ↦ (
      ok tt,
      record d {
        connecting_peer_groups =
            insert handle
              (record group { pending_group_ops = group.pending_group_ops ++ ((id, op) ∷ []) })
              d.connecting_peer_groups;
      },
    )
    | none ↦ elim (lookup handle d.peer_groups) [
      | none ↦ (ok tt, push_error H id (custom "Peer group not found") d)
      | some rma_qps ↦ do_submit_group_write H id rma_qps op d
    ]
  ]
  submit_group_write id none op d =
      let (r, d') = gather id op d in
      elim r [
        | ok found ↦ elim found [
          | none ↦ (ok tt, d')
          | some reached ↦ group_or_wait id op reached d'
        ]
        | err e ↦ (err e, d')
        | panicked ↦ (panicked, d')
      ]

-- ===== src/Verbs/Domain/Peers/Order.antt =====
-- What is submitted to a peer of fabric-lib/src/verbs/verbs_domain.rs while it is connecting.
use pplx_garden_cxi.Common.{
  ℕ, ◌≡◌, sym, ap, ◌∙◌, some, List, [], ◌∷◌, ◌++◌, append_assoc, append-nil, arith,
}
use pplx_garden_cxi.Api.{ok, Action, for_each, DomainAddress}
use pplx_garden_cxi.Verbs.Address.{to_bytes}
use pplx_garden_cxi.Verbs.Domain.Host.{
  Host, PeerHandshakeInfo, QpStep, reset_to_init, init_to_rtr, rtr_to_rts,
}
use pplx_garden_cxi.Verbs.Domain.State.{
  VerbsDomain, Peer, connecting, established, OutboundOp, find_peer, set_peer, find_peer-set_peer,
  set_peer-set_peer, set_peer_known,
}
use pplx_garden_cxi.Verbs.Domain.Peers.{submit_outbound_op}
use pplx_garden_cxi.Verbs.Domain.Peers.Handshake.{
  activate, release, establish, handle_peer_handshake,
}

module _ {N : Type 0} (H : Host N) where
  abbrev pub ConnectsAll : Type 0
  ConnectsAll = (qp : ℕ) (step : QpStep) (n : N) → (H.modify_qp qp step n).0 ≡ 0

  abbrev pub moved : ℕ → QpStep → N → N
  moved qp step n = (H.modify_qp qp step n).1

  -- the NIC after the six steps of the two queue pairs of a peer
  abbrev pub connected : (msg rma port_num : ℕ) → PeerHandshakeInfo → N → N
  connected msg rma port info n =
      let n₁ = moved msg (reset_to_init port 0) n in
      let n₂ = moved rma (reset_to_init port 0) n₁ in
      let n₃ = moved msg (init_to_rtr port info.msg_qp_num info.msg_psn info.lid info.gid) n₂ in
      let n₄ = moved rma (init_to_rtr port info.rma_qp_num info.rma_psn info.lid info.gid) n₃ in
      let n₅ = moved msg (rtr_to_rts info.msg_psn) n₄ in moved rma (rtr_to_rts info.rma_psn) n₅

  activate_lem :
      (peer : Peer) (info : PeerHandshakeInfo) (d : VerbsDomain N)
      → ConnectsAll
      → activate H peer info d
        ≡ (ok tt, record d { nic = connected peer.msg_rc.qp peer.rma_rc.qp d.port_num info d.nic })
  unfolding activate
  activate_lem peer info d up =
      let msg = peer.msg_rc.qp in
      let rma = peer.rma_rc.qp in
      let port = d.port_num in
      let s₁ = reset_to_init port 0 in
      let s₃ = init_to_rtr port info.msg_qp_num info.msg_psn info.lid info.gid in
      let s₄ = init_to_rtr port info.rma_qp_num info.rma_psn info.lid info.gid in
      let n₁ = moved msg s₁ d.nic in
      let n₂ = moved rma s₁ n₁ in
      let n₃ = moved msg s₃ n₂ in
      let n₄ = moved rma s₄ n₃ in
      let n₅ = moved msg (rtr_to_rts info.msg_psn) n₄ in
      ground (
        arith,
        up msg s₁ d.nic,
        up rma s₁ n₁,
        up msg s₃ n₂,
        up rma s₄ n₃,
        up msg (rtr_to_rts info.msg_psn) n₄,
        up rma (rtr_to_rts info.rma_psn) n₅,
      )

module _ {N : Type 0} (H : Host N) (addr : DomainAddress) where
  abbrev pub waiting : Peer → List (ℕ × OutboundOp) → List ℕ → Peer
  waiting peer submits groups = record peer { state = connecting submits groups }

  abbrev pub with_peer : Peer → VerbsDomain N → VerbsDomain N
  with_peer peer d = record d { peers = set_peer addr peer d.peers }

  abbrev pub submit_all : List (ℕ × OutboundOp) → Action (VerbsDomain N) (Unit {0})
  submit_all ops = for_each ops (λ s. submit_outbound_op H s.0 addr s.1)

  one_lem :
      (id : ℕ) (op : OutboundOp) (peer : Peer) (submits : List (ℕ × OutboundOp)) (groups : List ℕ)
      (d : VerbsDomain N)
      → find_peer addr d.peers ≡ some (waiting peer submits groups)
      → submit_outbound_op H id addr op d
        ≡ (ok tt, with_peer (waiting peer (submits ++ ((id, op) ∷ [])) groups) d)
  unfolding submit_outbound_op
  one_lem id op peer submits groups d known = ground (arith, known)

  pub wait_lem :
      (ops submits : List (ℕ × OutboundOp)) (peer : Peer) (groups : List ℕ) (d : VerbsDomain N)
      → find_peer addr d.peers ≡ some (waiting peer submits groups)
      → submit_all ops d ≡ (ok tt, with_peer (waiting peer (submits ++ ops) groups) d)
  unfolding for_each
  wait_lem [] submits peer groups d known =
      ap (λ ps. (ok tt, record d { peers = ps }))
        (sym (set_peer_known addr (waiting peer submits groups) d.peers known))
      ∙ ap (λ ss. (ok tt, with_peer (waiting peer ss groups) d)) (sym (append-nil submits))
  wait_lem ((id, op) ∷ ops) submits peer groups d known =
      let more = submits ++ ((id, op) ∷ []) in
      let one = one_lem id op peer submits groups d known in
      let found = find_peer-set_peer addr (waiting peer more groups) d.peers in
      let next : submit_all ((id, op) ∷ ops) d
          ≡ submit_all ops (with_peer (waiting peer more groups) d) =
        ground (arith, one) in
      next
      ∙ wait_lem ops more peer groups (with_peer (waiting peer more groups) d) found
      ∙ ap (λ ps. (ok tt, record d { peers = ps }))
          (set_peer-set_peer addr (waiting peer (more ++ ops) groups) (waiting peer more groups)
            d.peers)
      ∙ ap (λ ss. (ok tt, with_peer (waiting peer ss groups) d))
          (append_assoc submits ((id, op) ∷ []) ops)

  pub shake_lem :
      (peer : Peer) (submits : List (ℕ × OutboundOp)) (groups : List ℕ) (info : PeerHandshakeInfo)
      (d : VerbsDomain N)
      → to_bytes info.ud_addr ≡ addr
      → find_peer addr d.peers ≡ some (waiting peer submits groups)
      → ConnectsAll H
      → handle_peer_handshake H info d
        ≡ release H (waiting peer submits groups) submits groups (record d {
          nic = connected H peer.msg_rc.qp peer.rma_rc.qp d.port_num info d.nic;
          peers = set_peer addr (record peer { state = established }) d.peers;
        })
  unfolding handle_peer_handshake establish
  shake_lem peer submits groups info d here known up =
      let steps = activate_lem H (waiting peer submits groups) info d up in
      ground (arith, here, known, steps)

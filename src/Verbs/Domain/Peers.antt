-- ===== src/Verbs/Domain/Peers.antt =====
-- The peers of fabric-lib/src/verbs/verbs_domain.rs: how a connection is made, and what waits for
-- it.
pub mod Handshake
pub mod Grouped
pub mod Order
pub mod Late
pub mod Groups
mod Tests
use pplx_garden_cxi.Common.{
  set_has, set_insert, set_remove, ℕ, ◌+◌, Bool, true, false, not, Option, none, some, List, [],
  ◌∷◌, ◌++◌, ◌==◌, if◌then◌else◌, Map, lookup, insert, erase, map,
}
use pplx_garden_cxi.Memory.{Memory}
use pplx_garden_cxi.Api.{
  Result, ok, err, panicked, Action, pure, raise, panic, ◌>>=◌, ◌>>◌, gets, modify, for_each, item,
  custom, verbs, domain, failed, FabricLibError, DomainAddress, SendOp, WriteOp, RecvOp,
  ScatterGroupWriteOp, ScatterTarget,
}
use pplx_garden_cxi.Verbs.Address.{VerbsUdAddress, to_bytes, from_bytes}
use pplx_garden_cxi.Verbs.Domain.Heap.{Heap, alloc, write, read, free}
use pplx_garden_cxi.Verbs.Domain.Host.{
  Host, RcQueuePair, PeerHandshakeInfo, QpStep, reset_to_init, init_to_rtr, rtr_to_rts,
}
use pplx_garden_cxi.Verbs.Domain.State.{
  VerbsDomain, Peer, PeerState, connecting, established, OutboundOp, send_op, write_op,
  PendingGroupWriteOp, ConnectingPeerGroup, find_peer, set_peer,
}
use pplx_garden_cxi.Verbs.Domain.Submit.{do_submit_outbound_op, do_submit_group_write}

abbrev pub is_empty {ℓ} : {A : Type ℓ} → List A → Bool
is_empty [] = true
is_empty (x ∷ xs) = false

-- `pending.remove(&q) && pending.is_empty()`
abbrev pub was_last : ℕ → List ℕ → Bool
was_last q pending = if set_has q pending then is_empty (set_remove q pending) else false

module _ {N : Type 0} (H : Host N) where
  -- a call that returns a code
  abbrev pub call : (N → ℕ × N) → Action (VerbsDomain N) (Unit {0})
  call f d =
      let (code, nic) = f d.nic in
      (if code == 0 then ok tt else err (verbs code), record d { nic = nic })

  abbrev pub create : {A : Type 0} → (N → Option A × N) → Action (VerbsDomain N) A
  create f d =
      let (r, nic) = f d.nic in
      elim r [
        | none ↦ (err (verbs (H.last_os_error nic)), record d { nic = nic })
        | some a ↦ (ok a, record d { nic = nic })
      ]

  abbrev or_raise : {A : Type 0} → FabricLibError → Option A → Action (VerbsDomain N) A
  or_raise e none = raise e
  or_raise e (some a) = pure a

  -- the chunk that the memory pool gives, if any
  unfoldable pub ud_alloc : Action (VerbsDomain N) ℕ
  ud_alloc d = elim d.ud_buffers [
    | [] ↦ (err (custom "Failed to allocate UD message buffer"), d)
    | buf ∷ rest ↦ (ok buf, record d { ud_buffers = rest })
  ]

  unfoldable pub post_ud_recv : ℕ → Action (VerbsDomain N) (Unit {0})
  post_ud_recv buf = do
    d ← gets (λ d. d)
    call (H.post_ud_recv d.ud_qp buf d.ud_chunk_size d.ud_mempool_lkey)

  unfoldable pub post_imm_recv : Action (VerbsDomain N) (Unit {0})
  post_imm_recv = do d ← gets (λ d. d); call (H.post_imm_recv d.rma_srq)

  unfoldable pub ud_send :
      VerbsUdAddress → (ah buf : ℕ) → PeerHandshakeInfo → Action (VerbsDomain N) (Unit {0})
  ud_send peer_addr ah buf msg = do
    d ← gets (λ d. d)
    bytes ← or_raise (custom "Failed to serialize UD message") (H.encode d.ud_chunk_size msg)
    call (H.post_ud_send d.ud_qp buf ah peer_addr.qp_num peer_addr.qkey bytes)

  abbrev pub msg_psn : ℕ
  msg_psn = 123

  abbrev pub rma_psn : ℕ
  rma_psn = 456

  unfoldable pub create_peer :
      DomainAddress → List (ℕ × OutboundOp) → List ℕ → Action (VerbsDomain N) Peer
  create_peer addr pending_submits pending_group_write_ops = do
    ud_addr ← or_raise (custom "Invalid peer address") (from_bytes addr)
    d ← gets (λ d. d)
    msg ← create (H.create_rc_qp d.msg_srq msg_psn)
    rma ← create (H.create_rc_qp d.rma_srq rma_psn)
    ah ← create (H.create_ah ud_addr)
    pure (record {
      ud_addr = ud_addr;
      ah = ah;
      msg_rc = record { qp = msg.0; qp_num = msg.1; psn = msg_psn };
      rma_rc = record { qp = rma.0; qp_num = rma.1; psn = rma_psn };
      state = connecting pending_submits pending_group_write_ops;
    })

  unfoldable pub connect_peer : Peer → ℕ → Action (VerbsDomain N) (Unit {0})
  connect_peer peer buf = do
    d ← gets (λ d. d)
    ud_send peer.ud_addr peer.ah buf (record {
      ud_addr = d.ud_addr;
      lid = d.lid;
      gid = d.gid;
      msg_qp_num = peer.msg_rc.qp_num;
      msg_psn = peer.msg_rc.psn;
      rma_qp_num = peer.rma_rc.qp_num;
      rma_psn = peer.rma_rc.psn;
    })

  -- A peer that is not known yet: it is stored before the handshake is sent.
  unfoldable pub new_peer :
      DomainAddress → List (ℕ × OutboundOp) → List ℕ → Action (VerbsDomain N) Peer
  new_peer addr pending_submits pending_group_write_ops = do
    peer ← create_peer addr pending_submits pending_group_write_ops
    modify (λ d. record d { peers = set_peer addr peer d.peers })
    buf ← ud_alloc
    connect_peer peer buf
    pure peer

  -- an `Error` for the caller in the queue of completions
  abbrev pub push_error : ℕ → FabricLibError → VerbsDomain N → VerbsDomain N
  push_error id e d = record d { completions = d.completions ++ (failed id e ∷ []) }

  -- `if let Err(e) = res`: the failure to reach a peer is told to the caller
  abbrev pub report_failure :
      ℕ → DomainAddress → Result Peer × VerbsDomain N → Result (Option Peer) × VerbsDomain N
  report_failure id addr (ok peer, d) = (ok (some peer), d)
  report_failure id addr (err e, d) =
      (ok none, push_error id (domain (H.failed_to_create addr e)) d)
  report_failure id addr (panicked, d) = (panicked, d)

  unfoldable pub submit_outbound_op :
      ℕ → DomainAddress → OutboundOp → Action (VerbsDomain N) (Unit {0})
  submit_outbound_op id addr op d = elim (find_peer addr d.peers) [
    | some peer ↦ elim peer.state [
      | established ↦ do_submit_outbound_op H id op peer.msg_rc.qp peer.rma_rc.qp d
      | connecting submits groups ↦ (
        ok tt,
        record d {
          peers =
              set_peer addr (record peer { state = connecting (submits ++ ((id, op) ∷ [])) groups })
                d.peers;
        },
      )
    ]
    | none ↦
        let (r, d') = report_failure id addr (new_peer addr ((id, op) ∷ []) [] d) in
        elim r [ ok _ ↦ (ok tt, d') | err e ↦ (err e, d') | panicked ↦ (panicked, d') ]
  ]

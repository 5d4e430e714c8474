-- ===== src/Verbs/Domain/State.antt =====
-- The fields of `VerbsDomain` in fabric-lib/src/verbs/verbs_domain.rs.
use pplx_garden_cxi.Common.{
  ℕ, Option, none, some, List, [], ◌∷◌, Map, ◌==◌, list_beq, list_beq_iff, ==_iff, ◌≡◌, refl, arith,
  Bool-cases, true, inl, inr, if◌then◌else◌,
}
use pplx_garden_cxi.Memory.{Memory}
use pplx_garden_cxi.Imm.{ImmCountMap}
use pplx_garden_cxi.Api.{
  DomainAddress, SendOp, RecvOp, WriteOp, ScatterGroupWriteOp, DomainCompletionEntry,
}
use pplx_garden_cxi.Pool.{ObjectPool}
use pplx_garden_cxi.Verbs.Address.{VerbsUdAddress}
use pplx_garden_cxi.Verbs.Domain.Heap.{Heap}
use pplx_garden_cxi.Verbs.Domain.Host.{RcQueuePair, IbvMr}
use pplx_garden_cxi.Verbs.Domain.Writes.{WriteOpContext}

pub data OutboundOp : Type 0 where
  send_op : SendOp → OutboundOp
  write_op : WriteOp → OutboundOp

-- A pending group write is named by its address.
pub data PeerState : Type 0 where
  connecting :
      (pending_submits : List (ℕ × OutboundOp)) → (pending_group_write_ops : List ℕ) → PeerState
  established : PeerState

pub record Peer : Type 0 where
  pub ud_addr : VerbsUdAddress
  pub ah : ℕ
  pub msg_rc : RcQueuePair
  pub rma_rc : RcQueuePair
  pub state : PeerState

-- Queue pairs are their handles; a set of them is a list.
pub record PendingGroupWriteOp : Type 0 where
  pub transfer_id : ℕ
  pub op : Option ScatterGroupWriteOp
  pub rma_qps : List ℕ
  pub pending_peers : List ℕ

pub record ConnectingPeerGroup : Type 0 where
  pub rma_qps : List ℕ
  pub pending_peers : List ℕ
  pub pending_group_ops : List (ℕ × ScatterGroupWriteOp)

pub record RecvOpContext : Type 0 where
  pub transfer_id : ℕ
  pub op : RecvOp

pub record SendOpContext : Type 0 where
  pub transfer_id : ℕ
  pub msg_qp : ℕ
  pub op : SendOp

-- `ud_buffers` is the free list of the memory pool, its next chunk first. `N` is the NIC's state;
-- the table of immediates and its memory are shared with the other domains.
pub record VerbsDomain (N : Type 0) : Type 0 where
  pub port_num : ℕ
  pub lid : ℕ
  pub gid : List ℕ
  pub link_speed : ℕ
  pub ud_qp : ℕ
  pub ud_qp_num : ℕ
  pub ud_addr : VerbsUdAddress
  pub msg_srq : ℕ
  pub rma_srq : ℕ
  pub addr : DomainAddress
  pub peers : List (DomainAddress × Peer)
  pub connecting_peer_groups : Map ConnectingPeerGroup
  pub peer_groups : Map (List ℕ)
  pub local_mr_map : Map IbvMr
  pub imm_count_map : ImmCountMap
  pub memory : Memory
  pub contexts : Heap WriteOpContext
  pub objpool_wr : ObjectPool
  pub pending_group_writes : Heap PendingGroupWriteOp
  pub recv_ops : List RecvOpContext
  pub send_ops : List SendOpContext
  pub write_ops : List ℕ
  pub completions : List DomainCompletionEntry
  pub ud_buffers : List ℕ
  pub ud_chunk_size : ℕ
  pub ud_mempool_lkey : ℕ
  pub nic : N

-- `peers.get` and `peers.insert`
unfoldable pub find_peer : DomainAddress → List (DomainAddress × Peer) → Option Peer
find_peer addr [] = none
find_peer addr ((a, peer) ∷ rest) = if list_beq ◌==◌ a addr then some peer else find_peer addr rest

unfoldable pub set_peer :
    DomainAddress → Peer → List (DomainAddress × Peer) → List (DomainAddress × Peer)
set_peer addr peer [] = (addr, peer) ∷ []
set_peer addr peer ((a, old) ∷ rest) =
    let kept = set_peer addr peer rest in
    if list_beq ◌==◌ a addr then (a, peer) ∷ rest else (a, old) ∷ kept

pub same_address : (a : DomainAddress) → list_beq ◌==◌ a a ≡ true
same_address a = (list_beq_iff ◌==◌ ==_iff a a).1 refl

pub find_peer-set_peer :
    (addr : DomainAddress) (peer : Peer) (peers : List (DomainAddress × Peer))
    → find_peer addr (set_peer addr peer peers) ≡ some peer
unfolding find_peer set_peer
find_peer-set_peer addr peer [] = ground (arith, same_address addr)
find_peer-set_peer addr peer ((a, old) ∷ rest) = ground (arith, find_peer-set_peer addr peer rest)

pub set_peer-set_peer :
    (addr : DomainAddress) (new old : Peer) (peers : List (DomainAddress × Peer))
    → set_peer addr new (set_peer addr old peers) ≡ set_peer addr new peers
unfolding set_peer
set_peer-set_peer addr new old [] = ground (arith, same_address addr)
set_peer-set_peer addr new old ((a, was) ∷ rest) =
    ground (arith, set_peer-set_peer addr new old rest)

pub set_peer_known :
    (addr : DomainAddress) (peer : Peer) (peers : List (DomainAddress × Peer))
    → find_peer addr peers ≡ some peer
    → set_peer addr peer peers ≡ peers
unfolding find_peer set_peer
set_peer_known addr peer [] e = absurd (no e)
  where
    no : none ≡ some peer → ⊥
    no h = cc
set_peer_known addr peer ((a, old) ∷ rest) e = elim (Bool-cases (list_beq ◌==◌ a addr)) [
  | inl same ↦
      let found : some old ≡ some peer = rw same at e in
      let what : old ≡ peer = cc in ground (arith, same, what)
  | inr other ↦ ground (arith, other, set_peer_known addr peer rest (rw other at e))
]

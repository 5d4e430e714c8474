-- ===== src/Verbs/Domain/Host.antt =====
-- What fabric-lib/src/verbs/verbs_domain.rs and verbs_qp.rs ask of code that is not the
-- repository's: libibverbs, postcard, and the addresses of the allocator.
use Prim.Native.String.{String}
use pplx_garden_cxi.Common.{ℕ, Option, List}
use pplx_garden_cxi.Api.{FabricLibError, DomainAddress}
use pplx_garden_cxi.Pool.{Slot}
use pplx_garden_cxi.Verbs.{Ibverbs, WrChainBuffer, RecvRequest}
use pplx_garden_cxi.Verbs.Address.{VerbsUdAddress}

-- What a call that posts returns: 0, `ENOMEM` with the place of the first request that was not
-- posted, or any other code.
pub data PostResult : Type 0 where
  posted : PostResult
  no_memory : (bad_wr : ℕ) → PostResult
  refused : (code : ℕ) → PostResult

-- A reliable queue pair: its handle, and its number and packet sequence number.
pub record RcQueuePair : Type 0 where
  pub qp : ℕ
  pub qp_num : ℕ
  pub psn : ℕ

pub record PeerHandshakeInfo : Type 0 where
  pub ud_addr : VerbsUdAddress
  pub lid : ℕ
  pub gid : List ℕ
  pub msg_qp_num : ℕ
  pub msg_psn : ℕ
  pub rma_qp_num : ℕ
  pub rma_psn : ℕ

-- a completion of libibverbs
pub data WcStatus : Type 0 where
  success : WcStatus
  failure : (code : ℕ) → WcStatus

pub data WcOpcode : Type 0 where
  wc_recv wc_send wc_rdma_write wc_recv_rdma_with_imm wc_other : WcOpcode

pub record IbvWc : Type 0 where
  pub qp_num : ℕ
  pub status : WcStatus
  pub opcode : WcOpcode
  pub wr_id : ℕ
  pub byte_len : ℕ
  pub imm_data : ℕ

pub data Access : Type 0 where
  local_write remote_read remote_write relaxed_ordering : Access

-- a registered region: its handle and its keys
pub record IbvMr : Type 0 where
  pub mr : ℕ
  pub lkey : ℕ
  pub rkey : ℕ

-- The steps of a queue pair's state, with the attributes that the domain chooses.
pub data QpStep : Type 0 where
  reset_to_init : (port_num pkey_index : ℕ) → QpStep
  init_to_rtr : (port_num dest_qp_num rq_psn peer_lid : ℕ) → (peer_gid : List ℕ) → QpStep
  rtr_to_rts : (sq_psn : ℕ) → QpStep

-- `N` is the state of the NIC. A call that returns a code returns 0 on success.
pub record Host (N : Type 0) : Type 0 where
  pub constants : Ibverbs
  pub slot_address : Slot → ℕ
  pub stale_chain : Slot → WrChainBuffer
  pub post_send : (qp : ℕ) → WrChainBuffer → Option ℕ → N → PostResult × N
  pub post_srq_recv : (srq : ℕ) → RecvRequest → N → PostResult × N
  pub post_imm_recv : (srq : ℕ) → N → ℕ × N
  pub post_ud_recv : (qp buf length lkey : ℕ) → N → ℕ × N
  pub post_ud_send : (qp buf ah remote_qpn remote_qkey : ℕ) → List ℕ → N → ℕ × N
  pub create_rc_qp : (srq psn : ℕ) → N → Option (ℕ × ℕ) × N
  pub create_ah : VerbsUdAddress → N → Option ℕ × N
  pub modify_qp : (qp : ℕ) → QpStep → N → ℕ × N
  pub reg_mr : (ptr len : ℕ) → List Access → N → Option IbvMr × N
  pub reg_dmabuf_mr : (len iova fd : ℕ) → List Access → N → Option IbvMr × N
  pub dereg_mr : (mr : ℕ) → N → N
  pub poll_cq : (limit : ℕ) → N → Option (List IbvWc) × N
  pub wc_status_str : ℕ → String
  pub last_os_error : N → ℕ
  pub encode : (limit : ℕ) → PeerHandshakeInfo → Option (List ℕ)
  pub received : (buf len : ℕ) → N → Option PeerHandshakeInfo
  pub failed_to_create : DomainAddress → FabricLibError → String

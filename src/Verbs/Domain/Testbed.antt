-- ===== src/Verbs/Domain/Testbed.antt =====
-- A domain on a NIC that has room for a number of calls, for the tests of the children.
use pplx_garden_cxi.Common.{
  ℕ, zero, suc, ◌+◌, ◌*◌, refl, inl, inr, false, Option, none, some, [], ◌∷◌,
}
use pplx_garden_cxi.Pool.{ObjectPool}
use pplx_garden_cxi.Verbs.{Ibverbs, WrChainBuffer}
use pplx_garden_cxi.Verbs.Address.{VerbsUdAddress, to_bytes}
use pplx_garden_cxi.Verbs.Domain.Host.{Host, PostResult, posted, no_memory}
use pplx_garden_cxi.Verbs.Domain.Writes.Counting.{nth_wr}
use pplx_garden_cxi.Verbs.Domain.Writes.Handed.{IsVerbs}
use pplx_garden_cxi.Verbs.Domain.State.{VerbsDomain}

abbrev pub verbs : Ibverbs
verbs = record { signaled = 2; rdma_write = 0; rdma_write_with_imm = 1; send = 3 }

abbrev pub unwritten : WrChainBuffer
unwritten i = record {
  sge_addr = 0;
  sge_length = 0;
  sge_lkey = 0;
  wr_id = 0;
  next = none;
  has_sge = false;
  num_sge = 0;
  opcode = 0;
  send_flags = 0;
  imm_data = 0;
  remote_addr = 0;
  rkey = 0;
}

-- A call posts its whole chain, or none of it when there is no room.
abbrev pub post : ℕ → PostResult × ℕ
post zero = (no_memory 0, 0)
post (suc room) = (posted, room)

abbrev pub post_chain : WrChainBuffer → Option ℕ → ℕ → PostResult × ℕ
post_chain b head zero = (no_memory (elim head [ none ↦ 0 | some i ↦ i ]), 0)
post_chain b head (suc room) = (posted, room)

abbrev pub host : Host ℕ
host = record {
  constants = verbs;
  slot_address = λ slot. 1 + slot.0 * 64 + slot.1;
  stale_chain = λ slot. unwritten;
  post_send = λ qp b head n. post_chain b head n;
  post_srq_recv = λ srq wr n. post n;
  post_imm_recv = λ srq n. (0, n);
  post_ud_recv = λ qp buf length lkey n. (0, n);
  post_ud_send = λ qp buf ah qpn qkey bytes n. (0, n);
  create_rc_qp = λ srq psn n. (some (7, 8), n);
  create_ah = λ addr n. (some 9, n);
  modify_qp = λ qp step n. (0, n);
  reg_mr = λ ptr len access n. (some (record { mr = ptr; lkey = 1; rkey = 2 }), n);
  reg_dmabuf_mr = λ len iova fd access n. (none, n);
  dereg_mr = λ mr n. n;
  poll_cq = λ limit n. (some [], n);
  wc_status_str = λ code. "flushed";
  last_os_error = λ n. 12;
  encode = λ limit info. some [];
  received = λ buf len n. none;
  failed_to_create = λ addr e. "unreachable";
}

pub host-IsVerbs : IsVerbs host
unfolding nth_wr
host-IsVerbs qp b i zero = inr (0, i, refl, refl)
host-IsVerbs qp b i (suc n) = inl refl

abbrev pub pool : ObjectPool
pool = record { chunks = 1; chunk_size = 64; next_in_last = 1; free_list = [] }

abbrev pub here : VerbsUdAddress
here = record {
  gid = 254 ∷ 128 ∷ 0 ∷ 0 ∷ 0 ∷ 0 ∷ 0 ∷ 0 ∷ 1 ∷ 2 ∷ 3 ∷ 4 ∷ 5 ∷ 6 ∷ 7 ∷ 8 ∷ [];
  lid = 513;
  qp_num = 70000;
  qkey = 286331153;
}

abbrev pub idle : (room : ℕ) → VerbsDomain ℕ
idle room = record {
  port_num = 1;
  lid = 4;
  gid = [];
  link_speed = 400;
  ud_qp = 1;
  ud_qp_num = 2;
  ud_addr = here;
  msg_srq = 3;
  rma_srq = 4;
  addr = to_bytes here;
  peers = [];
  connecting_peer_groups = [];
  peer_groups = [];
  local_mr_map = [];
  imm_count_map = [];
  memory = record { next_cell = 0; cell = λ _. 0; flag = λ _. false };
  contexts = record { pool = pool; objects = [] };
  objpool_wr = pool;
  pending_group_writes = record { pool = pool; objects = [] };
  recv_ops = [];
  send_ops = [];
  write_ops = [];
  completions = [];
  ud_buffers = [];
  ud_chunk_size = 128;
  ud_mempool_lkey = 1;
  nic = room;
}

-- ===== src/Efa/Scatter.antt =====
-- `ScatterWriteOpIter` of fabric-lib/src/efa/efa_rdma_op.rs: a message for each target.
use pplx_garden_cxi.Common.{
  ℕ, ◌+◌, ◌-◌, true, not, Option, none, some, List, ◌==◌, ltb, leb, if◌then◌else◌, length,
}
use pplx_garden_cxi.Api.{
  Result, ok, err, panicked, Action, pure, ◌>>=◌, ◌>>◌, gets, modify, panic_if, item, add_u64,
  ScatterTarget, ScatterGroupWriteOp, shard_len, shard_start,
}
use pplx_garden_cxi.Efa.{Libfabric, RmaBuffer, flags_imm}

pub record ScatterWriteOpIter : Type 0 where
  pub addrs : List ℕ
  pub buf : RmaBuffer
  pub flags : ℕ
  pub domain_idx : ℕ
  pub src_ptr : ℕ
  pub dsts : List ScatterTarget
  pub dst_beg : ℕ
  pub dst_end : ℕ
  pub byte_shards : ℕ
  pub byte_shard_idx : ℕ
  pub i_dst : ℕ

-- the message of the target at `i_dst`
unfoldable pub fill_msg : Action ScatterWriteOpIter (Unit {0})
unfolding shard_len shard_start
fill_msg = do
  i ← gets (λ it. it.i_dst)
  dsts ← gets (λ it. it.dsts)
  dst ← item dsts i
  shards ← gets (λ it. it.byte_shards)
  panic_if (shards == 0)
  addrs ← gets (λ it. it.addrs)
  addr ← item addrs i
  domain ← gets (λ it. it.domain_idx)
  target ← item dst.dst_mr.addr_rkey_list domain
  modify (λ it.
      let len = shard_len dst.length shards in
      let offset = shard_start len it.byte_shard_idx in
      record it {
        buf = record {
          iov = record {
            iov_base = add_u64 it.src_ptr (add_u64 dst.src_offset offset);
            iov_len = len;
          };
          rma_iov = record { addr = add_u64 dst.dst_offset offset; len = len; key = target.1 };
          msg = record it.buf.msg { addr = addr };
        };
      })

-- The iterator before its first message is filled, on the buffer as it is.
abbrev pub started :
    Libfabric → ScatterGroupWriteOp → List ℕ → RmaBuffer → (context : ℕ) → ScatterWriteOpIter
started L op addrs buf context =
    let (imm, flags) = flags_imm L op.imm_data in
    record {
      addrs = addrs;
      buf = record buf {
        msg = record {
          has_iov = true;
          desc = op.src_desc;
          iov_count = 1;
          addr = L.addr_unspec;
          rma_iov_count = 1;
          context = context;
          cq_data = imm;
        };
      };
      flags = flags;
      domain_idx = op.domain_idx;
      src_ptr = op.src_ptr;
      dsts = op.dsts;
      dst_beg = op.dst_beg;
      dst_end = op.dst_end;
      byte_shards = op.byte_shards;
      byte_shard_idx = op.byte_shard_idx;
      i_dst = op.dst_beg;
    }

-- the assertions of `new`
unfoldable pub asserts : ScatterGroupWriteOp → List ℕ → Action ScatterWriteOpIter (Unit {0})
asserts op addrs = do
  panic_if (not (ltb op.dst_beg op.dst_end))
  panic_if (not (leb op.dst_end (length op.dsts)))
  panic_if (not (length addrs == length op.dsts))

unfoldable pub new :
    Libfabric → ScatterGroupWriteOp → List ℕ → RmaBuffer → (context : ℕ) → Result ScatterWriteOpIter
unfolding asserts
new L op addrs buf context =
    let (r, it) = (asserts op addrs >> fill_msg) (started L op addrs buf context) in
    elim r [ ok _ ↦ ok it | err e ↦ err e | panicked ↦ panicked ]

unfoldable pub total_ops : ScatterWriteOpIter → ℕ
total_ops it = it.dst_end - it.dst_beg

unfoldable pub peek : ScatterWriteOpIter → Option (RmaBuffer × ℕ)
peek it = if it.i_dst == it.dst_end then none else some (it.buf, it.flags)

unfoldable pub advance : Action ScatterWriteOpIter (Unit {0})
advance = do
  i ← gets (λ it. it.i_dst)
  last ← gets (λ it. it.dst_end)
  panic_if (not (ltb i last))
  modify (λ it. record it { i_dst = i + 1 })
  if ltb (i + 1) last then fill_msg else pure tt

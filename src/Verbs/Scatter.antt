-- ===== src/Verbs/Scatter.antt =====
-- `ScatterWriteOpIter` of fabric-lib/src/verbs/verbs_rdma_op.rs: a work request for each target,
-- one at a time.
use pplx_garden_cxi.Common.{
  ℕ, ◌+◌, ◌-◌, true, not, none, some, List, ◌==◌, ltb, leb, if◌then◌else◌, length,
}
use pplx_garden_cxi.Api.{
  shard_len, shard_start, Result, ok, err, panicked, Action, pure, ◌>>=◌, ◌>>◌, gets, modify,
  panic_if, item, add_u64, ScatterTarget, ScatterGroupWriteOp,
}
use pplx_garden_cxi.Verbs.{Ibverbs, WrChainBuffer, write, Peeked, as_u32, opcode_imm}

pub record ScatterWriteOpIter : Type 0 where
  pub qp_list : List ℕ
  pub wr_chain_buffer : WrChainBuffer
  pub domain_idx : ℕ
  pub src_ptr : ℕ
  pub dsts : List ScatterTarget
  pub dst_beg : ℕ
  pub dst_end : ℕ
  pub byte_shards : ℕ
  pub byte_shard_idx : ℕ
  pub i_dst : ℕ

unfoldable pub fill_wr : Action ScatterWriteOpIter (Unit {0})
unfolding shard_len shard_start
fill_wr = do
  dsts ← gets (λ it. it.dsts)
  i ← gets (λ it. it.i_dst)
  dst ← item dsts i
  shards ← gets (λ it. it.byte_shards)
  panic_if (shards == 0)
  domain ← gets (λ it. it.domain_idx)
  target ← item dst.dst_mr.addr_rkey_list domain
  modify (λ it.
      let len = shard_len dst.length shards in
      let offset = shard_start len it.byte_shard_idx in
      record it {
        wr_chain_buffer = write it.wr_chain_buffer 0 (record (it.wr_chain_buffer 0) {
          sge_addr = add_u64 it.src_ptr (add_u64 dst.src_offset offset);
          sge_length = len;
          remote_addr = add_u64 (add_u64 dst.dst_mr.ptr dst.dst_offset) offset;
          rkey = as_u32 target.1;
        });
      })

-- the iterator before its first request is filled
abbrev pub started :
    Ibverbs → ScatterGroupWriteOp → List ℕ → WrChainBuffer → (context : ℕ) → ScatterWriteOpIter
started V op qp_list buf context =
    let (opcode, imm) = opcode_imm V op.imm_data in
    record {
      qp_list = qp_list;
      wr_chain_buffer = write buf 0 (record {
        sge_addr = 0;
        sge_length = 0;
        sge_lkey = as_u32 op.src_desc;
        wr_id = context;
        next = none;
        has_sge = true;
        num_sge = 1;
        opcode = opcode;
        send_flags = V.signaled;
        imm_data = imm;
        remote_addr = 0;
        rkey = 0;
      });
      domain_idx = op.domain_idx;
      src_ptr = op.src_ptr;
      dsts = op.dsts;
      dst_beg = op.dst_beg;
      dst_end = op.dst_end;
      byte_shards = op.byte_shards;
      byte_shard_idx = op.byte_shard_idx;
      i_dst = op.dst_beg;
    }

-- the assertions of `new`
unfoldable pub asserts : ScatterGroupWriteOp → List ℕ → Action ScatterWriteOpIter (Unit {0})
asserts op qp_list = do
  panic_if (not (ltb op.dst_beg op.dst_end))
  panic_if (not (leb op.dst_end (length op.dsts)))
  panic_if (not (length qp_list == length op.dsts))

unfoldable pub new :
    Ibverbs
    → ScatterGroupWriteOp
    → List ℕ
    → WrChainBuffer
    → (context : ℕ) → Result ScatterWriteOpIter
unfolding asserts
new V op qp_list buf context =
    let (r, it) = (asserts op qp_list >> fill_wr) (started V op qp_list buf context) in
    elim r [ ok _ ↦ ok it | err e ↦ err e | panicked ↦ panicked ]

unfoldable pub total_ops : ScatterWriteOpIter → ℕ
total_ops it = it.dst_end - it.dst_beg

-- The queue pair is that of the target, which panics when there is none.
unfoldable pub peek : Action ScatterWriteOpIter Peeked
peek = do
  i ← gets (λ it. it.i_dst)
  last ← gets (λ it. it.dst_end)
  qps ← gets (λ it. it.qp_list)
  if i == last then pure (0, none, 0) else (item qps i >>= λ qp. pure (qp, some 0, 1))

unfoldable pub advance_one : Action ScatterWriteOpIter (Unit {0})
advance_one = do
  i ← gets (λ it. it.i_dst)
  last ← gets (λ it. it.dst_end)
  modify (λ it. record it { i_dst = i + 1 })
  if i + 1 == last then pure tt else fill_wr

-- ===== src/Verbs/Paged.antt =====
-- `PagedWriteOpIter` of fabric-lib/src/verbs/verbs_rdma_op.rs: the pages of a write as a chain of
-- work requests in a ring of four.
use pplx_garden_cxi.Common.{
  ℕ, zero, suc, ◌+◌, ◌-◌, ◌%◌, ◌^◌, true, false, not, none, some, List, ◌==◌, ltb, leb, min, length,
  if◌then◌else◌,
}
use pplx_garden_cxi.Api.{
  mul_u64, Result, ok, err, panicked, Action, ◌>>=◌, ◌>>◌, gets, modify, panic_if, item, add_u64,
  PagedWriteOp,
}
use pplx_garden_cxi.Verbs.{
  Ibverbs, WorkRequest, WrChainBuffer, write, Peeked, as_u32, opcode_imm, wr_chain_len,
}

pub record PagedWriteOpIter : Type 0 where
  pub rma_qp : ℕ
  pub wr_chain_buffer : WrChainBuffer
  pub i_wr_head : ℕ
  pub i_wr_tail : ℕ
  pub wr_len : ℕ
  pub src_page_indices : List ℕ
  pub dst_page_indices : List ℕ
  pub page_indices_beg : ℕ
  pub page_indices_end : ℕ
  pub src_ptr : ℕ
  pub src_stride : ℕ
  pub dst_ptr : ℕ
  pub dst_stride : ℕ
  pub i_page : ℕ

-- the previous request points to the one at the tail, which is the last
abbrev pub link : PagedWriteOpIter → PagedWriteOpIter
link it =
    let tail = it.i_wr_tail in
    let prev = (tail + wr_chain_len - 1) % wr_chain_len in
    let linked =
      write it.wr_chain_buffer prev (record (it.wr_chain_buffer prev) { next = some tail }) in
    record it {
      wr_chain_buffer = write linked tail (record (linked tail) { next = none });
      i_wr_tail = (tail + 1) % wr_chain_len;
      wr_len = it.wr_len + 1;
    }

unfoldable pub fill_wr : Action PagedWriteOpIter (Unit {0})
fill_wr = do
  tail ← gets (λ it. it.i_wr_tail)
  i ← gets (λ it. it.i_page)
  modify link
  srcs ← gets (λ it. it.src_page_indices)
  src_page_idx ← item srcs i
  dsts ← gets (λ it. it.dst_page_indices)
  dst_page_idx ← item dsts i
  modify (λ it. record it {
    wr_chain_buffer = write it.wr_chain_buffer tail (record (it.wr_chain_buffer tail) {
      sge_addr = add_u64 it.src_ptr (mul_u64 it.src_stride src_page_idx);
      remote_addr = add_u64 it.dst_ptr (mul_u64 it.dst_stride dst_page_idx);
    });
    i_page = it.i_page + 1;
  })

-- `while i_page < page_indices_end && wr_len < WR_CHAIN_LEN { fill_wr() }`: four rounds are enough,
-- since each round adds to `wr_len`.
unfoldable pub fill_all : ℕ → Action PagedWriteOpIter (Unit {0})
fill_all zero it = (ok tt, it)
fill_all (suc rounds) it =
    let (r, it') = (fill_wr >> fill_all rounds) it in
    elim (ltb it.i_page it.page_indices_end) [
      | false ↦ (ok tt, it)
      | true ↦ elim (ltb it.wr_len wr_chain_len) [ false ↦ (ok tt, it) | true ↦ (r, it') ]
    ]

-- The requests that the pages will use, without their addresses.
abbrev pub template : Ibverbs → PagedWriteOp → (context : ℕ) → WorkRequest
template V op context =
    let (opcode, imm) = opcode_imm V op.imm_data in
    record {
      sge_addr = 0;
      sge_length = as_u32 op.length;
      sge_lkey = as_u32 op.src_desc;
      wr_id = context;
      next = none;
      has_sge = true;
      num_sge = 1;
      opcode = opcode;
      send_flags = V.signaled;
      imm_data = imm;
      remote_addr = 0;
      rkey = as_u32 op.dst_rkey;
    }

abbrev pub prepared : Ibverbs → PagedWriteOp → WrChainBuffer → (context : ℕ) → WrChainBuffer
prepared V op buf context i =
    if ltb i (min (op.page_indices_end - op.page_indices_beg) wr_chain_len)
    then template V op context
    else buf i

-- the iterator before its first batch
abbrev pub started :
    Ibverbs → PagedWriteOp → (rma_qp : ℕ) → WrChainBuffer → (context : ℕ) → PagedWriteOpIter
started V op rma_qp buf context = record {
  rma_qp = rma_qp;
  wr_chain_buffer = prepared V op buf context;
  i_wr_head = 0;
  i_wr_tail = 0;
  wr_len = 0;
  src_page_indices = op.src_page_indices;
  dst_page_indices = op.dst_page_indices;
  page_indices_beg = op.page_indices_beg;
  page_indices_end = op.page_indices_end;
  src_ptr = add_u64 op.src_ptr op.src_offset;
  src_stride = op.src_stride;
  dst_ptr = add_u64 op.dst_ptr op.dst_offset;
  dst_stride = op.dst_stride;
  i_page = op.page_indices_beg;
}

-- the assertions of `new`
unfoldable pub asserts : PagedWriteOp → Action PagedWriteOpIter (Unit {0})
asserts op = do
  panic_if (not (ltb op.page_indices_beg op.page_indices_end))
  panic_if (not (length op.src_page_indices == length op.dst_page_indices))
  panic_if (not (leb op.page_indices_end (length op.src_page_indices)))

unfoldable pub new :
    Ibverbs → PagedWriteOp → (rma_qp : ℕ) → WrChainBuffer → (context : ℕ) → Result PagedWriteOpIter
unfolding asserts
new V op rma_qp buf context =
    let (r, it) = (asserts op >> fill_all wr_chain_len) (started V op rma_qp buf context) in
    elim r [ ok _ ↦ ok it | err e ↦ err e | panicked ↦ panicked ]

unfoldable pub total_ops : PagedWriteOpIter → ℕ
total_ops it = it.page_indices_end - it.page_indices_beg

-- Both pointers are null when there is nothing to post.
unfoldable pub peek : PagedWriteOpIter → Peeked
peek it = if it.wr_len == 0 then (0, none, 0) else (it.rma_qp, some it.i_wr_head, it.wr_len)

-- The subtraction of `advance` wraps.
unfoldable pub advance : ℕ → Action PagedWriteOpIter (Unit {0})
advance n it = fill_all wr_chain_len (record it {
  i_wr_head = (it.i_wr_head + n) % wr_chain_len;
  wr_len = (it.wr_len + 2 ^ 64 - n) % 2 ^ 64;
})

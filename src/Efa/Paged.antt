-- ===== src/Efa/Paged.antt =====
-- `PagedWriteOpIter` of fabric-lib/src/efa/efa_rdma_op.rs: a message for each page.
use pplx_garden_cxi.Common.{
  ℕ, ◌+◌, ◌-◌, true, not, Option, none, some, List, ◌==◌, ltb, leb, if◌then◌else◌, length,
}
use pplx_garden_cxi.Api.{
  mul_u64, Result, ok, err, panicked, Action, pure, ◌>>=◌, ◌>>◌, gets, modify, panic_if, item,
  add_u64, PagedWriteOp,
}
use pplx_garden_cxi.Efa.{Libfabric, RmaBuffer, flags_imm}

pub record PagedWriteOpIter : Type 0 where
  pub src_page_indices : List ℕ
  pub dst_page_indices : List ℕ
  pub page_indices_beg : ℕ
  pub page_indices_end : ℕ
  pub src_ptr : ℕ
  pub src_stride : ℕ
  pub dst_ptr : ℕ
  pub dst_stride : ℕ
  pub buf : RmaBuffer
  pub flags : ℕ
  pub i_page : ℕ

-- the message of the page at `i_page`
unfoldable pub fill_msg : Action PagedWriteOpIter (Unit {0})
fill_msg = do
  i ← gets (λ it. it.i_page)
  srcs ← gets (λ it. it.src_page_indices)
  src_page_idx ← item srcs i
  dsts ← gets (λ it. it.dst_page_indices)
  dst_page_idx ← item dsts i
  modify (λ it. record it {
    buf = record it.buf {
      iov = record it.buf.iov {
        iov_base = add_u64 it.src_ptr (mul_u64 it.src_stride src_page_idx);
      };
      rma_iov = record it.buf.rma_iov { addr = mul_u64 it.dst_stride dst_page_idx };
    };
  })

-- the iterator before its first message is filled
abbrev pub started : Libfabric → PagedWriteOp → (addr context : ℕ) → PagedWriteOpIter
started L op addr context =
    let (imm, flags) = flags_imm L op.imm_data in
    record {
      src_page_indices = op.src_page_indices;
      dst_page_indices = op.dst_page_indices;
      page_indices_beg = op.page_indices_beg;
      page_indices_end = op.page_indices_end;
      src_ptr = add_u64 op.src_ptr op.src_offset;
      src_stride = op.src_stride;
      dst_ptr = add_u64 op.dst_ptr op.dst_offset;
      dst_stride = op.dst_stride;
      buf = record {
        iov = record { iov_base = 0; iov_len = op.length };
        rma_iov = record { addr = 0; len = op.length; key = op.dst_rkey };
        msg = record {
          has_iov = true;
          desc = op.src_desc;
          iov_count = 1;
          addr = addr;
          rma_iov_count = 1;
          context = context;
          cq_data = imm;
        };
      };
      flags = flags;
      i_page = op.page_indices_beg;
    }

-- the assertions of `new`
unfoldable pub asserts : PagedWriteOp → Action PagedWriteOpIter (Unit {0})
asserts op = do
  panic_if (not (ltb op.page_indices_beg op.page_indices_end))
  panic_if (not (length op.src_page_indices == length op.dst_page_indices))
  panic_if (not (leb op.page_indices_end (length op.src_page_indices)))

unfoldable pub new : Libfabric → PagedWriteOp → (addr context : ℕ) → Result PagedWriteOpIter
unfolding asserts
new L op addr context =
    let (r, it) = (asserts op >> fill_msg) (started L op addr context) in
    elim r [ ok _ ↦ ok it | err e ↦ err e | panicked ↦ panicked ]

unfoldable pub total_ops : PagedWriteOpIter → ℕ
total_ops it = it.page_indices_end - it.page_indices_beg

unfoldable pub peek : PagedWriteOpIter → Option (RmaBuffer × ℕ)
peek it = if it.i_page == it.page_indices_end then none else some (it.buf, it.flags)

unfoldable pub advance : Action PagedWriteOpIter (Unit {0})
advance = do
  i ← gets (λ it. it.i_page)
  last ← gets (λ it. it.page_indices_end)
  panic_if (not (ltb i last))
  modify (λ it. record it { i_page = i + 1 })
  if ltb (i + 1) last then fill_msg else pure tt

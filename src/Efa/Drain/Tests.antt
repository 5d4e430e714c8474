-- ===== src/Efa/Drain/Tests.antt =====
-- Writes over libfabric: two pages, two targets, one immediate.
use pplx_garden_cxi.Common.{◌+◌, ◌≡◌, refl, true, false, none, some, [], ◌∷◌, arith}
use pplx_garden_cxi.Api.{
  ok, panicked, PagedWriteOp, ScatterGroupWriteOp, ScatterTarget, SingleWriteOp,
}
use pplx_garden_cxi.Testbed.{remote}
use pplx_garden_cxi.Efa.{Libfabric, RmaBuffer}
use pplx_garden_cxi.Efa.Single.{new_single}
use pplx_garden_cxi.Efa.Paged
use pplx_garden_cxi.Efa.Paged.{PagedWriteOpIter}
use pplx_garden_cxi.Efa.Scatter
use pplx_garden_cxi.Efa.Scatter.{ScatterWriteOpIter}
use pplx_garden_cxi.Efa.Iter
use pplx_garden_cxi.Efa.Iter.{single, paged, scatter}
use pplx_garden_cxi.Efa.Drain.{drain, tabulate}
use pplx_garden_cxi.Efa.Drain.Pages.{page_msg, page_state, drain-pages}
use pplx_garden_cxi.Efa.Drain.Targets.{Located, target_msg, target_state, drain-targets}
use pplx_garden_cxi.Efa.Drain.Once.{drain-single}

abbrev lib : Libfabric
lib = record { remote_cq_data = 1; addr_unspec = 99 }

abbrev two_pages : PagedWriteOp
two_pages = record {
  src_page_indices = 4 ∷ 2 ∷ 9 ∷ [];
  dst_page_indices = 0 ∷ 1 ∷ 2 ∷ [];
  page_indices_beg = 1;
  page_indices_end = 3;
  length = 4096;
  src_ptr = 1000;
  src_desc = 3;
  src_stride = 4096;
  src_offset = 0;
  dst_ptr = 5000;
  dst_rkey = 51;
  dst_stride = 4096;
  dst_offset = 64;
  imm_data = none;
}

drain-pages_example :
    (it : PagedWriteOpIter) × (Paged.new lib two_pages 7 5 ≡ ok it)
    × (drain (Paged.total_ops it + 1) (paged it)
        ≡ (tabulate (page_msg lib two_pages 7 5) 2 1, ok tt, page_state lib two_pages 7 5 3))
    × (Iter.peek (page_state lib two_pages 7 5 3) ≡ none)
drain-pages_example = drain-pages lib two_pages 7 5 1 (omega arith) refl (omega arith)

-- The offset of the destination, 64, is not in the address of the first page.
first_address : ((page_msg lib two_pages 7 5 1).0).rma_iov.addr ≡ 4096
first_address = refl

abbrev zeroed : RmaBuffer
zeroed = record {
  iov = record { iov_base = 0; iov_len = 0 };
  rma_iov = record { addr = 0; len = 0; key = 0 };
  msg = record {
    has_iov = false;
    desc = 0;
    iov_count = 0;
    addr = 0;
    rma_iov_count = 0;
    context = 0;
    cq_data = 0;
  };
}

abbrev target : ScatterTarget
target = record { dst_mr = remote 5000; length = 512; src_offset = 0; dst_offset = 64 }

abbrev one_target : ScatterGroupWriteOp
one_target = record {
  domain_idx = 1;
  src_ptr = 1000;
  src_desc = 3;
  imm_data = some 8;
  dsts = target ∷ [];
  dst_beg = 0;
  dst_end = 1;
  byte_shards = 2;
  byte_shard_idx = 1;
}

located : Located one_target (7 ∷ [])
located = record {
  target = λ i. target;
  fi_addr = λ i. 7;
  remote = λ i. (1 ∷ [], 51);
  is_target = λ i low h. ground arith;
  is_addr = λ i low h. ground arith;
  is_remote = λ i low h. refl;
}

drain-targets_example :
    (it : ScatterWriteOpIter) × (Scatter.new lib one_target (7 ∷ []) zeroed 5 ≡ ok it)
    × (drain (Scatter.total_ops it + 1) (scatter it) ≡ (
      tabulate (target_msg lib one_target (7 ∷ []) zeroed 5 located) 1 0,
      ok tt,
      target_state lib one_target (7 ∷ []) zeroed 5 located 1,
    ))
    × (Iter.peek (target_state lib one_target (7 ∷ []) zeroed 5 located 1) ≡ none)
drain-targets_example =
    drain-targets lib one_target (7 ∷ []) zeroed 5 located 1 (omega arith) (omega arith) refl
      (omega arith)

abbrev one_write : SingleWriteOp
one_write = record {
  src_ptr = 1000;
  src_desc = 3;
  src_offset = 0;
  length = 512;
  imm_data = none;
  dst_ptr = 5000;
  dst_rkey = 51;
  dst_offset = 64;
}

one_message :
    let it = new_single lib one_write 7 5 in
    let it' = record it { done = true } in
    (drain (1 + 1) (single it) ≡ ((it.buf, it.flags) ∷ [], ok tt, single it'))
    × (Iter.peek (single it') ≡ none)
    × (Iter.advance (single it') ≡ (panicked, single it'))
one_message = drain-single 1 (new_single lib one_write 7 5) (unfold new_single in refl)

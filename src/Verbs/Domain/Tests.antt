-- ===== src/Verbs/Domain/Tests.antt =====
-- Writes on a NIC with room for a few calls.
use pplx_garden_cxi.Common.{ℕ, ◌≡◌, refl, false, true, none, some, [], ◌∷◌, lookup, arith}
use pplx_garden_cxi.Api.{ok, failed, transfer, verbs_completion_error, PagedWriteOp}
use pplx_garden_cxi.Pool.{free_no_drop}
use pplx_garden_cxi.Verbs.{WrChainBuffer}
use pplx_garden_cxi.Verbs.Paged.{PagedWriteOpIter, new}
use pplx_garden_cxi.Verbs.Chain.{at, IsChain}
use pplx_garden_cxi.Verbs.Driven.{made, new-lem}
use pplx_garden_cxi.Verbs.Iter.{paged}
use pplx_garden_cxi.Verbs.Domain.Heap.{read, free}
use pplx_garden_cxi.Verbs.Domain.Host.{Host, posted, IbvWc, success, failure, wc_rdma_write}
use pplx_garden_cxi.Verbs.Domain.Writes.{WriteOpContext, progress_rdma_write_op_context}
use pplx_garden_cxi.Verbs.Domain.Writes.Handed.{Progressed, HasPosted}
use pplx_garden_cxi.Verbs.Domain.Writes.Progress.{progress_lem}
use pplx_garden_cxi.Verbs.Domain.State.{VerbsDomain}
use pplx_garden_cxi.Verbs.Domain.Completions.{handle_batch}
use pplx_garden_cxi.Verbs.Domain.Completions.Lifetime.{AreOf, after}
use pplx_garden_cxi.Verbs.Domain.Completions.Batch.{first_failure, last_success, finish_lem}
use pplx_garden_cxi.Verbs.Domain.Completions.Leaks.{AllSucceed, given_up_lem}
use pplx_garden_cxi.Verbs.Domain.Testbed.{verbs, unwritten, host, host-IsVerbs, pool, idle}

abbrev three_pages : PagedWriteOp
three_pages = record {
  src_page_indices = 4 ∷ 2 ∷ 9 ∷ [];
  dst_page_indices = 0 ∷ 1 ∷ 2 ∷ [];
  page_indices_beg = 0;
  page_indices_end = 3;
  length = 4096;
  src_ptr = 1000;
  src_desc = 3;
  src_stride = 4096;
  src_offset = 0;
  dst_ptr = 5000;
  dst_rkey = 51;
  dst_stride = 4096;
  dst_offset = 64;
  imm_data = none;
}

laid_out :
    (b : WrChainBuffer) × (new verbs three_pages 9 unwritten 1
      ≡ ok (at verbs three_pages 9 unwritten 1 b 0 3))
    × IsChain verbs three_pages 9 unwritten 1 0 3 b
laid_out = new-lem verbs three_pages 9 unwritten 1 (omega arith) refl (omega arith)

abbrev first : PagedWriteOpIter
first = at verbs three_pages 9 unwritten 1 laid_out.0 0 3

-- a write of three pages that found no room when it was submitted
abbrev waiting_write : WriteOpContext
waiting_write = record {
  transfer_id = 31;
  rdma_op_iter = paged first;
  wr_chain_buffer = (0, 0);
  total_ops = 3;
  cnt_posted_ops = 0;
  cnt_finished_ops = 0;
  in_queue = true;
  bad = false;
}

nothing_posted : HasPosted verbs three_pages 9 unwritten 1 0 waiting_write
nothing_posted = (first, refl, made first laid_out.1, refl, refl)

progress_lem_example :
    Progressed verbs three_pages 9 unwritten 1 host 0 1
      (progress_rdma_write_op_context host waiting_write 1)
progress_lem_example =
    progress_lem verbs three_pages 9 unwritten 1 host 0 waiting_write 1 host-IsVerbs (omega arith)
      refl (omega arith) nothing_posted refl

-- a domain with one write, at the address 1
abbrev with_write : WriteOpContext → (room : ℕ) → VerbsDomain ℕ
with_write c room = record (idle room) {
  contexts = record { pool = pool; objects = (1, ((0, 0), c)) ∷ [] };
}

abbrev completion : IbvWc
completion = record {
  qp_num = 8;
  status = success;
  opcode = wc_rdma_write;
  wr_id = 1;
  byte_len = 0;
  imm_data = 0;
}

abbrev flushed : IbvWc
flushed = record completion { status = failure 5 }

abbrev all_posted : WriteOpContext
all_posted = record waiting_write { cnt_posted_ops = 3; in_queue = false }

finish_lem_example :
    handle_batch host (completion ∷ flushed ∷ completion ∷ []) (with_write all_posted 0) ≡ (
      ok tt,
      record (with_write all_posted 0) {
        contexts = free 1 (with_write all_posted 0).contexts;
        objpool_wr = free_no_drop (0, 0) pool;
        completions = failed 31 (verbs_completion_error "flushed") ∷ transfer 31 ∷ [];
      },
    )
unfolding first_failure last_success lookup AreOf
finish_lem_example =
    finish_lem host 0 all_posted (0, 0) completion (flushed ∷ completion ∷ [])
      (with_write all_posted 0) refl
      ((refl, refl, refl), ((refl, refl, refl), ((refl, refl, refl), tt))) refl refl refl refl

abbrev given_up : WriteOpContext
given_up = record waiting_write {
  cnt_posted_ops = 2;
  cnt_finished_ops = 1;
  in_queue = false;
  bad = true;
}

given_up_lem_example :
    let d' = (handle_batch host (completion ∷ []) (with_write given_up 0)).1 in
    (read 1 d'.contexts ≡ some (record given_up { cnt_finished_ops = 2 }))
    × (given_up.cnt_posted_ops ≡ 2)
    × (d'.completions ≡ [])
unfolding lookup AreOf AllSucceed after
given_up_lem_example =
    given_up_lem host 0 given_up (0, 0) (completion ∷ []) (with_write given_up 0) refl (omega arith)
      refl ((refl, refl, refl), tt) (refl, tt)

abbrev roomy : Host ℕ
roomy = record host { post_send = λ qp b head n. (posted, n) }

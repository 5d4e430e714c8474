-- ===== src/Verbs/Tests.antt =====
-- A write of five pages by a queue pair that takes one request first.
use pplx_garden_cxi.Common.{ℕ, ◌≤◌, ◌≡◌, refl, false, none, some, [], ◌∷◌, arith}
use pplx_garden_cxi.Api.{ok, PagedWriteOp}
use pplx_garden_cxi.Verbs.{Ibverbs, WrChainBuffer}
use pplx_garden_cxi.Verbs.Paged.{PagedWriteOpIter, new, peek, advance}
use pplx_garden_cxi.Verbs.Chain.{at, IsChain}
use pplx_garden_cxi.Verbs.Driven.{front, Driven, made, advanced, driven_lem, new-lem}

abbrev verbs : Ibverbs
verbs = record { signaled = 2; rdma_write = 0; rdma_write_with_imm = 1; send = 3 }

abbrev unwritten : WrChainBuffer
unwritten i = record {
  sge_addr = 0;
  sge_length = 0;
  sge_lkey = 0;
  wr_id = 0;
  next = none;
  has_sge = false;
  num_sge = 0;
  opcode = 0;
  send_flags = 0;
  imm_data = 0;
  remote_addr = 0;
  rkey = 0;
}

abbrev five_pages : PagedWriteOp
five_pages = record {
  src_page_indices = 4 ∷ 2 ∷ 9 ∷ 7 ∷ 5 ∷ [];
  dst_page_indices = 0 ∷ 1 ∷ 2 ∷ 3 ∷ 4 ∷ [];
  page_indices_beg = 0;
  page_indices_end = 5;
  length = 4096;
  src_ptr = 1000;
  src_desc = 3;
  src_stride = 4096;
  src_offset = 0;
  dst_ptr = 5000;
  dst_rkey = 51;
  dst_stride = 4096;
  dst_offset = 64;
  imm_data = none;
}

laid_out :
    (b : WrChainBuffer) × (new verbs five_pages 9 unwritten 5
      ≡ ok (at verbs five_pages 9 unwritten 5 b 0 4))
    × IsChain verbs five_pages 9 unwritten 5 0 4 b
laid_out = new-lem verbs five_pages 9 unwritten 5 (omega arith) refl (omega arith)

abbrev first : PagedWriteOpIter
first = at verbs five_pages 9 unwritten 5 laid_out.0 0 4

one_posted : Driven verbs five_pages 9 unwritten 5 1 (advance 1 first).1
one_posted = advanced 0 1 first (made first laid_out.1) (omega arith)

driven_lem_example :
    let it = (advance 1 first).1 in
    (b : WrChainBuffer) × (it
      ≡ at verbs five_pages 9 unwritten 5 b 1 (front verbs five_pages 9 unwritten 5 1))
    × IsChain verbs five_pages 9 unwritten 5 1 (front verbs five_pages 9 unwritten 5 1) b
    × (peek it ≡ (9, some 1, 4))
    × ((n : ℕ) → n ≤ it.wr_len → (advance n it).0 ≡ ok tt)
driven_lem_example =
    driven_lem verbs five_pages 9 unwritten 5 1 (advance 1 first).1 (omega arith) refl (omega arith)
      one_posted

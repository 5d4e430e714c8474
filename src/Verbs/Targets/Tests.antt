-- ===== src/Verbs/Targets/Tests.antt =====
-- A scatter to one target by its queue pair.
use pplx_garden_cxi.Common.{◌<◌, ◌≡◌, refl, false, none, some, [], ◌∷◌, arith}
use pplx_garden_cxi.Api.{ok, ScatterGroupWriteOp, ScatterTarget}
use pplx_garden_cxi.Testbed.{remote}
use pplx_garden_cxi.Verbs.{Ibverbs, WrChainBuffer}
use pplx_garden_cxi.Verbs.Scatter.{ScatterWriteOpIter, new, peek, advance_one}
use pplx_garden_cxi.Verbs.Targets.{Paired, made, IsAt, posted_lem, at, new-lem, target_wr}

abbrev verbs : Ibverbs
verbs = record { signaled = 2; rdma_write = 0; rdma_write_with_imm = 1; send = 3 }

abbrev unwritten : WrChainBuffer
unwritten i = record {
  sge_addr = 0;
  sge_length = 0;
  sge_lkey = 0;
  wr_id = 0;
  next = none;
  has_sge = false;
  num_sge = 0;
  opcode = 0;
  send_flags = 0;
  imm_data = 0;
  remote_addr = 0;
  rkey = 0;
}

abbrev target : ScatterTarget
target = record { dst_mr = remote 5000; length = 512; src_offset = 0; dst_offset = 64 }

abbrev one_target : ScatterGroupWriteOp
one_target = record {
  domain_idx = 1;
  src_ptr = 1000;
  src_desc = 3;
  imm_data = some 8;
  dsts = target ∷ [];
  dst_beg = 0;
  dst_end = 1;
  byte_shards = 2;
  byte_shard_idx = 1;
}

paired : Paired one_target (7 ∷ [])
paired = record {
  target = λ i. target;
  qp = λ i. 7;
  remote = λ i. (1 ∷ [], 51);
  is_target = λ i low h. ground arith;
  is_qp = λ i low h. ground arith;
  is_remote = λ i low h. refl;
}

laid_out :
    (b : WrChainBuffer) × (new verbs one_target (7 ∷ []) unwritten 5
      ≡ ok (at verbs one_target (7 ∷ []) unwritten 5 paired b 0))
    × (b 0 ≡ target_wr verbs one_target (7 ∷ []) unwritten 5 paired 0)
laid_out =
    new-lem verbs one_target (7 ∷ []) unwritten 5 paired (omega arith) (omega arith) refl
      (omega arith)

abbrev first : ScatterWriteOpIter
first = at verbs one_target (7 ∷ []) unwritten 5 paired laid_out.0 0

posted_lem_example :
    IsAt verbs one_target (7 ∷ []) unwritten 5 paired 0 first
    × (peek first ≡ (ok (7, some 0, 1), first))
    × (0 < 1 → (advance_one first).0 ≡ ok tt)
unfolding paired
posted_lem_example =
    posted_lem verbs one_target (7 ∷ []) unwritten 5 paired 0 first (omega arith) (omega arith) refl
      (omega arith) (made first laid_out.1)

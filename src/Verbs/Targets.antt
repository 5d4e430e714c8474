-- ===== src/Verbs/Targets.antt =====
-- `ScatterWriteOpIter` as the queue pairs drive it: a request for each target.
mod Tests
use mathlib.Core.Path.{subst}
use pplx_garden_cxi.Common.{
  ℕ, zero, suc, ◌+◌, ◌-◌, ◌≤◌, ◌<◌, ◌≡◌, refl, sym, ◌∙◌, ap, true, false, Option, none, some, List,
  arith, length, get_elem?, ltb, ◌==◌, min, Bool-cases, inl, inr, if◌then◌else◌,
}
use pplx_garden_cxi.Api.{
  ok, ScatterTarget, ScatterGroupWriteOp, DomainAddress, add_u64, shard_len, shard_start,
}
use pplx_garden_cxi.Verbs.{Ibverbs, WorkRequest, WrChainBuffer, write, Peeked, as_u32, opcode_imm}
use pplx_garden_cxi.Verbs.Scatter.{
  ScatterWriteOpIter, started, asserts, fill_wr, new, peek, advance_one,
}
use pplx_garden_cxi.Verbs.Chain.{write-here}

-- The targets of a scatter, numbered, with the queue pair of each and the address and key it has
-- for the domain that writes.
pub record Paired (op : ScatterGroupWriteOp) (qp_list : List ℕ) : Type 0 where
  pub target : ℕ → ScatterTarget
  pub qp : ℕ → ℕ
  pub remote : ℕ → DomainAddress × ℕ
  pub is_target : (i : ℕ) → op.dst_beg ≤ i → i < op.dst_end → get_elem? op.dsts i ≡ some (target i)
  pub is_qp : (i : ℕ) → op.dst_beg ≤ i → i < op.dst_end → get_elem? qp_list i ≡ some (qp i)
  pub is_remote :
      (i : ℕ)
      → op.dst_beg ≤ i
      → i < op.dst_end
      → get_elem? (target i).dst_mr.addr_rkey_list op.domain_idx ≡ some (remote i)

unwrap : {a b : ScatterWriteOpIter} → ok a ≡ ok b → a ≡ b
unwrap e = cc

module _ (V : Ibverbs) (op : ScatterGroupWriteOp) (qp_list : List ℕ) (buf : WrChainBuffer)
    (context : ℕ) (at_target : Paired op qp_list) where
  -- the request of target `i`: one of `byte_shards` parts of its bytes
  abbrev pub target_wr : ℕ → WorkRequest
  target_wr i =
      let dst = at_target.target i in
      let len = shard_len dst.length op.byte_shards in
      let offset = shard_start len op.byte_shard_idx in
      let (opcode, imm) = opcode_imm V op.imm_data in
      record {
        sge_addr = add_u64 op.src_ptr (add_u64 dst.src_offset offset);
        sge_length = len;
        sge_lkey = as_u32 op.src_desc;
        wr_id = context;
        next = none;
        has_sge = true;
        num_sge = 1;
        opcode = opcode;
        send_flags = V.signaled;
        imm_data = imm;
        remote_addr = add_u64 (add_u64 dst.dst_mr.ptr dst.dst_offset) offset;
        rkey = as_u32 (at_target.remote i).1;
      }

  abbrev pub at : WrChainBuffer → ℕ → ScatterWriteOpIter
  at b i = record (started V op qp_list buf context) { wr_chain_buffer = b; i_dst = i }

  -- a request of this scatter, whatever its target
  abbrev Laid : WorkRequest → Type 0
  Laid w = w ≡ record (target_wr 0) {
    sge_addr = w.sge_addr;
    sge_length = w.sge_length;
    remote_addr = w.remote_addr;
    rkey = w.rkey;
  }

  abbrev put : ℕ → WorkRequest → WorkRequest
  put i w = record w {
    sge_addr = (target_wr i).sge_addr;
    sge_length = (target_wr i).sge_length;
    remote_addr = (target_wr i).remote_addr;
    rkey = (target_wr i).rkey;
  }

  fill_wr-at :
      (i : ℕ) (b : WrChainBuffer)
      → op.dst_beg ≤ i
      → i < op.dst_end
      → 0 < op.byte_shards
      → fill_wr (at b i) ≡ (ok tt, at (write b 0 (put i (b 0))) i)
  unfolding fill_wr
  fill_wr-at i b low h pos =
      let t = at_target.is_target i low h in
      let r = at_target.is_remote i low h in ground (arith, t, r)

  filled : (i : ℕ) (b : WrChainBuffer) → Laid (b 0) → write b 0 (put i (b 0)) 0 ≡ target_wr i
  filled i b laid = write-here b 0 0 (put i (b 0)) refl ∙ ap (put i) laid

  pub new-lem :
      op.dst_beg < op.dst_end
      → op.dst_end ≤ length op.dsts
      → length qp_list ≡ length op.dsts
      → 0 < op.byte_shards
      → (b : WrChainBuffer) × (new V op qp_list buf context ≡ ok (at b op.dst_beg))
        × (b 0 ≡ target_wr op.dst_beg)
  unfolding new asserts
  new-lem some' fits same pos =
      let b = (started V op qp_list buf context).wr_chain_buffer in
      let fill = fill_wr-at op.dst_beg b (omega arith) some' pos in
      (write b 0 (put op.dst_beg (b 0)), ground (arith, fill), filled op.dst_beg b refl)

  -- The iterators that the domain can bring about by posting `p` targets, one at a time.
  pub data Posted : ℕ → ScatterWriteOpIter → Type 0 where
    made : (it : ScatterWriteOpIter) → new V op qp_list buf context ≡ ok it → Posted 0 it
    advanced :
        (p : ℕ) (it : ScatterWriteOpIter)
        → Posted p it
        → p < op.dst_end - op.dst_beg
        → Posted (p + 1) (advance_one it).1

  -- The iterator after `p` targets: the request in the buffer is that of the next one.
  pub record IsAt (p : ℕ) (it : ScatterWriteOpIter) : Type 0 where
    pub buffer : WrChainBuffer
    pub is_at : it ≡ at buffer (op.dst_beg + p)
    pub within : p ≤ op.dst_end - op.dst_beg
    pub request : p < op.dst_end - op.dst_beg → buffer 0 ≡ target_wr (op.dst_beg + p)

  advance-at :
      (p : ℕ) (b : WrChainBuffer)
      → 0 < op.byte_shards
      → p < op.dst_end - op.dst_beg
      → b 0 ≡ target_wr (op.dst_beg + p)
      → (b' : WrChainBuffer) × (advance_one (at b (op.dst_beg + p))
          ≡ (ok tt, at b' (op.dst_beg + (p + 1))))
        × (p + 1 < op.dst_end - op.dst_beg → b' 0 ≡ target_wr (op.dst_beg + (p + 1)))
  unfolding advance_one
  advance-at p b pos more here =
      let i = op.dst_beg + (p + 1) in
      let moved : op.dst_beg + p + 1 ≡ i = omega arith in
      elim (Bool-cases (i == op.dst_end)) [
        | inl last ↦ (b, ground (arith, moved, last), λ h. absurd (ground arith))
        | inr next ↦
            let fill = fill_wr-at i b (omega arith) (ground arith) pos in
            let laid : Laid (b 0) = rw here refl in
            (write b 0 (put i (b 0)), ground (arith, moved, next, fill), λ h. filled i b laid)
      ]

  Posted-IsAt :
      {p : ℕ} {it : ScatterWriteOpIter}
      → op.dst_beg < op.dst_end
      → op.dst_end ≤ length op.dsts
      → length qp_list ≡ length op.dsts
      → 0 < op.byte_shards
      → Posted p it
      → IsAt p it
  Posted-IsAt some' fits same pos (made it e) =
      let (b, q, here) = new-lem some' fits same pos in
      record {
        buffer = b;
        is_at = unwrap (sym e ∙ q) ∙ ap (at b) (omega arith);
        within = omega arith;
        request = λ h. here ∙ ap target_wr (omega arith);
      }
  Posted-IsAt some' fits same pos (advanced p it d more) =
      let s = Posted-IsAt some' fits same pos d in
      let (b', run, here) = advance-at p s.buffer pos more (s.request more) in
      record {
        buffer = b';
        is_at = ap (λ i. (advance_one i).1) s.is_at ∙ ap (λ r. r.1) run;
        within = omega arith;
        request = here;
      }

  peek-at :
      (p : ℕ) (b : WrChainBuffer)
      → p ≤ op.dst_end - op.dst_beg
      → op.dst_beg < op.dst_end
      → peek (at b (op.dst_beg + p)) ≡ (
        ok (
            if p == op.dst_end - op.dst_beg
            then (0, none, 0)
            else (at_target.qp (op.dst_beg + p), some 0, 1)),
        at b (op.dst_beg + p),
      )
  unfolding peek
  peek-at p b le some' = elim (Bool-cases (p == op.dst_end - op.dst_beg)) [
    | inl over ↦ let last : op.dst_beg + p ≡ op.dst_end = ground arith in ground (arith, over, last)
    | inr more ↦
        let found = at_target.is_qp (op.dst_beg + p) (omega arith) (ground arith) in
        ground (arith, more, found)
  ]

  -- A scatter with at least one target, its targets within the list, a queue pair for each, a key
  -- of each for the domain, and a number of byte shards that is not zero. However far the domain
  -- has driven its iterator, when it has posted `p` targets: the request in the buffer is that of
  -- the next one; `peek` shows it with the queue pair of that target, or nothing when all targets
  -- are posted; and to advance past a target that is left does not fail.
  pub posted_lem :
      (p : ℕ) (it : ScatterWriteOpIter)
      → op.dst_beg < op.dst_end
      → op.dst_end ≤ length op.dsts
      → length qp_list ≡ length op.dsts
      → 0 < op.byte_shards
      → Posted p it
      → let n = op.dst_end - op.dst_beg in
        IsAt p it
        × (peek it ≡ (
          ok (if p == n then (0, none, 0) else (at_target.qp (op.dst_beg + p), some 0, 1)),
          it,
        ))
        × (p < n → (advance_one it).0 ≡ ok tt)
  posted_lem p it some' fits same pos posted =
      let s = Posted-IsAt some' fits same pos posted in
      let n = op.dst_end - op.dst_beg in
      let seen = if p == n then (0, none, 0) else (at_target.qp (op.dst_beg + p), some 0, 1) in
      (
        s,
        subst (λ i. peek i ≡ (ok seen, i)) (sym s.is_at) (peek-at p s.buffer s.within some'),
        λ more.
            let (b', run, _) = advance-at p s.buffer pos more (s.request more) in
            ap (λ i. (advance_one i).0) s.is_at ∙ ap (λ r. r.0) run,
      )

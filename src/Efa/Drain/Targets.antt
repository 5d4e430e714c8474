-- ===== src/Efa/Drain/Targets.antt =====
-- The messages of a scatter over libfabric.
use mathlib.Core.Path.{subst}
use pplx_garden_cxi.Common.{
  ℕ, ◌+◌, ◌-◌, ◌≤◌, ◌<◌, ◌≡◌, refl, ap, true, false, none, some, List, arith, length, get_elem?,
  ltb, ◌==◌, min, Bool-cases, inl, inr,
}
use pplx_garden_cxi.Api.{
  shard_len, shard_start, ok, ScatterTarget, ScatterGroupWriteOp, DomainAddress, add_u64,
}
use pplx_garden_cxi.Efa.{Libfabric, RmaBuffer, flags_imm}
use pplx_garden_cxi.Efa.Scatter.{
  ScatterWriteOpIter, started, asserts, fill_msg, new, total_ops, peek, advance,
}
use pplx_garden_cxi.Efa.Iter
use pplx_garden_cxi.Efa.Iter.{WriteOpIter, scatter}
use pplx_garden_cxi.Efa.Drain.{drain, tabulate, Steps, drain-Steps}

-- The targets of a scatter, numbered, with the fabric address of each and the address and key it
-- has for the domain that writes.
pub record Located (op : ScatterGroupWriteOp) (addrs : List ℕ) : Type 0 where
  pub target : ℕ → ScatterTarget
  pub fi_addr : ℕ → ℕ
  pub remote : ℕ → DomainAddress × ℕ
  pub is_target : (i : ℕ) → op.dst_beg ≤ i → i < op.dst_end → get_elem? op.dsts i ≡ some (target i)
  pub is_addr : (i : ℕ) → op.dst_beg ≤ i → i < op.dst_end → get_elem? addrs i ≡ some (fi_addr i)
  pub is_remote :
      (i : ℕ)
      → op.dst_beg ≤ i
      → i < op.dst_end
      → get_elem? (target i).dst_mr.addr_rkey_list op.domain_idx ≡ some (remote i)

module _ (L : Libfabric) (op : ScatterGroupWriteOp) (addrs : List ℕ) (buf : RmaBuffer) (context : ℕ)
    (at_target : Located op addrs) where
  -- The message of target `i`: one of `byte_shards` parts of its bytes, to the target's address,
  -- at the same part of its place in the region.
  abbrev pub target_msg : ℕ → RmaBuffer × ℕ
  target_msg i =
      let dst = at_target.target i in
      let len = shard_len dst.length op.byte_shards in
      let offset = shard_start len op.byte_shard_idx in
      let (imm, flags) = flags_imm L op.imm_data in
      (
        record {
          iov = record {
            iov_base = add_u64 op.src_ptr (add_u64 dst.src_offset offset);
            iov_len = len;
          };
          rma_iov = record {
            addr = add_u64 dst.dst_offset offset;
            len = len;
            key = (at_target.remote i).1;
          };
          msg = record {
            has_iov = true;
            desc = op.src_desc;
            iov_count = 1;
            addr = at_target.fi_addr i;
            rma_iov_count = 1;
            context = context;
            cq_data = imm;
          };
        },
        flags,
      )

  abbrev at : ℕ → ℕ → ScatterWriteOpIter
  at k i = record (started L op addrs buf context) { buf = (target_msg k).0; i_dst = i }

  -- the states of the iterator; at the end the last message is still in the buffer
  abbrev pub target_state : ℕ → WriteOpIter
  target_state i = scatter (at (min i (op.dst_end - 1)) i)

  fill_msg-started :
      op.dst_beg < op.dst_end
      → 0 < op.byte_shards
      → fill_msg (started L op addrs buf context) ≡ (ok tt, at op.dst_beg op.dst_beg)
  unfolding fill_msg
  fill_msg-started h pos =
      let t = at_target.is_target op.dst_beg (omega arith) h in
      let a = at_target.is_addr op.dst_beg (omega arith) h in
      let r = at_target.is_remote op.dst_beg (omega arith) h in ground (arith, t, a, r)

  fill_msg-at :
      (k i : ℕ)
      → op.dst_beg ≤ i
      → i < op.dst_end
      → 0 < op.byte_shards
      → fill_msg (at k i) ≡ (ok tt, at i i)
  unfolding fill_msg
  fill_msg-at k i low h pos =
      let t = at_target.is_target i low h in
      let a = at_target.is_addr i low h in
      let r = at_target.is_remote i low h in ground (arith, t, a, r)

  peek-at : (i : ℕ) → i < op.dst_end → peek (at i i) ≡ some (target_msg i)
  unfolding peek
  peek-at i h = let other : (i == op.dst_end) ≡ false = ground arith in rw other refl

  advance-at :
      (i : ℕ)
      → op.dst_beg ≤ i
      → i < op.dst_end
      → 0 < op.byte_shards
      → advance (at i i) ≡ (ok tt, at (min (i + 1) (op.dst_end - 1)) (i + 1))
  unfolding advance
  advance-at i low h pos = elim (Bool-cases (ltb (i + 1) op.dst_end)) [
    | inl more ↦
        let same : min (i + 1) (op.dst_end - 1) ≡ i + 1 = ground arith in
        let fill = fill_msg-at i (i + 1) (ground arith) (ground arith) pos in
        ground (arith, fill, same)
    | inr over ↦ let same : min (i + 1) (op.dst_end - 1) ≡ i = ground arith in ground (arith, same)
  ]

  target-Steps : 0 < op.byte_shards → Steps target_state target_msg op.dst_beg op.dst_end
  unfolding Iter.peek Iter.advance peek
  target-Steps pos = record {
    has = λ i low h. let k : min i (op.dst_end - 1) ≡ i = omega arith in rw k (peek-at i h);
    moves = λ i low h.
        let k : min i (op.dst_end - 1) ≡ i = omega arith in
        rw k (ap (λ q. (q.0, scatter q.1)) (advance-at i low h pos));
    ends = ground arith;
  }

  new-lem :
      op.dst_beg < op.dst_end
      → op.dst_end ≤ length op.dsts
      → length addrs ≡ length op.dsts
      → 0 < op.byte_shards
      → new L op addrs buf context ≡ ok (at op.dst_beg op.dst_beg)
  unfolding new asserts
  new-lem some' fits same pos =
      let fill = fill_msg-started (omega arith) pos in ground (arith, fill)

  -- A scatter with at least one target, its targets within the list, an address for each, a key
  -- of each for the domain, and a number of byte shards that is not zero: the iterator is made,
  -- and driven for as many rounds as it has targets, or more, it posts the message of each of its
  -- targets, in order, and has no further one.
  pub drain-targets :
      (spare : ℕ)
      → op.dst_beg < op.dst_end
      → op.dst_end ≤ length op.dsts
      → length addrs ≡ length op.dsts
      → 0 < op.byte_shards
      → (it : ScatterWriteOpIter) × (new L op addrs buf context ≡ ok it)
        × (drain (total_ops it + spare) (scatter it) ≡ (
          tabulate target_msg (op.dst_end - op.dst_beg) op.dst_beg,
          ok tt,
          target_state op.dst_end,
        ))
        × (Iter.peek (target_state op.dst_end) ≡ none)
  unfolding total_ops
  drain-targets spare some' fits same pos =
      let beg = op.dst_beg in
      let count = op.dst_end - beg in
      let steps = target-Steps pos in
      let first : min beg (op.dst_end - 1) ≡ beg = omega arith in
      let run =
        drain-Steps target_state target_msg beg op.dst_end steps count spare beg (omega arith)
          (omega arith) in
      (
        at beg beg,
        new-lem some' fits same pos,
        subst
            (λ k.
              drain (count + spare) (scatter (at k beg))
              ≡ (tabulate target_msg count beg, ok tt, target_state op.dst_end))
            first run,
        steps.ends,
      )

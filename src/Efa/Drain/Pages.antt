-- ===== src/Efa/Drain/Pages.antt =====
-- The messages of a paged write over libfabric.
use mathlib.Core.Path.{subst}
use pplx_garden_cxi.Common.{
  Bool-cases, inl, inr, ℕ, ◌+◌, ◌-◌, ◌≤◌, ◌<◌, ◌≡◌, refl, ap, true, false, none, some, List, arith,
  length, get_elem?, get_elem?-some, ltb, ◌==◌, min,
}
use pplx_garden_cxi.Api.{mul_u64, ok, PagedWriteOp, add_u64}
use pplx_garden_cxi.Efa.{Libfabric, RmaBuffer, flags_imm}
use pplx_garden_cxi.Efa.Paged.{
  PagedWriteOpIter, started, asserts, fill_msg, new, total_ops, peek, advance,
}
use pplx_garden_cxi.Efa.Iter
use pplx_garden_cxi.Efa.Iter.{WriteOpIter, paged}
use pplx_garden_cxi.Efa.Drain.{drain, tabulate, Steps, drain-Steps}

abbrev pub nth : List ℕ → ℕ → ℕ
nth xs i = elim (get_elem? xs i) [ none ↦ 0 | some x ↦ x ]

module _ (L : Libfabric) (op : PagedWriteOp) (addr context : ℕ) where
  -- The message of page `i` of a paged write. The destination is the page's place from the start
  -- of the region: neither the pointer nor the offset of the destination is in it.
  abbrev pub page_msg : ℕ → RmaBuffer × ℕ
  page_msg i =
      let (imm, flags) = flags_imm L op.imm_data in
      (
        record {
          iov = record {
            iov_base =
                add_u64 (add_u64 op.src_ptr op.src_offset)
                  (mul_u64 op.src_stride (nth op.src_page_indices i));
            iov_len = op.length;
          };
          rma_iov = record {
            addr = mul_u64 op.dst_stride (nth op.dst_page_indices i);
            len = op.length;
            key = op.dst_rkey;
          };
          msg = record {
            has_iov = true;
            desc = op.src_desc;
            iov_count = 1;
            addr = addr;
            rma_iov_count = 1;
            context = context;
            cq_data = imm;
          };
        },
        flags,
      )

  -- the iterator at `i` with the message of page `k` in its buffer
  abbrev at : ℕ → ℕ → PagedWriteOpIter
  at k i = record (started L op addr context) { buf = (page_msg k).0; i_page = i }

  -- the states of the iterator; at the end the last message is still in the buffer
  abbrev pub page_state : ℕ → WriteOpIter
  page_state i = paged (at (min i (op.page_indices_end - 1)) i)

  fill_msg-started :
      op.page_indices_beg < length op.src_page_indices
      → op.page_indices_beg < length op.dst_page_indices
      → fill_msg (started L op addr context) ≡ (ok tt, at op.page_indices_beg op.page_indices_beg)
  unfolding fill_msg
  fill_msg-started h h' =
      let (s, es) = get_elem?-some op.src_page_indices op.page_indices_beg h in
      let (d, ed) = get_elem?-some op.dst_page_indices op.page_indices_beg h' in
      ground (arith, es, ed)

  fill_msg-at :
      (k i : ℕ)
      → i < length op.src_page_indices
      → i < length op.dst_page_indices
      → fill_msg (at k i) ≡ (ok tt, at i i)
  unfolding fill_msg
  fill_msg-at k i h h' =
      let (s, es) = get_elem?-some op.src_page_indices i h in
      let (d, ed) = get_elem?-some op.dst_page_indices i h' in ground (arith, es, ed)

  peek-at : (i : ℕ) → i < op.page_indices_end → peek (at i i) ≡ some (page_msg i)
  unfolding peek
  peek-at i h = let other : (i == op.page_indices_end) ≡ false = ground arith in rw other refl

  advance-at :
      (i : ℕ)
      → i < op.page_indices_end
      → op.page_indices_end ≤ length op.src_page_indices
      → op.page_indices_end ≤ length op.dst_page_indices
      → advance (at i i) ≡ (ok tt, at (min (i + 1) (op.page_indices_end - 1)) (i + 1))
  unfolding advance
  advance-at i h hs hd = elim (Bool-cases (ltb (i + 1) op.page_indices_end)) [
    | inl more ↦
        let same : min (i + 1) (op.page_indices_end - 1) ≡ i + 1 = ground arith in
        let fill = fill_msg-at i (i + 1) (ground arith) (ground arith) in ground (arith, fill, same)
    | inr over ↦
        let same : min (i + 1) (op.page_indices_end - 1) ≡ i = ground arith in ground (arith, same)
  ]

  page-Steps :
      op.page_indices_end ≤ length op.src_page_indices
      → op.page_indices_end ≤ length op.dst_page_indices
      → Steps page_state page_msg op.page_indices_beg op.page_indices_end
  unfolding Iter.peek Iter.advance peek
  page-Steps hs hd = record {
    has =
        λ i low h. let k : min i (op.page_indices_end - 1) ≡ i = omega arith in rw k (peek-at i h);
    moves = λ i low h.
        let k : min i (op.page_indices_end - 1) ≡ i = omega arith in
        rw k (ap (λ q. (q.0, paged q.1)) (advance-at i h hs hd));
    ends = ground arith;
  }

  new-lem :
      op.page_indices_beg < op.page_indices_end
      → length op.src_page_indices ≡ length op.dst_page_indices
      → op.page_indices_end ≤ length op.src_page_indices
      → new L op addr context ≡ ok (at op.page_indices_beg op.page_indices_beg)
  unfolding new asserts
  new-lem some' same fits =
      let fill = fill_msg-started (omega arith) (omega arith) in ground (arith, fill)

  -- A paged write with at least one page, as many source as destination pages, and its pages
  -- within them: the iterator is made, and driven for as many rounds as it has pages, or more, it
  -- posts the message of each of its pages, in order, and has no further one.
  pub drain-pages :
      (spare : ℕ)
      → op.page_indices_beg < op.page_indices_end
      → length op.src_page_indices ≡ length op.dst_page_indices
      → op.page_indices_end ≤ length op.src_page_indices
      → (it : PagedWriteOpIter) × (new L op addr context ≡ ok it)
        × (drain (total_ops it + spare) (paged it) ≡ (
          tabulate page_msg (op.page_indices_end - op.page_indices_beg) op.page_indices_beg,
          ok tt,
          page_state op.page_indices_end,
        ))
        × (Iter.peek (page_state op.page_indices_end) ≡ none)
  unfolding total_ops
  drain-pages spare some' same fits =
      let beg = op.page_indices_beg in
      let steps = page-Steps fits (omega arith) in
      let first : min beg (op.page_indices_end - 1) ≡ beg = omega arith in
      let run =
        drain-Steps page_state page_msg beg op.page_indices_end steps (op.page_indices_end - beg)
          spare beg (omega arith) (omega arith) in
      (
        at beg beg,
        new-lem some' same fits,
        subst
            (λ k. drain (op.page_indices_end - beg + spare) (paged (at k beg)) ≡ (
              tabulate page_msg (op.page_indices_end - beg) beg,
              ok tt,
              page_state op.page_indices_end,
            ))
            first run,
        steps.ends,
      )

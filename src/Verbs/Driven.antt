-- ===== src/Verbs/Driven.antt =====
-- `PagedWriteOpIter` as the queue pair drives it: the pages that have been posted and those that
-- are laid out.
use pplx_garden_cxi.Common.{
  ℕ, zero, suc, ◌+◌, ◌-◌, ◌%◌, ◌^◌, ◌≤◌, ◌<◌, ◌≡◌, refl, sym, ◌∙◌, ap, true, none, some, arith,
  length, get_elem?-some, ltb, ◌==◌, min, Bool-cases, if◌then◌else◌, inl, inr,
}
use pplx_garden_cxi.Api.{ok, PagedWriteOp}
use pplx_garden_cxi.Verbs.{Ibverbs, WrChainBuffer}
use pplx_garden_cxi.Verbs.Paged.{
  PagedWriteOpIter, prepared, asserts, fill_wr, fill_all, new, peek, advance,
}
use pplx_garden_cxi.Verbs.Chain.{total, at, IsChain, HasPages, filled, filled-IsChain}

module _ (V : Ibverbs) (op : PagedWriteOp) (rma_qp : ℕ) (buf : WrChainBuffer) (context : ℕ) where
  abbrev state : WrChainBuffer → (p q : ℕ) → PagedWriteOpIter
  state = at V op rma_qp buf context

  abbrev Chained : (p q : ℕ) → WrChainBuffer → Type 0
  Chained = IsChain V op rma_qp buf context

  abbrev pub pages : ℕ
  pages = total V op rma_qp buf context

  fill_wr-at :
      (p q : ℕ) (b : WrChainBuffer)
      → HasPages V op rma_qp buf context
      → p ≤ q
      → q < pages
      → fill_wr (state b p q) ≡ (ok tt, state (filled V op rma_qp buf context b q) p (q + 1))
  unfolding fill_wr
  fill_wr-at p q b has le more =
      let (s, es) =
        get_elem?-some op.src_page_indices (op.page_indices_beg + q) (omega (arith, has.0)) in
      let (d, ed) =
        get_elem?-some op.dst_page_indices (op.page_indices_beg + q) (omega (arith, has.1)) in
      let tail : (q % 4 + 1) % 4 ≡ (q + 1) % 4 = omega arith in
      let len : q - p + 1 ≡ q + 1 - p = omega arith in
      let page : op.page_indices_beg + q + 1 ≡ op.page_indices_beg + (q + 1) = omega arith in
      ground (arith, es, ed, tail, len, page)

  -- how far the ring is laid out when `p` pages are posted
  abbrev pub front : ℕ → ℕ
  front p = min (p + 4) pages

  -- As many rounds as the ring has room for are enough to fill it.
  fill_all-at :
      (rounds p q : ℕ) (b : WrChainBuffer)
      → HasPages V op rma_qp buf context
      → Chained p q b
      → p + 4 ≤ q + rounds
      → (b' : WrChainBuffer) × (fill_all rounds (state b p q) ≡ (ok tt, state b' p (front p)))
        × Chained p (front p) b'
  unfolding fill_all
  fill_all-at zero p q b has c enough =
      let same : front p ≡ q = omega (arith, c.short, c.within) in rw same (b, refl, c)
  fill_all-at (suc rounds) p q b has c enough = elim (Bool-cases (ltb q (front p))) [
    | inl more ↦
        let le = c.ordered in
        let step = fill_wr-at p q b has le (ground arith) in
        let (b', rest, c') =
          fill_all-at rounds p (q + 1) (filled V op rma_qp buf context b q) has
            (filled-IsChain V op rma_qp buf context p q b c (ground arith) (ground arith))
            (omega arith) in
        let inner : ltb (op.page_indices_beg + q) op.page_indices_end ≡ true = ground arith in
        let room : ltb (q - p) 4 ≡ true = ground arith in
        (b', ground (arith, step, rest, inner, room), c')
    | inr full ↦
        let same : front p ≡ q = ground (arith, c.short, c.within) in
        let le = c.ordered in rw same (b, ground (arith, full), c)
  ]

  start-Chained : Chained 0 0 (prepared V op buf context)
  start-Chained = record {
    ordered = omega arith;
    short = omega arith;
    within = omega arith;
    ready = λ j h t. ground arith;
    slots = λ k low h. absurd (omega arith);
  }

  -- The pages that are posted leave the chain.
  posted : (n p q : ℕ) (b : WrChainBuffer) → Chained p q b → p + n ≤ q → Chained (p + n) q b
  posted n p q b c le = record {
    ordered = le;
    short = omega (arith, c.short);
    within = c.within;
    ready = c.ready;
    slots = λ k low h. c.slots k (omega arith) h;
  }

  pub new-lem :
      op.page_indices_beg < op.page_indices_end
      → length op.src_page_indices ≡ length op.dst_page_indices
      → op.page_indices_end ≤ length op.src_page_indices
      → (b : WrChainBuffer) × (new V op rma_qp buf context ≡ ok (state b 0 (front 0)))
        × Chained 0 (front 0) b
  unfolding new asserts
  new-lem some' same fits =
      let has : HasPages V op rma_qp buf context = (fits, omega arith) in
      let (b, run, c) =
        fill_all-at 4 0 0 (prepared V op buf context) has start-Chained (omega arith) in
      (b, ground (arith, run), c)

  advance-at :
      (n p : ℕ) (b : WrChainBuffer)
      → HasPages V op rma_qp buf context
      → Chained p (front p) b
      → n ≤ front p - p
      → (b' : WrChainBuffer) × (advance n (state b p (front p))
          ≡ (ok tt, state b' (p + n) (front (p + n))))
        × Chained (p + n) (front (p + n)) b'
  unfolding advance
  advance-at n p b has c le =
      let q = front p in
      let order = c.ordered in
      let head : (p % 4 + n) % 4 ≡ (p + n) % 4 = omega arith in
      let len : (q - p + 2 ^ 64 - n) % 2 ^ 64 ≡ q - (p + n) = omega arith in
      let (b', run, c') =
        fill_all-at 4 (p + n) q b has (posted n p q b c (omega arith)) (omega arith) in
      (b', ap (fill_all 4) (rw (head, len) refl) ∙ run, c')

  -- The iterators that the queue pair can bring about by posting `p` pages: it posts no more
  -- requests at a time than it was shown.
  pub data Driven : ℕ → PagedWriteOpIter → Type 0 where
    made : (it : PagedWriteOpIter) → new V op rma_qp buf context ≡ ok it → Driven 0 it
    advanced :
        (p n : ℕ) (it : PagedWriteOpIter)
        → Driven p it
        → n ≤ it.wr_len
        → Driven (p + n) (advance n it).1

  abbrev Reached : ℕ → PagedWriteOpIter → Type 0
  Reached p it = (b : WrChainBuffer) × (it ≡ state b p (front p)) × Chained p (front p) b

  unwrap : {a b : PagedWriteOpIter} → ok a ≡ ok b → a ≡ b
  unwrap e = cc

  Driven-Reached :
      {p : ℕ} {it : PagedWriteOpIter}
      → op.page_indices_beg < op.page_indices_end
      → length op.src_page_indices ≡ length op.dst_page_indices
      → op.page_indices_end ≤ length op.src_page_indices
      → Driven p it
      → Reached p it
  Driven-Reached some' same fits (made it e) =
      let (b, q, c) = new-lem some' same fits in (b, unwrap (sym e ∙ q), c)
  Driven-Reached some' same fits (advanced p n it d le) =
      let (b, e, c) = Driven-Reached some' same fits d in
      let has : HasPages V op rma_qp buf context = (fits, omega arith) in
      let left : n ≤ front p - p = omega (arith, le, ap (λ i. i.wr_len) e) in
      let (b', run, c') = advance-at n p b has c left in
      (b', ap (λ i. (advance n i).1) e ∙ ap (λ r. r.1) run, c')

  peek-at :
      (p : ℕ) (b : WrChainBuffer)
      → Chained p (front p) b
      → peek (state b p (front p))
        ≡ (if p == pages then (0, none, 0) else (rma_qp, some (p % 4), min 4 (pages - p)))
  unfolding peek
  peek-at p b c =
      let order = c.ordered in
      let len : front p - p ≡ min 4 (pages - p) = omega arith in ground (arith, len)

  -- A paged write with at least one page, as many source as destination pages, and its pages
  -- within them. However the queue pair drives its iterator, when it has posted `p` pages: the
  -- chain holds the next pages in order, four or as many as are left, each with its own
  -- addresses, linked one to the next and the last to none; `peek` shows the first of them and
  -- their number, or nothing when all pages are posted; and to advance by any number of requests
  -- that are shown does not fail.
  pub driven_lem :
      (p : ℕ) (it : PagedWriteOpIter)
      → op.page_indices_beg < op.page_indices_end
      → length op.src_page_indices ≡ length op.dst_page_indices
      → op.page_indices_end ≤ length op.src_page_indices
      → Driven p it
      → (b : WrChainBuffer) × (it ≡ at V op rma_qp buf context b p (front p))
        × IsChain V op rma_qp buf context p (front p) b
        × (peek it
            ≡ (if p == pages then (0, none, 0) else (rma_qp, some (p % 4), min 4 (pages - p))))
        × ((n : ℕ) → n ≤ it.wr_len → (advance n it).0 ≡ ok tt)
  driven_lem p it some' same fits driven =
      let (b, e, c) = Driven-Reached some' same fits driven in
      let has : HasPages V op rma_qp buf context = (fits, omega arith) in
      (
        b,
        e,
        c,
        ap peek e ∙ peek-at p b c,
        λ n le.
            let left : n ≤ front p - p = omega (arith, le, ap (λ i. i.wr_len) e) in
            let (b', run, _) = advance-at n p b has c left in
            ap (λ i. (advance n i).0) e ∙ ap (λ r. r.0) run,
      )

-- ===== src/Verbs/Domain/Writes/Progress.antt =====
-- Paged writes under the loop of fabric-lib/src/verbs/verbs_domain.rs that posts them: how far the
-- loop gets with a queue pair that fills up.
use mathlib.Core.Path.{subst}
use pplx_garden_cxi.Common.{
  ℕ, zero, suc, ◌+◌, ◌-◌, ◌%◌, ◌≤◌, ◌<◌, ◌≡◌, refl, ap, ap₂, ◌∙◌, ◌⊎◌, inl, inr, false, none, some,
  ◌==◌, Bool-cases, min, length, arith,
}
use pplx_garden_cxi.Api.{Result, ok, PagedWriteOp}
use pplx_garden_cxi.Verbs.{Ibverbs, WrChainBuffer, wr_chain_len}
use pplx_garden_cxi.Verbs.Paged
use pplx_garden_cxi.Verbs.Paged.{PagedWriteOpIter}
use pplx_garden_cxi.Verbs.Chain.{IsChain}
use pplx_garden_cxi.Verbs.Driven.{advanced, driven_lem, front}
use pplx_garden_cxi.Verbs.Iter
use pplx_garden_cxi.Verbs.Iter.{WriteOpIter, paged}
use pplx_garden_cxi.Verbs.Domain.Host.{Host, posted, no_memory}
use pplx_garden_cxi.Verbs.Domain.Writes.{
  WriteOpContext, move_on, on_no_memory, count_until, buffer_of, post_loop,
  progress_rdma_write_op_context,
}
use pplx_garden_cxi.Verbs.Domain.Writes.Counting.{nth-chain, count-chain}
use pplx_garden_cxi.Verbs.Domain.Writes.Posting.{
  progress_good, post_loop-full, post_loop-posted, post_loop-busy,
}
use pplx_garden_cxi.Verbs.Domain.Writes.Handed
use pplx_garden_cxi.Verbs.Domain.Writes.Handed.{IsVerbs, none_more, hands_over, Reaches-chain}

module _ (V : Ibverbs) (op : PagedWriteOp) (rma_qp : ℕ) (buf : WrChainBuffer) (context : ℕ) where
  abbrev Chained : (p q : ℕ) → WrChainBuffer → Type 0
  Chained = IsChain V op rma_qp buf context

  abbrev total_pages : ℕ
  total_pages = Handed.total_pages V op rma_qp buf context

  abbrev HasPosted : ℕ → WriteOpContext → Type 0
  HasPosted = Handed.HasPosted V op rma_qp buf context

  abbrev laid_out : ℕ → ℕ
  laid_out = Handed.laid_out V op rma_qp buf context

  abbrev IsValid : Type 0
  IsValid =
      (op.page_indices_beg < op.page_indices_end)
      × (length op.src_page_indices ≡ length op.dst_page_indices)
      × (op.page_indices_end ≤ length op.src_page_indices)

  move_lem :
      (p n : ℕ) (c : WriteOpContext)
      → IsValid
      → (posting : HasPosted p c) → n ≤ posting.0.wr_len
      → ((move_on n c).0 ≡ ok tt) × HasPosted (p + n) (move_on n c).1
  unfolding move_on Iter.advance
  move_lem p n c (some', same, fits) (it, is, driven, count, whole) le =
      let (b, e, chain, shown, advances) =
        driven_lem V op rma_qp buf context p it some' same fits driven in
      let fine = advances n le in
      (
        ground (arith, is, fine),
        (
          (Paged.advance n it).1,
          ground (arith, is, fine),
          advanced p n it driven le,
          ground (arith, is, fine, count),
          ground (arith, is, fine, whole),
        ),
      )

  module _ {N : Type 0} (H : Host N) where
    abbrev IsBusy : (q : ℕ) → N → (p : ℕ) → N → Type 0
    IsBusy = Handed.IsBusy V op rma_qp buf context H

    abbrev Reaches : (p : ℕ) → N → (p' : ℕ) → N → Type 0
    Reaches = Handed.Reaches V op rma_qp buf context H

    abbrev Progressed : (p : ℕ) → N → Result (Unit {0}) × WriteOpContext × N → Type 0
    Progressed = Handed.Progressed V op rma_qp buf context H

    -- the chain is shown to the queue pair
    abbrev Shown : ℕ → WrChainBuffer → WriteOpContext → Type 0
    Shown p b c =
        ((Iter.peek c.rdma_op_iter).0 ≡ ok (rma_qp, some (p % 4), min 4 (total_pages - p)))
        × (buffer_of c.rdma_op_iter ≡ b)
        × (p < total_pages)

    -- the round in which `len` requests are posted
    posted_lem :
        (rounds p : ℕ) (b : WrChainBuffer) (c : WriteOpContext) (n : N)
        → Shown p b c
        → (H.post_send rma_qp b (some (p % 4)) n).0 ≡ posted
        → (move_on (min 4 (total_pages - p)) c).0 ≡ ok tt
        → post_loop H (suc rounds) c n
          ≡ post_loop H rounds
              (move_on (min 4 (total_pages - p)) c).1
              (H.post_send rma_qp b (some (p % 4)) n).1
    posted_lem rounds p b c n (look, buffer, more) sends moves =
        post_loop-posted H rounds c n rma_qp (min 4 (total_pages - p)) (some (p % 4)) look
          (omega arith) (ap (λ x. (H.post_send rma_qp x (some (p % 4)) n).0) buffer ∙ sends) moves
        ∙ ap
            (λ x.
              post_loop H rounds (move_on (min 4 (total_pages - p)) c).1
                (H.post_send rma_qp x (some (p % 4)) n).1)
            buffer

    -- the round in which `k` requests are posted, and no more
    busy_lem :
        (rounds p k w : ℕ) (b : WrChainBuffer) (c : WriteOpContext) (n : N)
        → Shown p b c
        → (H.post_send rma_qp b (some (p % 4)) n).0 ≡ no_memory w
        → count_until (suc wr_chain_len) b (some (p % 4)) w 0 ≡ some k
        → post_loop H (suc rounds) c n
          ≡ ((move_on k c).0, (move_on k c).1, (H.post_send rma_qp b (some (p % 4)) n).1)
    unfolding on_no_memory
    busy_lem rounds p k w b c n (look, buffer, more) busy counts =
        let whole : on_no_memory (some (p % 4)) w c ≡ move_on k c =
          ground (arith, buffer, counts) in
        post_loop-busy H rounds c n rma_qp (min 4 (total_pages - p)) w (some (p % 4)) look
          (omega arith) (ap (λ x. (H.post_send rma_qp x (some (p % 4)) n).0) buffer ∙ busy)
        ∙ ap₂ (λ out x. (out.0, out.1, (H.post_send rma_qp x (some (p % 4)) n).1)) whole buffer

    shown_lem :
        (p : ℕ) (c : WriteOpContext)
        → IsValid
        → (h : HasPosted p c)
        → (b : WrChainBuffer) × Chained p (front V op rma_qp buf context p) b
          × (h.0.wr_len ≡ min 4 (total_pages - p))
          × (((p ≡ total_pages) × ((Iter.peek c.rdma_op_iter).0 ≡ ok (0, none, 0))) ⊎ Shown p b c)
    unfolding Iter.peek
    shown_lem p c valid (it, is, driven, count, whole) =
        let (b, e, chain, shown, advances) =
          driven_lem V op rma_qp buf context p it valid.0 valid.1 valid.2 driven in
        let le = chain.ordered in
        let within = chain.within in
        let room = ap (λ i. i.wr_len) e in
        let buffer : buffer_of c.rdma_op_iter ≡ b =
          ap buffer_of is ∙ ap (λ i. i.wr_chain_buffer) e in
        (
          b,
          chain,
          omega arith,
          elim (Bool-cases (p == total_pages)) [
            | inl done ↦ inl (ground arith, ground (arith, is, shown, done))
            | inr more ↦ inr (ground (arith, is, shown, more), buffer, ground arith)
          ],
        )

    loop_lem :
        (rounds p : ℕ) (c : WriteOpContext) (n : N)
        → IsVerbs H
        → IsValid
        → HasPosted p c
        → total_pages < rounds + p
        → Progressed p n (post_loop H rounds c n)
    loop_lem zero p c n verbs valid h enough =
        let (b, chain, _, _) = shown_lem p c valid h in
        let le = chain.ordered in let within = chain.within in absurd (omega arith)
    loop_lem (suc rounds) p c n verbs valid h enough =
        let (b, chained, room, see) = shown_lem p c valid h in
        elim see [
          | inl (done, look) ↦
              let path = post_loop-full H rounds c n 0 0 none look refl in
              rw path (refl, (p, h, omega arith, inl (done, none_more p n)))
          | inr shown ↦ elim (verbs rma_qp b (p % 4) n) [
            | inl sends ↦
                let len = min 4 (total_pages - p) in
                let (moves, h') = move_lem p len c valid h (omega arith) in
                let path = posted_lem rounds p b c n shown sends moves in
                let (fine, (p', h'', le, rest)) =
                  loop_lem rounds (p + len) (move_on len c).1
                    (H.post_send rma_qp b (some (p % 4)) n).1 verbs valid h'
                    (omega (arith, shown.2)) in
                let full : p + len ≡ laid_out p = omega arith in
                let way =
                  subst
                    (λ x.
                      Reaches x (H.post_send rma_qp b (some (p % 4)) n).1 p'
                        (post_loop H rounds (move_on len c).1
                          (H.post_send rma_qp b (some (p % 4)) n).1).2)
                    full rest in
                rw path (
                  fine,
                  (
                    p',
                    h'',
                    omega arith,
                    Reaches-chain V op rma_qp buf context H p p' b n _ chained sends way,
                  ),
                )
            | inr (k, w, there, busy) ↦
                let within =
                  nth-chain V op rma_qp buf context k p (front V op rma_qp buf context p) p w b
                    chained (omega arith) (omega (arith, shown.2)) there in
                let counts : count_until (suc wr_chain_len) b (some (p % 4)) w 0 ≡ some k =
                  ap (λ x. count_until (suc wr_chain_len) b (some (p % 4)) x 0) within.1
                  ∙ count-chain V op rma_qp buf context k 5 p (front V op rma_qp buf context p) p 0
                      b chained (omega arith) within.0 (omega (arith, within.0))
                  ∙ ap some (omega arith) in
                let (moves, h') = move_lem p k c valid h (omega (arith, within.0)) in
                let path = busy_lem rounds p k w b c n shown busy counts in
                let at : IsBusy p n (p + k) (H.post_send rma_qp b (some (p % 4)) n).1 = record {
                  ring = b;
                  chained = chained;
                  from = omega arith;
                  below = within.0;
                  busy = busy ∙ ap no_memory within.1;
                  last = refl;
                } in
                rw path (moves, (p + k, h', omega arith, inr (p, n, none_more p n, at)))
          ]
        ]

    -- A paged write with at least one page, as many source as destination pages, and its pages
    -- within them, on a queue pair that posts a chain or runs out of memory at one of its
    -- requests. When `p` pages are posted and no completion has failed, the loop returns with no
    -- panic. Each of its calls hands over the chain of the pages from the first that is not posted
    -- on, until all pages of the write are posted or a call is refused, the last. The context then
    -- has posted the pages before the request that was refused, counts them, and starts at that
    -- request the next time. `total_ops + 1` rounds are enough for it.
    pub progress_lem :
        (p : ℕ) (c : WriteOpContext) (n : N)
        → IsVerbs H
        → op.page_indices_beg < op.page_indices_end
        → length op.src_page_indices ≡ length op.dst_page_indices
        → op.page_indices_end ≤ length op.src_page_indices
        → HasPosted p c
        → c.bad ≡ false
        → Progressed p n (progress_rdma_write_op_context H c n)
    progress_lem p c n verbs some' same fits h good =
        let whole = h.4 in
        let path = progress_good H c n good in
        rw path (loop_lem (suc c.total_ops) p c n verbs (some', same, fits) h (omega arith))

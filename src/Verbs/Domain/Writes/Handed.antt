-- ===== src/Verbs/Domain/Writes/Handed.antt =====
-- What the calls of a paged write hand to a queue pair that fills up, for the loop of
-- fabric-lib/src/verbs/verbs_domain.rs that posts it.
use pplx_garden_cxi.Common.{ℕ, ◌%◌, ◌≤◌, ◌<◌, ◌≡◌, ◌⊎◌, inl, inr, some}
use pplx_garden_cxi.Api.{Result, ok, PagedWriteOp}
use pplx_garden_cxi.Verbs.{Ibverbs, WrChainBuffer}
use pplx_garden_cxi.Verbs.Paged.{PagedWriteOpIter}
use pplx_garden_cxi.Verbs.Chain.{IsChain}
use pplx_garden_cxi.Verbs.Driven.{Driven, pages, front}
use pplx_garden_cxi.Verbs.Iter.{paged}
use pplx_garden_cxi.Verbs.Domain.Host.{Host, posted, no_memory}
use pplx_garden_cxi.Verbs.Domain.Writes.{WriteOpContext}
use pplx_garden_cxi.Verbs.Domain.Writes.Counting.{nth_wr}

-- What libibverbs documents: a call posts the chain, or runs out of memory at one of its requests.
abbrev pub IsVerbs : {N : Type 0} → Host N → Type 0
IsVerbs {N = N} H =
    (qp : ℕ) (b : WrChainBuffer) (i : ℕ) (n : N)
    → ((H.post_send qp b (some i) n).0 ≡ posted)
      ⊎ ((k w : ℕ) × (nth_wr k b i ≡ some w) × ((H.post_send qp b (some i) n).0 ≡ no_memory w))

module _ (V : Ibverbs) (op : PagedWriteOp) (rma_qp : ℕ) (buf : WrChainBuffer) (context : ℕ) where
  abbrev Chained : (p q : ℕ) → WrChainBuffer → Type 0
  Chained = IsChain V op rma_qp buf context

  abbrev pub total_pages : ℕ
  total_pages = pages V op rma_qp buf context

  -- a context of the write, with `p` pages posted
  abbrev pub HasPosted : ℕ → WriteOpContext → Type 0
  HasPosted p c =
      (it : PagedWriteOpIter) × (c.rdma_op_iter ≡ paged it)
      × Driven V op rma_qp buf context p it
      × (c.cnt_posted_ops ≡ p)
      × (c.total_ops ≡ total_pages)

  abbrev pub laid_out : ℕ → ℕ
  laid_out = front V op rma_qp buf context

  module _ {N : Type 0} (H : Host N) where
    -- From `p` pages posted to `q`: each call hands over the chain of the pages that are laid out
    -- next, and posts all of it.
    pub data Posts : (p : ℕ) → N → (q : ℕ) → N → Type 0 where
      none_more : (p : ℕ) (n : N) → Posts p n p n
      hands_over :
          {p q : ℕ} {n m : N} (b : WrChainBuffer)
          → Chained p (laid_out p) b
          → (H.post_send rma_qp b (some (p % 4)) n).0 ≡ posted
          → Posts (laid_out p) (H.post_send rma_qp b (some (p % 4)) n).1 q m
          → Posts p n q m

    -- After the chains up to page `q` the call for the next chain was the last: it ran out of
    -- memory at the request of page `p`, which is one of that chain.
    pub record IsBusy (q : ℕ) (m : N) (p : ℕ) (n : N) : Type 0 where
      pub ring : WrChainBuffer
      pub chained : Chained q (laid_out q) ring
      pub from : q ≤ p
      pub below : p < laid_out q
      pub busy : (H.post_send rma_qp ring (some (q % 4)) m).0 ≡ no_memory (p % 4)
      pub last : n ≡ (H.post_send rma_qp ring (some (q % 4)) m).1

    -- the pages up to `p` are posted when the queue pair has come from `n` to `n'`
    abbrev pub Reaches : (p : ℕ) → N → (p' : ℕ) → N → Type 0
    Reaches p n p' n' =
        ((p' ≡ total_pages) × Posts p n p' n')
        ⊎ ((q : ℕ) × (m : N) × Posts p n q m × IsBusy q m p' n')

    abbrev pub Progressed : (p : ℕ) → N → Result (Unit {0}) × WriteOpContext × N → Type 0
    Progressed p n out =
        (out.0 ≡ ok tt) × ((p' : ℕ) × HasPosted p' out.1 × (p ≤ p') × Reaches p n p' out.2)

    pub Reaches-chain :
        (p p' : ℕ) (b : WrChainBuffer) (n n' : N)
        → Chained p (laid_out p) b
        → (H.post_send rma_qp b (some (p % 4)) n).0 ≡ posted
        → Reaches (laid_out p) (H.post_send rma_qp b (some (p % 4)) n).1 p' n'
        → Reaches p n p' n'
    Reaches-chain p p' b n n' c sends (inl (all, posts)) = inl (all, hands_over b c sends posts)
    Reaches-chain p p' b n n' c sends (inr (q, m, posts, busy)) =
        inr (q, m, hands_over b c sends posts, busy)

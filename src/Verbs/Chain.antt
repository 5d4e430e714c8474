-- ===== src/Verbs/Chain.antt =====
-- The ring of `PagedWriteOpIter`: what the queue pair finds when it follows the chain.
use pplx_garden_cxi.Common.{
  ℕ, ◌+◌, ◌-◌, ◌%◌, ◌≤◌, ◌<◌, ◌≡◌, ◌≢◌, Bool, refl, sym, ◌∙◌, ap, true, false, Option, none, some,
  List, arith, length, get_elem?, ltb, ◌==◌, Bool-cases, inl, inr, if◌then◌else◌,
}
use pplx_garden_cxi.Api.{PagedWriteOp, add_u64, mul_u64}
use pplx_garden_cxi.Verbs.{Ibverbs, WorkRequest, WrChainBuffer, write}
use pplx_garden_cxi.Verbs.Paged.{PagedWriteOpIter, template, started, new}

abbrev pub nth : List ℕ → ℕ → ℕ
nth xs i = elim (get_elem? xs i) [ none ↦ 0 | some x ↦ x ]

write-keeps :
    (P : WorkRequest → Type 0) (b : WrChainBuffer) (i j : ℕ) (w : WorkRequest)
    → (j ≡ i → P w)
    → P (b j)
    → P (write b i w j)
write-keeps P b i j w new old = go (j == i) refl
  where
    go : (t : Bool) → (j == i) ≡ t → P (elim t [ true ↦ w | false ↦ b j ])
    go true e = new (ground arith)
    go false e = old

pub write-here : (b : WrChainBuffer) (i j : ℕ) (w : WorkRequest) → j ≡ i → write b i w j ≡ w
write-here b i j w e =
    let same : (j == i) ≡ true = ground arith in ap (λ t. elim t [ true ↦ w | false ↦ b j ]) same

write-other : (b : WrChainBuffer) (i j : ℕ) (w : WorkRequest) → j ≢ i → write b i w j ≡ b j
write-other b i j w ne =
    let other : (j == i) ≡ false = ground arith in ap (λ t. elim t [ true ↦ w | false ↦ b j ]) other

module _ (V : Ibverbs) (op : PagedWriteOp) (rma_qp : ℕ) (buf : WrChainBuffer) (context : ℕ) where
  abbrev pub total : ℕ
  total = op.page_indices_end - op.page_indices_beg

  -- the request of the `k`-th page of the write
  abbrev pub page_wr : ℕ → Option ℕ → WorkRequest
  page_wr k next = record (template V op context) {
    sge_addr =
        add_u64 (add_u64 op.src_ptr op.src_offset)
          (mul_u64 op.src_stride (nth op.src_page_indices (op.page_indices_beg + k)));
    next = next;
    remote_addr =
        add_u64 (add_u64 op.dst_ptr op.dst_offset)
          (mul_u64 op.dst_stride (nth op.dst_page_indices (op.page_indices_beg + k)));
  }

  -- a request of the write before its page is known
  abbrev pub Templated : WorkRequest → Type 0
  Templated w = w ≡ record (template V op context) {
    sge_addr = w.sge_addr;
    next = w.next;
    remote_addr = w.remote_addr;
  }

  -- the iterator after `p` pages are posted and `q` are laid out
  abbrev pub at : WrChainBuffer → (p q : ℕ) → PagedWriteOpIter
  at b p q = record (started V op rma_qp buf context) {
    wr_chain_buffer = b;
    i_wr_head = p % 4;
    i_wr_tail = q % 4;
    wr_len = q - p;
    i_page = op.page_indices_beg + q;
  }

  -- Pages `p .. q` stand in the ring in order, each pointing to the next, and the last to none.
  pub record IsChain (p q : ℕ) (b : WrChainBuffer) : Type 0 where
    pub ordered : p ≤ q
    pub short : q ≤ p + 4
    pub within : q ≤ total
    pub ready : (j : ℕ) → j < 4 → j < total → Templated (b j)
    pub slots :
        (k : ℕ)
        → p ≤ k
        → k < q
        → b (k % 4) ≡ page_wr k (if ltb (k + 1) q then some ((k + 1) % 4) else none)

  abbrev pub HasPages : Type 0
  HasPages =
      (op.page_indices_end ≤ length op.src_page_indices)
      × (op.page_indices_end ≤ length op.dst_page_indices)

  abbrev point : Option ℕ → WorkRequest → WorkRequest
  point next w = record w { next = next }

  -- a request with the addresses of page `q`
  abbrev pub place : ℕ → WorkRequest → WorkRequest
  place q w = record w {
    sge_addr =
        add_u64 (add_u64 op.src_ptr op.src_offset)
          (mul_u64 op.src_stride (nth op.src_page_indices (op.page_indices_beg + q)));
    remote_addr =
        add_u64 (add_u64 op.dst_ptr op.dst_offset)
          (mul_u64 op.dst_stride (nth op.dst_page_indices (op.page_indices_beg + q)));
  }

  abbrev pub prev : ℕ → ℕ
  prev q = (q % 4 + 4 - 1) % 4

  abbrev pub linked : WrChainBuffer → ℕ → WrChainBuffer
  linked b q = write b (prev q) (point (some (q % 4)) (b (prev q)))

  abbrev pub ended : WrChainBuffer → ℕ → WrChainBuffer
  ended b q = write (linked b q) (q % 4) (point none (linked b q (q % 4)))

  -- the buffer after one more page
  abbrev pub filled : WrChainBuffer → ℕ → WrChainBuffer
  filled b q = write (ended b q) (q % 4) (place q (ended b q (q % 4)))

  Templated-point : (next : Option ℕ) (w : WorkRequest) → Templated w → Templated (point next w)
  Templated-point next w h = ap (point next) h

  Templated-place :
      (q : ℕ) (w : WorkRequest) → Templated w → place q (point none w) ≡ page_wr q none
  Templated-place q w h = ap (λ u. place q (point none u)) h

  linked-Templated :
      (p q j : ℕ) (b : WrChainBuffer) → IsChain p q b → j < 4 → j < total → Templated (linked b q j)
  linked-Templated p q j b c h t =
      write-keeps Templated b (prev q) j (point (some (q % 4)) (b (prev q)))
        (λ e.
          Templated-point (some (q % 4)) (b (prev q))
            (c.ready (prev q) (omega (arith, e)) (omega (arith, e))))
        (c.ready j h t)

  ended-Templated :
      (p q j : ℕ) (b : WrChainBuffer)
      → IsChain p q b
      → q < total
      → j < 4
      → j < total
      → Templated (ended b q j)
  ended-Templated p q j b c more h t =
      write-keeps Templated (linked b q) (q % 4) j (point none (linked b q (q % 4)))
        (λ e.
          Templated-point none (linked b q (q % 4))
            (linked-Templated p q (q % 4) b c (omega arith) (omega arith)))
        (linked-Templated p q j b c h t)

  filled-slots :
      (p q k : ℕ) (b : WrChainBuffer)
      → IsChain p q b
      → q < total
      → q < p + 4
      → p ≤ k
      → k < q
      → filled b q (k % 4) ≡ page_wr k (some ((k + 1) % 4))
  filled-slots p q k b c more room low h =
      let apart : k % 4 ≢ q % 4 = omega arith in
      write-other (ended b q) (q % 4) (k % 4) (place q (ended b q (q % 4))) apart
      ∙ write-other (linked b q) (q % 4) (k % 4) (point none (linked b q (q % 4))) apart
      ∙ elim (Bool-cases (k + 1 == q)) [
        | inl last ↦
            let here : k % 4 ≡ prev q = ground arith in
            let next : q % 4 ≡ (k + 1) % 4 = ground arith in
            let old : b (k % 4) ≡ page_wr k none = c.slots k low h ∙ ground arith in
            write-here b (prev q) (k % 4) (point (some (q % 4)) (b (prev q))) here
            ∙ ap (λ i. point (some (q % 4)) (b i)) (sym here)
            ∙ ap (point (some (q % 4))) old
            ∙ ap (λ n. page_wr k (some n)) next
        | inr before ↦
            let elsewhere : k % 4 ≢ prev q = ground arith in
            write-other b (prev q) (k % 4) (point (some (q % 4)) (b (prev q))) elsewhere
            ∙ c.slots k low h
            ∙ ap (page_wr k) (ground arith)
      ]

  pub filled-IsChain :
      (p q : ℕ) (b : WrChainBuffer)
      → IsChain p q b
      → q < total
      → q < p + 4
      → IsChain p (q + 1) (filled b q)
  filled-IsChain p q b c more room = record {
    ordered = omega (arith, c.ordered);
    short = omega arith;
    within = omega arith;
    ready = λ j h t.
        write-keeps Templated (ended b q) (q % 4) j (place q (ended b q (q % 4)))
          (λ e. ap (place q) (ended-Templated p q (q % 4) b c more (omega arith) (omega arith)))
          (ended-Templated p q j b c more h t);
    slots = λ k low h. elim (Bool-cases (k == q)) [
      | inl same ↦
          let here : k % 4 ≡ q % 4 = ground arith in
          let equal : q ≡ k = ground arith in
          write-here (ended b q) (q % 4) (k % 4) (place q (ended b q (q % 4))) here
          ∙ ap (place q)
              (write-here (linked b q) (q % 4) (q % 4) (point none (linked b q (q % 4))) refl)
          ∙ Templated-place q (linked b q (q % 4))
              (linked-Templated p q (q % 4) b c (omega arith) (omega arith))
          ∙ ap (λ n. page_wr n none) equal
          ∙ ap (page_wr k) (ground arith)
      | inr other ↦
          let below : k < q = ground arith in
          filled-slots p q k b c more room low below ∙ ap (page_wr k) (ground arith)
    ];
  }

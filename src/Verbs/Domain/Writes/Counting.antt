-- ===== src/Verbs/Domain/Writes/Counting.antt =====
-- The walk along a chain of fabric-lib/src/verbs/verbs_domain.rs that counts the requests before the
-- one the queue pair had no room for.
use pplx_garden_cxi.Common.{
  ℕ, zero, suc, ◌+◌, ◌%◌, ◌≤◌, ◌<◌, ◌≡◌, ap, ◌∙◌, inl, inr, true, false, Option, none, some, ◌==◌,
  Bool-cases, if◌then◌else◌, ltb, arith,
}
use pplx_garden_cxi.Api.{PagedWriteOp}
use pplx_garden_cxi.Verbs.{Ibverbs, WrChainBuffer}
use pplx_garden_cxi.Verbs.Chain.{IsChain}
use pplx_garden_cxi.Verbs.Domain.Writes.{count_until}

-- the `k`-th request of the chain that starts at a place
unfoldable pub nth_wr : ℕ → WrChainBuffer → ℕ → Option ℕ
nth_wr zero b i = some i
nth_wr (suc k) b i = elim (b i).next [ none ↦ none | some j ↦ nth_wr k b j ]

module _ (V : Ibverbs) (op : PagedWriteOp) (rma_qp : ℕ) (buf : WrChainBuffer) (context : ℕ) where
  abbrev Chained : (p q : ℕ) → WrChainBuffer → Type 0
  Chained = IsChain V op rma_qp buf context

  next_lem :
      (p q j : ℕ) (b : WrChainBuffer)
      → Chained p q b
      → p ≤ j
      → j < q
      → (b (j % 4)).next ≡ (if ltb (j + 1) q then some ((j + 1) % 4) else none)
  next_lem p q j b c low high = ap (λ w. w.next) (c.slots j low high)

  pub nth-chain :
      (k p q j w : ℕ) (b : WrChainBuffer)
      → Chained p q b
      → p ≤ j
      → j < q
      → nth_wr k b (j % 4) ≡ some w
      → (j + k < q) × (w ≡ (j + k) % 4)
  unfolding nth_wr
  nth-chain zero p q j w b c low high e = let same : j % 4 ≡ w = cc in (omega arith, omega arith)
  nth-chain (suc k) p q j w b c low high e = elim (Bool-cases (ltb (j + 1) q)) [
    | inl more ↦
        let next : (b (j % 4)).next ≡ some ((j + 1) % 4) =
          next_lem p q j b c low high ∙ ground (arith, more) in
        let rest =
          nth-chain k p q (j + 1) w b c (omega arith) (ground arith) (ground (arith, e, next)) in
        (omega (arith, rest.0), omega (arith, rest.1))
    | inr last ↦
        let next : (b (j % 4)).next ≡ none = next_lem p q j b c low high ∙ ground (arith, last) in
        absurd (no (ground (arith, e, next)))
  ]
    where
      no : none ≡ some w → ⊥
      no h = cc

  pub count-chain :
      (k rounds p q j cnt : ℕ) (b : WrChainBuffer)
      → Chained p q b
      → p ≤ j
      → j + k < q
      → k < rounds
      → count_until rounds b (some (j % 4)) ((j + k) % 4) cnt ≡ some (cnt + k)
  unfolding count_until
  count-chain k zero p q j cnt b c low high enough = absurd (omega arith)
  count-chain zero (suc rounds) p q j cnt b c low high enough = ground arith
  count-chain (suc k) (suc rounds) p q j cnt b c low high enough =
      let short = c.short in
      let other : (j % 4 == (j + suc k) % 4) ≡ false = ground arith in
      let more : ltb (j + 1) q ≡ true = ground arith in
      let next : (b (j % 4)).next ≡ some ((j + 1) % 4) =
        next_lem p q j b c low (omega arith) ∙ ground (arith, more) in
      let rest =
        count-chain k rounds p q (j + 1) (cnt + 1) b c (omega arith) (omega arith) (omega arith) in
      let there : (j + suc k) % 4 ≡ (j + 1 + k) % 4 = omega arith in
      let sum : cnt + suc k ≡ cnt + 1 + k = omega arith in
      ground (arith, other, next, rest, there, sum)

-- ===== src/Verbs/Domain/Completions/Leaks.antt =====
-- Contexts that fabric-lib/src/verbs/verbs_domain.rs does not free.
use pplx_garden_cxi.Common.{
  ℕ, suc, ◌+◌, ◌<◌, ◌≡◌, refl, ap, ◌∙◌, false, some, List, [], ◌∷◌, ◌++◌, append-nil, lookup,
  length, arith,
}
use pplx_garden_cxi.Api.{Result}
use pplx_garden_cxi.Pool.{Slot}
use pplx_garden_cxi.Verbs.Domain.Heap.{read, modify_at, lookup-modify_at, read-known}
use pplx_garden_cxi.Verbs.Domain.Host.{Host, IbvWc, success}
use pplx_garden_cxi.Verbs.Domain.Writes.{WriteOpContext, progress_rdma_write_op_context}
use pplx_garden_cxi.Verbs.Domain.State.{VerbsDomain}
use pplx_garden_cxi.Verbs.Domain.Completions.{handle_batch}
use pplx_garden_cxi.Verbs.Domain.Completions.Lifetime.{AreOf, finished, after, leaves, reports}
use pplx_garden_cxi.Verbs.Domain.Completions.Batch.{Stays, keep_lem}

module _ {N : Type 0} (H : Host N) where
  abbrev turn : WriteOpContext → N → Result (Unit {0}) × WriteOpContext × N
  turn c n = progress_rdma_write_op_context H c n

  unfoldable pub AllSucceed : List IbvWc → Type 0
  AllSucceed [] = Unit {0}
  AllSucceed (wc ∷ wcs) = (wc.status ≡ success) × AllSucceed wcs

  Stays-short :
      (wcs : List IbvWc) (c : WriteOpContext)
      → c.cnt_finished_ops + length wcs < c.total_ops
      → AllSucceed wcs
      → Stays H wcs c
  unfolding Stays AllSucceed
  Stays-short [] c short all = tt
  Stays-short (wc ∷ wcs) c short (fine, all) =
      let early : leaves wc.status c ≡ false = ground (arith, fine) in
      (early, Stays-short wcs (finished wc.status c) (omega (arith, short)) all)

  reports-short :
      (wcs : List IbvWc) (c : WriteOpContext)
      → c.cnt_finished_ops + length wcs < c.total_ops
      → AllSucceed wcs
      → reports H wcs c ≡ []
  unfolding reports AllSucceed
  reports-short [] c short all = refl
  reports-short (wc ∷ wcs) c short (fine, all) =
      ground (arith, fine, reports-short wcs (finished wc.status c) (omega (arith, short)) all)

  after-count :
      (wcs : List IbvWc) (c : WriteOpContext)
      → (after wcs c).cnt_finished_ops ≡ c.cnt_finished_ops + length wcs
  unfolding after
  after-count [] c = omega arith
  after-count (wc ∷ wcs) c = after-count wcs (finished wc.status c) ∙ omega arith

  -- A write of which only a part is posted, given up after a failure or not. When the completions
  -- of the requests that are posted are successes, its context is there after the last of them,
  -- when all that is posted is finished, and nothing is told to the caller.
  pub given_up_lem :
      (p : ℕ) (c : WriteOpContext) (slot : Slot) (wcs : List IbvWc) (d : VerbsDomain N)
      → lookup (suc p) d.contexts.objects ≡ some (slot, c)
      → c.cnt_posted_ops < c.total_ops
      → c.cnt_finished_ops + length wcs ≡ c.cnt_posted_ops
      → AreOf (suc p) d.ud_qp_num wcs
      → AllSucceed wcs
      → let d' = (handle_batch H wcs d).1 in
        (read (suc p) d'.contexts ≡ some (after wcs c))
        × ((after wcs c).cnt_finished_ops ≡ c.cnt_posted_ops)
        × (d'.completions ≡ d.completions)
  given_up_lem p c slot wcs d e short all own fine =
      let few : c.cnt_finished_ops + length wcs < c.total_ops = omega arith in
      let stays = keep_lem H p c slot wcs d e own (Stays-short wcs c few fine) in
      (
        ap (λ out. read (suc p) out.1.contexts) stays
            ∙ read-known (suc p) (modify_at (suc p) (after wcs) d.contexts) slot (after wcs c)
                (lookup-modify_at (suc p) (after wcs) d.contexts slot c e),
        after-count wcs c ∙ all,
        ap (λ out. out.1.completions) stays
            ∙ ap (λ cs. d.completions ++ cs) (reports-short wcs c few fine)
            ∙ append-nil d.completions,
      )

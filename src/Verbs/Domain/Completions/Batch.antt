-- ===== src/Verbs/Domain/Completions/Batch.antt =====
-- A run of completions of one write, as `poll_cq` of fabric-lib/src/verbs/verbs_domain.rs sees it.
use pplx_garden_cxi.Common.{
  ℕ, suc, ◌+◌, ◌<◌, ◌≡◌, refl, sym, ap, ap₂, ◌∙◌, true, false, some, List, [], ◌∷◌, ◌++◌,
  append_assoc, append-nil, if◌then◌else◌, lookup, length, arith,
}
use pplx_garden_cxi.Api.{ok, DomainCompletionEntry, transfer}
use pplx_garden_cxi.Pool.{Slot, free_no_drop}
use pplx_garden_cxi.Verbs.Domain.Heap.{
  modify_at, free, lookup-modify_at, modify_at-modify_at, modify_at-same, free-modify_at,
}
use pplx_garden_cxi.Verbs.Domain.Host.{Host, IbvWc, WcStatus, success, failure}
use pplx_garden_cxi.Verbs.Domain.Writes.{WriteOpContext}
use pplx_garden_cxi.Verbs.Domain.State.{VerbsDomain}
use pplx_garden_cxi.Verbs.Domain.Completions.{handle_batch, entries, push}
use pplx_garden_cxi.Verbs.Domain.Completions.Lifetime.{
  IsOf, AreOf, finished, after, leaves, report, reports, handled, error_of, cqe_lem,
}

-- The entries for the caller in a run of completions: the first failure is reported, and a success
-- that ends the run.
module _ {N : Type 0} (H : Host N) (id : ℕ) where
  unfoldable pub first_failure : List IbvWc → List DomainCompletionEntry
  first_failure [] = []
  first_failure (wc ∷ wcs) = elim wc.status [
    | success ↦ first_failure wcs
    | failure code ↦ error_of H id code ∷ []
  ]

  unfoldable pub last_success : List IbvWc → List DomainCompletionEntry
  last_success [] = []
  last_success (wc ∷ []) = elim wc.status [ success ↦ transfer id ∷ [] | failure code ↦ [] ]
  last_success (wc ∷ next ∷ wcs) = last_success (next ∷ wcs)

module _ {N : Type 0} (H : Host N) where
  -- the domain after one more completion
  abbrev step : ℕ → IbvWc → WriteOpContext → VerbsDomain N → VerbsDomain N
  step ptr wc c d = push H (report H wc.status c) (handled H ptr wc.status c d)

  batch_step :
      (p : ℕ) (c : WriteOpContext) (slot : Slot) (wc : IbvWc) (wcs : List IbvWc) (d : VerbsDomain N)
      → lookup (suc p) d.contexts.objects ≡ some (slot, c)
      → IsOf (suc p) d.ud_qp_num wc
      → handle_batch H (wc ∷ wcs) d ≡ handle_batch H wcs (step (suc p) wc c d)
  unfolding handle_batch
  batch_step p c slot wc wcs d e own =
      let one = cqe_lem H p c slot wc d e own in ground (arith, one)

  abbrev kept : ℕ → List IbvWc → WriteOpContext → VerbsDomain N → VerbsDomain N
  kept ptr wcs c d = record d {
    contexts = modify_at ptr (after wcs) d.contexts;
    completions = d.completions ++ reports H wcs c;
  }

  -- no completion of the run frees the context
  unfoldable pub Stays : List IbvWc → WriteOpContext → Type 0
  Stays [] c = Unit {0}
  Stays (wc ∷ wcs) c = (leaves wc.status c ≡ false) × Stays wcs (finished wc.status c)

  pub keep_lem :
      (p : ℕ) (c : WriteOpContext) (slot : Slot) (wcs : List IbvWc) (d : VerbsDomain N)
      → lookup (suc p) d.contexts.objects ≡ some (slot, c)
      → AreOf (suc p) d.ud_qp_num wcs
      → Stays wcs c
      → handle_batch H wcs d ≡ (ok tt, kept (suc p) wcs c d)
  unfolding handle_batch after reports AreOf Stays
  keep_lem p c slot [] d e own stays =
      ap₂ (λ h cs. (ok tt, record d { contexts = h; completions = cs }))
        (sym (modify_at-same (suc p) d.contexts slot c e)) (sym (append-nil d.completions))
  keep_lem p c slot (wc ∷ wcs) d e (one, own) (stay, stays) =
      let d₁ =
        push H (report H wc.status c)
          (record d { contexts = modify_at (suc p) (finished wc.status) d.contexts }) in
      let same : step (suc p) wc c d ≡ d₁ = ground (arith, stay) in
      let known = lookup-modify_at (suc p) (finished wc.status) d.contexts slot c e in
      let twice =
        modify_at-modify_at (suc p) (finished wc.status) (after wcs) d.contexts slot c e in
      let assoc =
        append_assoc d.completions (entries (report H wc.status c))
          (reports H wcs (finished wc.status c)) in
      batch_step p c slot wc wcs d e one
      ∙ ap (handle_batch H wcs) same
      ∙ keep_lem p (finished wc.status c) slot wcs d₁ known own stays
      ∙ ap₂ (λ h cs. (ok tt, record d { contexts = h; completions = cs })) twice assoc

  abbrev first_once : WriteOpContext → List IbvWc → List DomainCompletionEntry
  first_once c wcs = if c.bad then [] else first_failure H c.transfer_id wcs

  reports_one :
      (wc : IbvWc) (c : WriteOpContext) (status : WcStatus)
      → wc.status ≡ status
      → c.cnt_finished_ops + 1 ≡ c.total_ops
      → reports H (wc ∷ []) c ≡ first_once c (wc ∷ []) ++ last_success H c.transfer_id (wc ∷ [])
  unfolding reports first_failure last_success
  reports_one wc c success s e = ground (arith, s)
  reports_one wc c (failure code) s e = ground (arith, s)

  first_cons :
      (wc : IbvWc) (wcs : List IbvWc) (c : WriteOpContext) (status : WcStatus)
      → wc.status ≡ status
      → c.cnt_finished_ops + 1 < c.total_ops
      → entries (report H wc.status c) ++ first_once (finished wc.status c) wcs
        ≡ first_once c (wc ∷ wcs)
  unfolding first_failure
  first_cons wc wcs c success s e = ground (arith, s)
  first_cons wc wcs c (failure code) s e = ground (arith, s)

  reports_lem :
      (wc : IbvWc) (wcs : List IbvWc) (c : WriteOpContext)
      → c.cnt_finished_ops + length (wc ∷ wcs) ≡ c.total_ops
      → reports H (wc ∷ wcs) c ≡ first_once c (wc ∷ wcs) ++ last_success H c.transfer_id (wc ∷ wcs)
  unfolding reports last_success
  reports_lem wc [] c e = reports_one wc c wc.status refl (omega (arith, e))
  reports_lem wc (next ∷ wcs) c e =
      let rest = reports_lem next wcs (finished wc.status c) (omega (arith, e)) in
      let first = first_cons wc (next ∷ wcs) c wc.status refl (omega (arith, e)) in
      ap (λ es. entries (report H wc.status c) ++ es) rest
      ∙ sym (
          append_assoc (entries (report H wc.status c))
            (first_once (finished wc.status c) (next ∷ wcs))
            (last_success H c.transfer_id (next ∷ wcs)))
      ∙ ap (λ es. es ++ last_success H c.transfer_id (next ∷ wcs)) first

  abbrev freed : ℕ → WriteOpContext → List DomainCompletionEntry → VerbsDomain N → VerbsDomain N
  freed ptr c cs d = record d {
    contexts = free ptr d.contexts;
    objpool_wr = free_no_drop c.wr_chain_buffer d.objpool_wr;
    completions = d.completions ++ cs;
  }

  leaves-last :
      (status : WcStatus) (c : WriteOpContext)
      → c.in_queue ≡ false
      → c.cnt_posted_ops ≡ c.total_ops
      → c.cnt_finished_ops + 1 ≡ c.total_ops
      → leaves status c ≡ true
  leaves-last success c out posted e = ground (arith, out)
  leaves-last (failure code) c out posted e = ground (arith, out)

  leaves-early :
      (status : WcStatus) (c : WriteOpContext)
      → c.cnt_finished_ops + 1 < c.cnt_posted_ops
      → leaves status c ≡ false
  leaves-early success c e = ground arith
  leaves-early (failure code) c e = ground arith

  free_lem :
      (p : ℕ) (c : WriteOpContext) (slot : Slot) (wc : IbvWc) (wcs : List IbvWc) (d : VerbsDomain N)
      → lookup (suc p) d.contexts.objects ≡ some (slot, c)
      → AreOf (suc p) d.ud_qp_num (wc ∷ wcs)
      → c.in_queue ≡ false
      → c.cnt_posted_ops ≡ c.total_ops
      → c.cnt_finished_ops + length (wc ∷ wcs) ≡ c.total_ops
      → handle_batch H (wc ∷ wcs) d ≡ (ok tt, freed (suc p) c (reports H (wc ∷ wcs) c) d)
  unfolding reports AreOf handle_batch
  free_lem p c slot wc [] d e (one, _) out posted all =
      let stay = leaves-last wc.status c out posted (omega (arith, all)) in
      batch_step p c slot wc [] d e one
      ∙ ground (arith, stay, append-nil (entries (report H wc.status c)))
  free_lem p c slot wc (next ∷ wcs) d e (one, own) out posted all =
      let f = finished wc.status in
      let d₁ =
        push H (report H wc.status c) (record d { contexts = modify_at (suc p) f d.contexts }) in
      let stay = leaves-early wc.status c (omega (arith, all, posted)) in
      let same : step (suc p) wc c d ≡ d₁ = ground (arith, stay) in
      let known = lookup-modify_at (suc p) f d.contexts slot c e in
      let gone = free-modify_at (suc p) f d.contexts slot c e in
      let assoc =
        append_assoc d.completions (entries (report H wc.status c))
          (reports H (next ∷ wcs) (f c)) in
      batch_step p c slot wc (next ∷ wcs) d e one
      ∙ ap (handle_batch H (next ∷ wcs)) same
      ∙ free_lem p (f c) slot next wcs d₁ known own out posted (omega (arith, all))
      ∙ ap₂
          (λ h cs. (
            ok tt,
            record d {
              contexts = h;
              objpool_wr = free_no_drop c.wr_chain_buffer d.objpool_wr;
              completions = cs;
            },
          ))
          gone assoc

  -- A write all of whose requests are posted and which never waited in the queue, with no failure
  -- so far. For its remaining completions, in one batch and in any order of successes and
  -- failures: the caller is told of the first failure, if there is one, and then that the
  -- transfer is done, if the last completion is a success; with the last of them the context and
  -- its chain are freed, and nothing else of the domain changes.
  pub finish_lem :
      (p : ℕ) (c : WriteOpContext) (slot : Slot) (wc : IbvWc) (wcs : List IbvWc) (d : VerbsDomain N)
      → lookup (suc p) d.contexts.objects ≡ some (slot, c)
      → AreOf (suc p) d.ud_qp_num (wc ∷ wcs)
      → c.in_queue ≡ false
      → c.bad ≡ false
      → c.cnt_posted_ops ≡ c.total_ops
      → c.cnt_finished_ops + length (wc ∷ wcs) ≡ c.total_ops
      → handle_batch H (wc ∷ wcs) d ≡ (
        ok tt,
        record d {
          contexts = free (suc p) d.contexts;
          objpool_wr = free_no_drop c.wr_chain_buffer d.objpool_wr;
          completions =
              d.completions
              ++ (first_failure H c.transfer_id (wc ∷ wcs)
                  ++ last_success H c.transfer_id (wc ∷ wcs));
        },
      )
  finish_lem p c slot wc wcs d e own out good posted all =
      let all_of = wc ∷ wcs in
      let told : reports H all_of c
          ≡ first_failure H c.transfer_id all_of ++ last_success H c.transfer_id all_of =
        reports_lem wc wcs c all ∙ ground (arith, good) in
      free_lem p c slot wc wcs d e own out posted all
      ∙ ap (λ cs. (ok tt, freed (suc p) c cs d)) told

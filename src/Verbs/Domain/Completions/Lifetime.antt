-- ===== src/Verbs/Domain/Completions/Lifetime.antt =====
-- The life of a write's context in fabric-lib/src/verbs/verbs_domain.rs, completion by completion.
use pplx_garden_cxi.Common.{
  ℕ, suc, ◌+◌, ◌≡◌, refl, Bool, true, false, not, ◌&&◌, Option, none, some, List, [], ◌∷◌, ◌++◌,
  ◌==◌, if◌then◌else◌, ltb, lookup, arith,
}
use pplx_garden_cxi.Api.{ok, DomainCompletionEntry, transfer, failed, verbs_completion_error}
use pplx_garden_cxi.Pool.{Slot, free_no_drop}
use pplx_garden_cxi.Verbs.Domain.Heap.{
  modify_at, free, read-known, lookup-modify_at, free-modify_at,
}
use pplx_garden_cxi.Verbs.Domain.Host.{Host, IbvWc, WcStatus, success, failure, wc_rdma_write}
use pplx_garden_cxi.Verbs.Domain.Writes.{WriteOpContext}
use pplx_garden_cxi.Verbs.Domain.State.{VerbsDomain}
use pplx_garden_cxi.Verbs.Domain.Completions.{
  entries, failed_once, finished_one, handle_cqe, succeeded, failed_transfer, write_done,
  write_failed,
}
use pplx_garden_cxi.Verbs.Domain.Submit.{maybe_drop_write_op_context}

-- a completion of a request of the write at the address
abbrev pub IsOf : ℕ → (ud_qp_num : ℕ) → IbvWc → Type 0
IsOf ptr ud_qp_num wc =
    ((wc.qp_num == ud_qp_num) ≡ false) × (wc.opcode ≡ wc_rdma_write) × (wc.wr_id ≡ ptr)

unfoldable pub AreOf : ℕ → (ud_qp_num : ℕ) → List IbvWc → Type 0
AreOf ptr ud_qp_num [] = Unit {0}
AreOf ptr ud_qp_num (wc ∷ wcs) = IsOf ptr ud_qp_num wc × AreOf ptr ud_qp_num wcs

abbrev bad_after : WcStatus → Bool → Bool
bad_after success bad = bad
bad_after (failure code) bad = true

abbrev pub finished : WcStatus → WriteOpContext → WriteOpContext
finished status c = record c {
  cnt_finished_ops = c.cnt_finished_ops + 1;
  bad = bad_after status c.bad;
}

-- the context after the completions
unfoldable pub after : List IbvWc → WriteOpContext → WriteOpContext
after [] c = c
after (wc ∷ wcs) c = after wcs (finished wc.status c)

abbrev pub last_of : WcStatus → WriteOpContext → Bool
last_of success c = not (ltb (c.cnt_finished_ops + 1) c.total_ops)
last_of (failure code) c = true

-- whether the completion frees the context
abbrev pub leaves : WcStatus → WriteOpContext → Bool
leaves status c = last_of status c && (c.cnt_finished_ops + 1 == c.cnt_posted_ops) && not c.in_queue

module _ {N : Type 0} (H : Host N) where
  abbrev pub error_of : ℕ → (code : ℕ) → DomainCompletionEntry
  error_of id code = failed id (verbs_completion_error (H.wc_status_str code))

  abbrev pub report : WcStatus → WriteOpContext → Option DomainCompletionEntry
  report success c =
      if ltb (c.cnt_finished_ops + 1) c.total_ops then none else some (transfer c.transfer_id)
  report (failure code) c = if c.bad then none else some (error_of c.transfer_id code)

  abbrev pub handled : ℕ → WcStatus → WriteOpContext → VerbsDomain N → VerbsDomain N
  handled ptr status c d = record d {
    contexts =
        if leaves status c then free ptr d.contexts else modify_at ptr (finished status) d.contexts;
    objpool_wr =
        if leaves status c then free_no_drop c.wr_chain_buffer d.objpool_wr else d.objpool_wr;
  }

  done_lem :
      (p : ℕ) (c : WriteOpContext) (slot : Slot) (d : VerbsDomain N)
      → lookup (suc p) d.contexts.objects ≡ some (slot, c)
      → write_done H (suc p) d ≡ (ok (report success c), handled (suc p) success c d)
  unfolding write_done maybe_drop_write_op_context
  done_lem p c slot d e =
      let known = read-known (suc p) d.contexts slot c e in
      let moved = lookup-modify_at (suc p) finished_one d.contexts slot c e in
      let known' =
        read-known (suc p) (modify_at (suc p) finished_one d.contexts) slot (finished_one c)
          moved in
      let gone = free-modify_at (suc p) finished_one d.contexts slot c e in
      ground (arith, known, known', gone)

  failed_lem :
      (p code : ℕ) (c : WriteOpContext) (slot : Slot) (d : VerbsDomain N)
      → lookup (suc p) d.contexts.objects ≡ some (slot, c)
      → write_failed H (suc p) d
        ≡ (ok (if c.bad then none else some c.transfer_id), handled (suc p) (failure code) c d)
  unfolding write_failed maybe_drop_write_op_context
  failed_lem p code c slot d e =
      let known = read-known (suc p) d.contexts slot c e in
      let moved = lookup-modify_at (suc p) failed_once d.contexts slot c e in
      let known' =
        read-known (suc p) (modify_at (suc p) failed_once d.contexts) slot (failed_once c) moved in
      let gone = free-modify_at (suc p) failed_once d.contexts slot c e in
      ground (arith, known, known', gone)

  by_status :
      (p : ℕ) (c : WriteOpContext) (slot : Slot) (wc : IbvWc) (d : VerbsDomain N)
      (status : WcStatus)
      → wc.status ≡ status
      → lookup (suc p) d.contexts.objects ≡ some (slot, c)
      → IsOf (suc p) d.ud_qp_num wc
      → handle_cqe H wc d ≡ (ok (report status c), handled (suc p) status c d)
  unfolding handle_cqe succeeded failed_transfer
  by_status p c slot wc d success s e (other, kind, here) =
      ground (arith, s, other, kind, here, done_lem p c slot d e)
  by_status p c slot wc d (failure code) s e (other, kind, here) =
      ground (arith, s, other, kind, here, failed_lem p code c slot d e)

  pub cqe_lem :
      (p : ℕ) (c : WriteOpContext) (slot : Slot) (wc : IbvWc) (d : VerbsDomain N)
      → lookup (suc p) d.contexts.objects ≡ some (slot, c)
      → IsOf (suc p) d.ud_qp_num wc
      → handle_cqe H wc d ≡ (ok (report wc.status c), handled (suc p) wc.status c d)
  cqe_lem p c slot wc d = by_status p c slot wc d wc.status refl

  -- the entries for the caller, and the domain after completions that do not free the context
  unfoldable pub reports : List IbvWc → WriteOpContext → List DomainCompletionEntry
  reports [] c = []
  reports (wc ∷ wcs) c = entries (report wc.status c) ++ reports wcs (finished wc.status c)

-- ===== src/Group/Completion/Once.antt =====
-- A transfer with a counter is settled once, whatever else completes in between.
use pplx_garden_cxi.Common.{
  ℕ, zero, suc, ◌-◌, ◌<◌, ◌≡◌, ◌≢◌, refl, ◌∙◌, ap, inl, inr, false, none, List, [], ◌∷◌, arith,
  ◌==◌, lookup,
}
use pplx_garden_cxi.Memory.{Memory}
use pplx_garden_cxi.Api.{DomainCompletionEntry, TransferCounter}
use pplx_garden_cxi.Group.Completion.{on_completion}
use pplx_garden_cxi.Group.Completion.Ledger.{completes, verdict}
use pplx_garden_cxi.Group.Completion.Steps.{Ops, IsSole, SameCells, other-SameCells, Verdict-cases}
use pplx_garden_cxi.Group.Completion.Settling.{
  handle_all, Settlement, pending, completed, errored, settle, counted, err_counted, IsSettled,
  IsSole-step, gone_all, Waits, last-step, short-step, error-step, other-step,
}

-- once the transfer is gone, the rest of the list changes nothing
IsSettled-by :
    (id : ℕ) (t : TransferCounter) (s : Settlement) (es : List DomainCompletionEntry)
    (m m₁ : Memory) (ops₁ : Ops)
    → s ≢ pending
    → lookup id ops₁ ≡ none
    → m₁.cell t.counter ≡ counted s (m.cell t.counter)
    → m₁.cell t.err_counter ≡ err_counted s (m.cell t.err_counter)
    → IsSole id t ops₁
    → IsSettled id t s m (handle_all es ops₁ m₁)
IsSettled-by id t pending es m m₁ ops₁ ne gone c ec sole = absurd (ne refl)
IsSettled-by id t completed es m m₁ ops₁ ne gone c ec sole =
    let r = gone_all id t es ops₁ m₁ gone sole in
    record { counter = r.1.0 ∙ c; err_counter = r.1.1 ∙ ec; kept = r.0 }
IsSettled-by id t errored es m m₁ ops₁ ne gone c ec sole =
    let r = gone_all id t es ops₁ m₁ gone sole in
    record { counter = r.1.0 ∙ c; err_counter = r.1.1 ∙ ec; kept = r.0 }

-- A settlement seen from a memory with the same cells.
IsSettled-from :
    (id : ℕ) (t : TransferCounter) (s : Settlement) (m m₁ : Memory) (r : Ops × Memory)
    → SameCells t m m₁
    → IsSettled id t s m₁ r
    → IsSettled id t s m r
IsSettled-from id t s m m₁ r same h = record {
  counter = h.counter ∙ ap (counted s) same.0;
  err_counter = h.err_counter ∙ ap (err_counted s) same.1;
  kept = h.kept;
}

settle-short :
    (id k : ℕ) (e : DomainCompletionEntry) (es : List DomainCompletionEntry)
    → verdict id e ≡ completes
    → settle (suc (suc k)) id (e ∷ es) ≡ settle (suc k) id es
unfolding settle
settle-short id k e es v =
    let not_one : (suc (suc k) == 1) ≡ false = ground arith in
    let one_less : suc (suc k) - 1 ≡ suc k = omega arith in
    rw (v, settle) (rw (not_one, one_less) refl)

-- A transfer that waits for `left` domains, with a counter whose two cells are different and
-- belong to no other transfer, is settled as `settle` says by any list of completions: its
-- counter goes up once when the last domain completes or the first fails, its error counter once
-- in the second case, and its context stays exactly until then. Completions of other transfers,
-- and late ones of its own, change none of these.
pub settles_once :
    (id left : ℕ) (t : TransferCounter) (es : List DomainCompletionEntry) (ops : Ops) (m : Memory)
    → 0 < left
    → t.counter ≢ t.err_counter
    → Waits id left t ops
    → IsSole id t ops
    → IsSettled id t (settle left id es) m (handle_all es ops m)
unfolding handle_all settle
settles_once id left t [] ops m pos ne w sole = record {
  counter = refl;
  err_counter = refl;
  kept = (w.ctx, w.found);
}
settles_once id zero t (e ∷ es) ops m pos ne w sole = absurd (omega arith)
settles_once id (suc zero) t (e ∷ es) ops m pos ne w sole =
    let (_, ops₁, m₁) = on_completion e ops m in
    let sole' = IsSole-step id t e ops m sole in
    elim (Verdict-cases (verdict id e)) [
      | inl v ↦
          rw (v, settle)
            (IsSettled-from id t (settle 1 id es) m m₁ (handle_all es ops₁ m₁)
              (other-SameCells id t e ops m v sole)
              (settles_once id 1 t es ops₁ m₁ pos ne (other-step id 1 t e ops m v w) sole'))
      | inr (inl v) ↦
          let done' = last-step id t e ops m ne v w in
          rw (v, settle)
            (IsSettled-by id t completed es m m₁ ops₁ (λ q. cc) done'.0 done'.1 done'.2 sole')
      | inr (inr v) ↦
          let failed' = error-step id 1 t e ops m ne v w in
          rw (v, settle)
            (IsSettled-by id t errored es m m₁ ops₁ (λ q. cc) failed'.0 failed'.1 failed'.2 sole')
    ]
settles_once id (suc (suc k)) t (e ∷ es) ops m pos ne w sole =
    let (_, ops₁, m₁) = on_completion e ops m in
    let sole' = IsSole-step id t e ops m sole in
    elim (Verdict-cases (verdict id e)) [
      | inl v ↦
          rw (v, settle)
            (IsSettled-from id t (settle (suc (suc k)) id es) m m₁ (handle_all es ops₁ m₁)
              (other-SameCells id t e ops m v sole)
              (settles_once id (suc (suc k)) t es ops₁ m₁ pos ne
                (other-step id (suc (suc k)) t e ops m v w) sole'))
      | inr (inl v) ↦
          let step = short-step id k t e ops m v w in
          rw (settle-short id k e es v) (
            IsSettled-from id t (settle (suc k) id es) m m₁ (handle_all es ops₁ m₁) step.1
              (settles_once id (suc k) t es ops₁ m₁ (omega arith) ne step.0 sole'))
      | inr (inr v) ↦
          let failed' = error-step id (suc (suc k)) t e ops m ne v w in
          rw (v, settle)
            (IsSettled-by id t errored es m m₁ ops₁ (λ q. cc) failed'.0 failed'.1 failed'.2 sole')
    ]

-- ===== src/Group/Completion/Settling.antt =====
-- How a transfer with a counter ends, and what one completion does to it.
use pplx_garden_cxi.Common.{
  ℕ, suc, ◌+◌, ◌-◌, ◌%◌, ◌^◌, ◌≡◌, ◌≢◌, refl, ◌∙◌, inl, inr, false, Option, none, some, List, [],
  ◌∷◌, arith, ◌==◌, if◌then◌else◌, lookup, insert, lookup-erase, lookup-insert,
}
use pplx_garden_cxi.Memory.{Memory, fetch_add}
use pplx_garden_cxi.Api.{DomainCompletionEntry, TransferCounter, done, error}
use pplx_garden_cxi.Group.{WriteOpContext}
use pplx_garden_cxi.Group.Completion.{
  on_error, on_transfer, on_completion, count_error, report_done,
}
use pplx_garden_cxi.Group.Completion.Ledger.{
  completes, fails, other, verdict, on_completion-Stems, on_completion-other,
}
use pplx_garden_cxi.Group.Completion.Steps.{
  Ops, IsSole, SameCells, other-SameCells, completes-at, fails-at, Verdict-cases,
}

-- the completions of a list, in order
unfoldable pub handle_all : List DomainCompletionEntry → Ops → Memory → Ops × Memory
handle_all [] ops m = (ops, m)
handle_all (e ∷ es) ops m = let (_, ops₁, m₁) = on_completion e ops m in handle_all es ops₁ m₁

pub data Settlement : Type 0 where
  pending completed errored : Settlement

-- How a transfer ends that waits for `left` domains: by the first failure, or by the `left`-th
-- completion.
unfoldable pub settle : ℕ → ℕ → List DomainCompletionEntry → Settlement
settle left id [] = pending
settle left id (e ∷ es) = elim (verdict id e) [
  | completes ↦ let rest = settle (left - 1) id es in if left == 1 then completed else rest
  | fails ↦ errored
  | other ↦ settle left id es
]

-- what a settlement adds to the two cells, on `i64`
abbrev pub counted : Settlement → ℕ → ℕ
counted pending v = v
counted completed v = (v + 1) % 2 ^ 64
counted errored v = (v + 1) % 2 ^ 64

abbrev pub err_counted : Settlement → ℕ → ℕ
err_counted errored v = (v + 1) % 2 ^ 64
err_counted _ v = v

-- the context of a transfer after its completions: it is there as long as it is pending
abbrev pub IsKept : Settlement → Option WriteOpContext → Type 0
IsKept pending o = (c : WriteOpContext) × (o ≡ some c)
IsKept _ o = o ≡ none

pub record IsSettled (id : ℕ) (t : TransferCounter) (s : Settlement) (m : Memory) (r : Ops × Memory)
    : Type 0 where
  pub counter : r.1.cell t.counter ≡ counted s (m.cell t.counter)
  pub err_counter : r.1.cell t.err_counter ≡ err_counted s (m.cell t.err_counter)
  pub kept : IsKept s (lookup id r.0)

pub IsSole-step :
    (id : ℕ) (t : TransferCounter) (e : DomainCompletionEntry) (ops : Ops) (m : Memory)
    → IsSole id t ops
    → IsSole id t (on_completion e ops m).1
IsSole-step id t e ops m sole j c s ne found tx =
    let (b, before, same) = on_completion-Stems e ops m j c found in
    sole j b s ne before (same ∙ tx)

-- A completion after the transfer is gone does nothing to it.
gone-step :
    (id : ℕ) (t : TransferCounter) (e : DomainCompletionEntry) (ops : Ops) (m : Memory)
    → lookup id ops ≡ none
    → IsSole id t ops
    → (lookup id (on_completion e ops m).1 ≡ none) × SameCells t m (on_completion e ops m).2
unfolding on_transfer on_error
gone-step id t e ops m gone sole = elim (Verdict-cases (verdict id e)) [
  | inl v ↦ (on_completion-other id e ops m v ∙ gone, other-SameCells id t e ops m v sole)
  | inr (inl v) ↦ rw (completes-at id e none ops m v gone) (gone, (refl, refl))
  | inr (inr v) ↦ rw (fails-at id e none ops m v gone) (gone, (refl, refl))
]

pub gone_all :
    (id : ℕ) (t : TransferCounter) (es : List DomainCompletionEntry) (ops : Ops) (m : Memory)
    → lookup id ops ≡ none
    → IsSole id t ops
    → let (ops', m') = handle_all es ops m in (lookup id ops' ≡ none) × SameCells t m m'
unfolding handle_all
gone_all id t [] ops m gone sole = (gone, (refl, refl))
gone_all id t (e ∷ es) ops m gone sole =
    let (gone', same) = gone-step id t e ops m gone sole in
    let (_, ops₁, m₁) = on_completion e ops m in
    let ih = gone_all id t es ops₁ m₁ gone' (IsSole-step id t e ops m sole) in
    (ih.0, (ih.1.0 ∙ same.0, ih.1.1 ∙ same.1))

-- a transfer with the counter `t` that still waits for `left` domains
pub record Waits (id left : ℕ) (t : TransferCounter) (ops : Ops) : Type 0 where
  pub ctx : WriteOpContext
  pub found : lookup id ops ≡ some ctx
  pub has_counter : ctx.tx_counter ≡ some t
  pub waits : ctx.cnt_domain_completion + left ≡ ctx.num_used_domains

-- the step on the transfer itself
pub last-step :
    (id : ℕ) (t : TransferCounter) (e : DomainCompletionEntry) (ops : Ops) (m : Memory)
    → t.counter ≢ t.err_counter
    → verdict id e ≡ completes
    → Waits id 1 t ops
    → let (_, ops₁, m₁) = on_completion e ops m in
      (lookup id ops₁ ≡ none)
      × (m₁.cell t.counter ≡ counted completed (m.cell t.counter))
      × (m₁.cell t.err_counter ≡ m.cell t.err_counter)
unfolding on_transfer report_done done fetch_add
last-step id t e ops m ne v w =
    let c = w.ctx in
    let c' = record c { cnt_domain_completion = c.cnt_domain_completion + 1 } in
    rw (completes-at id e (some c) ops m v w.found)
      (ground (arith, w.has_counter, w.waits, lookup-erase id id (insert id c' ops)))

pub short-step :
    (id left : ℕ) (t : TransferCounter) (e : DomainCompletionEntry) (ops : Ops) (m : Memory)
    → verdict id e ≡ completes
    → Waits id (suc (suc left)) t ops
    → let (_, ops₁, m₁) = on_completion e ops m in Waits id (suc left) t ops₁ × SameCells t m m₁
unfolding on_transfer
short-step id left t e ops m v w =
    let c = w.ctx in
    let c' = record c { cnt_domain_completion = c.cnt_domain_completion + 1 } in
    let short : (c.num_used_domains == c.cnt_domain_completion + 1) ≡ false =
      ground (arith, w.waits) in
    rw (completes-at id e (some c) ops m v w.found, short)
      (
        record {
          ctx = c';
          found = ground (arith, lookup-insert id id c' ops);
          has_counter = w.has_counter;
          waits = omega (arith, w.waits);
        },
        (refl, refl),
      )

pub error-step :
    (id left : ℕ) (t : TransferCounter) (e : DomainCompletionEntry) (ops : Ops) (m : Memory)
    → t.counter ≢ t.err_counter
    → verdict id e ≡ fails
    → Waits id left t ops
    → let (_, ops₁, m₁) = on_completion e ops m in
      (lookup id ops₁ ≡ none)
      × (m₁.cell t.counter ≡ counted errored (m.cell t.counter))
      × (m₁.cell t.err_counter ≡ err_counted errored (m.cell t.err_counter))
unfolding on_error count_error error fetch_add
error-step id left t e ops m ne v w =
    rw (fails-at id e (some w.ctx) ops m v w.found, w.has_counter)
      (ground (arith, lookup-erase id id ops))

pub other-step :
    (id left : ℕ) (t : TransferCounter) (e : DomainCompletionEntry) (ops : Ops) (m : Memory)
    → verdict id e ≡ other
    → Waits id left t ops
    → Waits id left t (on_completion e ops m).1
other-step id left t e ops m v w = record {
  ctx = w.ctx;
  found = on_completion-other id e ops m v ∙ w.found;
  has_counter = w.has_counter;
  waits = w.waits;
}

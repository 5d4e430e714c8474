-- ===== src/Group/Completion/Never.antt =====
-- A transfer that waits for no domain.
use pplx_garden_cxi.Common.{
  ℕ, ◌+◌, ◌≡◌, ◌≢◌, ◌∙◌, inl, inr, false, some, List, [], ◌∷◌, arith, ◌==◌, lookup, lookup-insert,
  All,
}
use pplx_garden_cxi.Memory.{Memory}
use pplx_garden_cxi.Api.{DomainCompletionEntry}
use pplx_garden_cxi.Group.{WriteOpContext}
use pplx_garden_cxi.Group.Completion.{on_transfer, on_completion}
use pplx_garden_cxi.Group.Completion.Ledger.{completes, fails, verdict, on_completion-other}
use pplx_garden_cxi.Group.Completion.Steps.{Ops, completes-at, Verdict-cases}
use pplx_garden_cxi.Group.Completion.Settling.{handle_all}

still_tracked :
    (id : ℕ) (e : DomainCompletionEntry) (ops : Ops) (m : Memory) (c : WriteOpContext)
    → verdict id e ≡ completes
    → lookup id ops ≡ some c
    → c.num_used_domains ≡ 0
    → lookup id (on_completion e ops m).1
      ≡ some (record c { cnt_domain_completion = c.cnt_domain_completion + 1 })
unfolding on_transfer
still_tracked id e ops m c v found none' =
    let c' = record c { cnt_domain_completion = c.cnt_domain_completion + 1 } in
    let short : (c.num_used_domains == c.cnt_domain_completion + 1) ≡ false = ground arith in
    rw (completes-at id e (some c) ops m v found, short)
      (ground (arith, lookup-insert id id c' ops))

-- A transfer that was tracked with no domain at all is never completed: whatever completes, as
-- long as it does not fail, its context stays.
pub never_completes :
    (id : ℕ) (es : List DomainCompletionEntry) (ops : Ops) (m : Memory) (c : WriteOpContext)
    → lookup id ops ≡ some c
    → c.num_used_domains ≡ 0
    → All (λ e. verdict id e ≢ fails) es
    → (b : WriteOpContext) × (lookup id (handle_all es ops m).0 ≡ some b) × (b.num_used_domains ≡ 0)
unfolding handle_all
never_completes id [] ops m c found none' sound = (c, found, none')
never_completes id (e ∷ es) ops m c found none' sound =
    let (_, ops₁, m₁) = on_completion e ops m in
    elim (Verdict-cases (verdict id e)) [
      | inl v ↦
          never_completes id es ops₁ m₁ c (on_completion-other id e ops m v ∙ found) none' sound.1
      | inr (inl v) ↦
          let c' = record c { cnt_domain_completion = c.cnt_domain_completion + 1 } in
          never_completes id es ops₁ m₁ c' (still_tracked id e ops m c v found none') none' sound.1
      | inr (inr v) ↦ absurd (sound.0 v)
    ]

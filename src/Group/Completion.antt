-- ===== src/Group/Completion.antt =====
-- `get_completion` of fabric-lib/src/domain_group.rs: the completions of the domains become the
-- completions of the transfers.
pub mod Ledger
pub mod Steps
pub mod Settling
pub mod Once
pub mod Never
pub mod Reports
mod Tests
use pplx_garden_cxi.Common.{
  ℕ, ◌+◌, Option, none, some, List, [], ◌∷◌, ◌==◌, if◌then◌else◌, Map, lookup, insert, erase,
}
use pplx_garden_cxi.Memory.{Memory}
use pplx_garden_cxi.Api.{
  DomainCompletionEntry, recv, send, transfer, imm_data, imm_count_reached, failed, TransferCounter,
  done, error,
}
use pplx_garden_cxi.Provider.{RdmaDomain}
use pplx_garden_cxi.Group.{WriteOpContext, DomainGroup}

-- What the body of the loop does after a completion: it goes on to the next domain, or returns.
pub data Flow : Type 0 where
  continue : Flow
  return : Option DomainCompletionEntry → Flow

abbrev pub Handled : Type 0
Handled = Flow × Map WriteOpContext × Memory

-- `if let Some(tx_counter) = … { tx_counter.error() }`
unfoldable pub count_error : Option TransferCounter → Memory → Memory
count_error none m = m
count_error (some tx) m = error tx m

-- a transfer that is complete: its counter is told, or the caller
unfoldable pub report_done : Option TransferCounter → ℕ → Memory → Flow × Memory
report_done none id m = (return (some (transfer id)), m)
report_done (some tx) id m = (return none, done tx m)

-- the arm for `Error`
unfoldable pub on_error :
    DomainCompletionEntry → Option WriteOpContext → ℕ → Map WriteOpContext → Memory → Handled
unfolding count_error
on_error e none id ops m = (return (some e), ops, m)
on_error e (some ctx) id ops m = (return (some e), erase id ops, count_error ctx.tx_counter m)

-- the arm for `Transfer`: the context is counted up in place, and removed when it is complete
unfoldable pub on_transfer : Option WriteOpContext → ℕ → Map WriteOpContext → Memory → Handled
unfolding report_done
on_transfer none id ops m = (continue, ops, m)
on_transfer (some ctx) id ops m =
    let cnt = ctx.cnt_domain_completion + 1 in
    let ops' = insert id (record ctx { cnt_domain_completion = cnt }) ops in
    let (flow, m') = report_done ctx.tx_counter id m in
    if ctx.num_used_domains == cnt then (flow, erase id ops', m') else (continue, ops', m)

unfoldable pub on_completion : DomainCompletionEntry → Map WriteOpContext → Memory → Handled
unfolding on_error on_transfer
on_completion (failed id e) ops m = on_error (failed id e) (lookup id ops) id ops m
on_completion (transfer id) ops m = on_transfer (lookup id ops) id ops m
on_completion (imm_data imm) ops m = (return (some (imm_data imm)), ops, m)
on_completion (recv id len) ops m = (return (some (recv id len)), ops, m)
on_completion (send id) ops m = (return (some (send id)), ops, m)
on_completion (imm_count_reached imm) ops m = (return (some (imm_count_reached imm)), ops, m)

module _ {D : Type 0} (R : RdmaDomain D) where
  -- the loop, on the domains that are left
  unfoldable pub poll_domains :
      List D
      → Map WriteOpContext
      → Memory
      → Option DomainCompletionEntry × List D × Map WriteOpContext × Memory
  poll_domains [] ops m = (none, [], ops, m)
  poll_domains (d ∷ ds) ops m =
      let (c, d') = R.get_completion d in
      elim c [
        | none ↦ let (r, ds', ops', m') = poll_domains ds ops m in (r, d' ∷ ds', ops', m')
        | some e ↦
            let (flow, ops₁, m₁) = on_completion e ops m in
            elim flow [
              | return r ↦ (r, d' ∷ ds, ops₁, m₁)
              | continue ↦
                  let (r, ds', ops', m') = poll_domains ds ops₁ m₁ in (r, d' ∷ ds', ops', m')
            ]
      ]

  unfoldable pub get_completion :
      DomainGroup D → Memory → Option DomainCompletionEntry × DomainGroup D × Memory
  unfolding poll_domains on_completion
  get_completion g m =
      let (r, ds, ops, m') = poll_domains g.domains g.write_ops m in
      (r, record g { domains = ds; write_ops = ops }, m')

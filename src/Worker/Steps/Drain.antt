-- ===== src/Worker/Steps/Drain.antt =====
-- The completions that one turn of the thread of fabric-lib/src/worker.rs sends on.
use pplx_garden_cxi.Common.{
  ℕ, zero, suc, ◌+◌, ◌≤◌, ◌<◌, ◌≡◌, ap, ◌∙◌, inl, inr, true, Option, none, some, List, [], ◌∷◌,
  ◌++◌, map, append_assoc, append-nil, Option-cases, arith,
}
use pplx_garden_cxi.Memory.{Memory}
use pplx_garden_cxi.Api.{ok, DomainCompletionEntry}
use pplx_garden_cxi.Provider.{RdmaDomain}
use pplx_garden_cxi.Group.{DomainGroup}
use pplx_garden_cxi.Group.Completion.{on_completion, poll_domains, get_completion}
use pplx_garden_cxi.Group.Completion.Steps.{Ops}
use pplx_garden_cxi.Group.Completion.Reports.{Flow-cases}
use pplx_garden_cxi.Worker.{TransferCompletionEntry, tx_comp}
use pplx_garden_cxi.Worker.Steps.{WorkerState, send_completions}

module _ {D : Type 0} (R : RdmaDomain D) where
  abbrev one : Option DomainCompletionEntry → ℕ
  one none = 0
  one (some e) = 1

  -- A measure of the completions that are left in a domain: each that is taken makes it smaller.
  abbrev pub IsFinite : (D → ℕ) → Type 0
  IsFinite size = (d : D) → size (R.get_completion d).1 + one (R.get_completion d).0 ≤ size d

  unfoldable pub left : (D → ℕ) → List D → ℕ
  left size [] = 0
  left size (d ∷ ds) = size d + left size ds

  module _ (size : D → ℕ) (finite : IsFinite size) where
    poll-left :
        (ds : List D) (ops : Ops) (m : Memory)
        → left size (poll_domains R ds ops m).1 + one (poll_domains R ds ops m).0 ≤ left size ds
    unfolding poll_domains left
    poll-left [] ops m = omega arith
    poll-left (d ∷ ds) ops m =
        let fewer = finite d in
        let d' = (R.get_completion d).1 in
        elim (Option-cases (R.get_completion d).0) [
          | inl e ↦
              let ih = poll-left ds ops m in
              let less : size d' ≤ size d = ground (arith, e, fewer) in ground (arith, e, ih, less)
          | inr (c, e) ↦
              let less : size d' + 1 ≤ size d = ground (arith, e, fewer) in
              elim (Flow-cases (on_completion c ops m).0) [
                | inl go ↦
                    let ih = poll-left ds (on_completion c ops m).1 (on_completion c ops m).2 in
                    ground (arith, e, go, ih, less)
                | inr (none, back) ↦ ground (arith, e, back, less)
                | inr (some r, back) ↦ ground (arith, e, back, less)
              ]
        ]

  -- The completions that the group gives, one call after the other, until it gives none.
  pub data Drained
      : List DomainCompletionEntry → DomainGroup D → Memory → DomainGroup D → Memory → Type 0 where
    ends :
        (g : DomainGroup D) (m : Memory)
        → (get_completion R g m).0 ≡ none
        → Drained [] g m (get_completion R g m).1 (get_completion R g m).2
    more :
        (g g' : DomainGroup D) (m m' : Memory) (c : DomainCompletionEntry)
        (es : List DomainCompletionEntry)
        → (get_completion R g m).0 ≡ some c
        → Drained es (get_completion R g m).1 (get_completion R g m).2 g' m'
        → Drained (c ∷ es) g m g' m'

  abbrev pub sending : List TransferCompletionEntry → WorkerState D → WorkerState D
  sending es w = record w { queue = record w.queue { sent = w.queue.sent ++ es } }

  module _ (size : D → ℕ) (finite : IsFinite size) where
    get-left :
        (g : DomainGroup D) (m : Memory)
        → left size (get_completion R g m).1.domains + one (get_completion R g m).0
          ≤ left size g.domains
    unfolding get_completion
    get-left g m = poll-left size finite g.domains g.write_ops m

    abbrev pub Sent : (rounds : ℕ) → WorkerState D → Type 0
    Sent rounds w =
        (es : List DomainCompletionEntry) × (g' : DomainGroup D) × (m' : Memory) × Drained es
          w.group w.memory g' m'
        × (send_completions R rounds w
            ≡ (ok true, record (sending (map tx_comp es) w) { group = g'; memory = m' }))

    pub drain_lem :
        (rounds : ℕ) (w : WorkerState D)
        → w.queue.connected ≡ true
        → left size w.group.domains < rounds
        → Sent rounds w
    unfolding send_completions
    drain_lem zero w open' enough = absurd (omega arith)
    drain_lem (suc rounds) w open' enough =
        let g₁ = (get_completion R w.group w.memory).1 in
        let m₁ = (get_completion R w.group w.memory).2 in
        let fewer = get-left w.group w.memory in
        elim (Option-cases (get_completion R w.group w.memory).0) [
          | inl e ↦
              ([], g₁, m₁, ends w.group w.memory e, ground (arith, e, append-nil w.queue.sent))
          | inr (c, e) ↦
              let less : left size g₁.domains + 1 ≤ left size w.group.domains =
                ground (arith, e, fewer) in
              let w₁ = record (sending (tx_comp c ∷ []) w) { group = g₁; memory = m₁ } in
              let (es, g', m', rest, run) = drain_lem rounds w₁ open' (omega arith) in
              let next : send_completions R (suc rounds) w ≡ send_completions R rounds w₁ =
                ground (arith, e, open') in
              let assoc = append_assoc w.queue.sent (tx_comp c ∷ []) (map tx_comp es) in
              (
                c ∷ es,
                g',
                m',
                more w.group g' w.memory m' c es e rest,
                next
                    ∙ run
                    ∙ ap
                        (λ s. (
                          ok true,
                          record w { group = g'; memory = m'; queue = record w.queue { sent = s } },
                        ))
                        assoc,
              )
        ]

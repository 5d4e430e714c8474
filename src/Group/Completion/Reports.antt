-- ===== src/Group/Completion/Reports.antt =====
-- `get_completion` as a whole: which domains it polls, what it takes from them, and what it returns.
use pplx_garden_cxi.Common.{
  ℕ, ◌+◌, ◌≡◌, ◌⊎◌, refl, sym, ap, ◌∙◌, inl, inr, Option, none, some, List, [], ◌∷◌, ◌++◌, lookup,
  ◌==◌, if◌then◌else◌, Option-cases, arith,
}
use pplx_garden_cxi.Memory.{Memory}
use pplx_garden_cxi.Api.{
  DomainCompletionEntry, recv, send, transfer, imm_data, imm_count_reached, failed,
}
use pplx_garden_cxi.Provider.{RdmaDomain}
use pplx_garden_cxi.Group.{WriteOpContext, DomainGroup}
use pplx_garden_cxi.Group.Completion.{
  Flow, continue, return, on_completion, on_transfer, on_error, report_done, poll_domains,
  get_completion,
}
use pplx_garden_cxi.Group.Completion.Steps.{Ops}
use pplx_garden_cxi.Group.Completion.Settling.{handle_all}

-- What a completion of a transfer with this context tells the caller: nothing, as long as other
-- domains are awaited; then that it is done, unless a counter is told in its place.
abbrev pub told : ℕ → Option WriteOpContext → Flow
told id none = continue
told id (some c) =
    if c.num_used_domains == c.cnt_domain_completion + 1
    then return (elim c.tx_counter [ none ↦ some (transfer id) | some _ ↦ none ])
    else continue

-- what a completion ends the poll with
abbrev pub answer : DomainCompletionEntry → Ops → Flow
answer (transfer id) ops = told id (lookup id ops)
answer e ops = return (some e)

told_lem :
    (id : ℕ) (o : Option WriteOpContext) (ops : Ops) (m : Memory)
    → (on_transfer o id ops m).0 ≡ told id o
unfolding on_transfer report_done
told_lem id none ops m = refl
told_lem id (some c) ops m = ground arith

answer_lem :
    (e : DomainCompletionEntry) (ops : Ops) (m : Memory) → (on_completion e ops m).0 ≡ answer e ops
unfolding on_completion on_error
answer_lem (transfer id) ops m = told_lem id (lookup id ops) ops m
answer_lem (failed id x) ops m = ground arith
answer_lem (imm_data imm) ops m = refl
answer_lem (recv id len) ops m = refl
answer_lem (send id) ops m = refl
answer_lem (imm_count_reached imm) ops m = refl

-- the completions, handled in order, do not end the poll
abbrev pub Continues : List DomainCompletionEntry → Ops → Memory → Type 0
Continues [] ops m = Unit
Continues (e ∷ es) ops m =
    let (_, ops₁, m₁) = on_completion e ops m in (answer e ops ≡ continue) × Continues es ops₁ m₁

pub Flow-cases : (f : Flow) → (f ≡ continue) ⊎ ((r : Option DomainCompletionEntry) × (f ≡ return r))
Flow-cases continue = inl refl
Flow-cases (return r) = inr (r, refl)

module _ {D : Type 0} (R : RdmaDomain D) where
  -- Each of the domains was polled once, and they gave the completions, in order.
  pub data Pops : List D → List D → List DomainCompletionEntry → Type 0 where
    over : Pops [] [] []
    idle :
        (d d' : D) {ds ds' : List D} {es : List DomainCompletionEntry}
        → R.get_completion d ≡ (none, d')
        → Pops ds ds' es
        → Pops (d ∷ ds) (d' ∷ ds') es
    hit :
        (d d' : D) (e : DomainCompletionEntry) {ds ds' : List D} {es : List DomainCompletionEntry}
        → R.get_completion d ≡ (some e, d')
        → Pops ds ds' es
        → Pops (d ∷ ds) (d' ∷ ds') (e ∷ es)

  -- A poll goes through all domains and returns nothing, or stops at the one whose completion
  -- ends it, and returns the answer to that completion.
  pub data Polled (ds ds' : List D) (ops ops' : Ops) (m m' : Memory)
      (r : Option DomainCompletionEntry) : Type 0 where
    through :
        (es : List DomainCompletionEntry)
        → Pops ds ds' es
        → Continues es ops m
        → handle_all es ops m ≡ (ops', m')
        → r ≡ none
        → Polled ds ds' ops ops' m m' r
    stopped :
        (before before' rest : List D) (d d' : D) (es : List DomainCompletionEntry)
        (e : DomainCompletionEntry)
        → ds ≡ before ++ (d ∷ rest)
        → ds' ≡ before' ++ (d' ∷ rest)
        → Pops before before' es
        → Continues es ops m
        → R.get_completion d ≡ (some e, d')
        → answer e (handle_all es ops m).0 ≡ return r
        → handle_all (es ++ (e ∷ [])) ops m ≡ (ops', m')
        → Polled ds ds' ops ops' m m' r

  Polled-idle :
      (d d' : D) (ds ds' : List D) (ops ops' : Ops) (m m' : Memory)
      (r : Option DomainCompletionEntry)
      → R.get_completion d ≡ (none, d')
      → Polled ds ds' ops ops' m m' r
      → Polled (d ∷ ds) (d' ∷ ds') ops ops' m m' r
  Polled-idle d d' ds ds' ops ops' m m' r nothing (through es pops goes h none') =
      through es (idle d d' nothing pops) goes h none'
  Polled-idle d d' ds ds' ops ops' m m' r nothing
        (stopped bs bs' rest x x' es e s s' pops goes got ends h) =
      stopped (d ∷ bs) (d' ∷ bs') rest x x' es e (ap (λ l. d ∷ l) s) (ap (λ l. d' ∷ l) s')
        (idle d d' nothing pops) goes got ends h

  Polled-hit :
      (d d' : D) (c : DomainCompletionEntry) (ds ds' : List D) (ops ops' : Ops) (m m' : Memory)
      (r : Option DomainCompletionEntry)
      → R.get_completion d ≡ (some c, d')
      → answer c ops ≡ continue
      → Polled ds ds' (on_completion c ops m).1 ops' (on_completion c ops m).2 m' r
      → Polled (d ∷ ds) (d' ∷ ds') ops ops' m m' r
  unfolding handle_all
  Polled-hit d d' c ds ds' ops ops' m m' r given on (through es pops goes h none') =
      through (c ∷ es) (hit d d' c given pops) (on, goes) h none'
  Polled-hit d d' c ds ds' ops ops' m m' r given on
        (stopped bs bs' rest x x' es e s s' pops goes got ends h) =
      stopped (d ∷ bs) (d' ∷ bs') rest x x' (c ∷ es) e (ap (λ l. d ∷ l) s) (ap (λ l. d' ∷ l) s')
        (hit d d' c given pops) (on, goes) got ends h

  poll_domains-Polled :
      (ds : List D) (ops : Ops) (m : Memory)
      → let (r, ds', ops', m') = poll_domains R ds ops m in Polled ds ds' ops ops' m m' r
  unfolding poll_domains handle_all
  poll_domains-Polled [] ops m = through [] over tt refl refl
  poll_domains-Polled (d ∷ ds) ops m =
      let d' = (R.get_completion d).1 in
      let (r, ds', ops', m') = poll_domains R ds ops m in
      elim (Option-cases (R.get_completion d).0) [
        | inl e ↦
            rw (e, poll_domains)
              (Polled-idle d d' ds ds' ops ops' m m' r (ap (λ c. (c, d')) e)
                (poll_domains-Polled ds ops m))
        | inr (c, e) ↦
            let given : R.get_completion d ≡ (some c, d') = ap (λ o. (o, d')) e in
            let (flow, ops₁, m₁) = on_completion c ops m in
            let says = answer_lem c ops m in
            elim (Flow-cases flow) [
              | inl go ↦
                  let (r₁, ds₁, ops₂, m₂) = poll_domains R ds ops₁ m₁ in
                  rw (e, poll_domains, go)
                    (Polled-hit d d' c ds ds₁ ops ops₂ m m₂ r₁ given (sym says ∙ go)
                      (poll_domains-Polled ds ops₁ m₁))
              | inr (r₁, back) ↦
                  rw (e, poll_domains, back)
                    (stopped [] [] ds d d' [] c refl refl over tt given (sym says ∙ back) refl)
            ]
      ]

  -- One call of `get_completion` polls the domains in order, each once, and handles every
  -- completion it takes, in that order. It stops at the first completion that has an answer for
  -- the caller and returns that answer, leaving the later domains alone; with none it goes
  -- through all domains and returns nothing. Any completion but `Transfer` is its own answer; a
  -- `Transfer` has one when it is the last that its context awaits: the entry itself, or nothing
  -- if the transfer has a counter.
  pub get_completion_lem :
      (g : DomainGroup D) (m : Memory)
      → let (r, g', m') = get_completion R g m in
        Polled g.domains g'.domains g.write_ops g'.write_ops m m' r
  unfolding get_completion
  get_completion_lem g m = poll_domains-Polled g.domains g.write_ops m

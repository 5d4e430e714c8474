-- ===== src/Group/Completion/Ledger.antt =====
-- One completion against the contexts of the transfers: what it does to the transfer that it
-- names, and that it leaves the others alone.
use pplx_garden_cxi.Common.{
  ℕ, ◌+◌, ◌≡◌, ◌≢◌, refl, inl, inr, false, Option, none, some, arith, ◌==◌, if◌then◌else◌,
  Bool-cases, Map, lookup, insert, erase, lookup-insert, lookup-erase, insert-cases, erase-cases,
}
use pplx_garden_cxi.Memory.{Memory}
use pplx_garden_cxi.Api.{
  DomainCompletionEntry, recv, send, transfer, imm_data, imm_count_reached, failed,
}
use pplx_garden_cxi.Group.{WriteOpContext}
use pplx_garden_cxi.Group.Completion.{on_error, on_transfer, on_completion}

abbrev Ops : Type 0
Ops = Map WriteOpContext

-- What a completion says of the transfer `id`.
pub data Verdict : Type 0 where
  completes fails other : Verdict

abbrev pub verdict : ℕ → DomainCompletionEntry → Verdict
verdict id (transfer j) = if j == id then completes else other
verdict id (failed j e) = if j == id then fails else other
verdict id (recv j len) = other
verdict id (send j) = other
verdict id (imm_data imm) = other
verdict id (imm_count_reached imm) = other

-- Each context of `new` was there before with the same counter.
abbrev pub Stems : Ops → Ops → Type 0
Stems old new =
    (j : ℕ) (c : WriteOpContext)
    → lookup j new ≡ some c
    → (b : WriteOpContext) × (lookup j old ≡ some b) × (b.tx_counter ≡ c.tx_counter)

Stems-refl : (ops : Ops) → Stems ops ops
Stems-refl ops j c e = (c, e, refl)

Stems-erase : (id : ℕ) (old new : Ops) → Stems old new → Stems old (erase id new)
Stems-erase id old new h j c e = h j c (erase-cases id j c new e).1

Stems-insert :
    (id : ℕ) (b c : WriteOpContext) (ops : Ops)
    → lookup id ops ≡ some b
    → b.tx_counter ≡ c.tx_counter
    → Stems ops (insert id c ops)
Stems-insert id b c ops found same j d e = elim (insert-cases id j c d ops e) [
  | inl (jk, dc) ↦ (b, rw jk found, rw dc same)
  | inr (_, old) ↦ (d, old, refl)
]

on_error-Stems :
    (e : DomainCompletionEntry) (o : Option WriteOpContext) (id : ℕ) (ops : Ops) (m : Memory)
    → Stems ops (on_error e o id ops m).1
unfolding on_error
on_error-Stems e none id ops m = Stems-refl ops
on_error-Stems e (some ctx) id ops m = Stems-erase id ops ops (Stems-refl ops)

on_transfer-Stems :
    (o : Option WriteOpContext) (id : ℕ) (ops : Ops) (m : Memory)
    → lookup id ops ≡ o
    → Stems ops (on_transfer o id ops m).1
unfolding on_transfer
on_transfer-Stems none id ops m found = Stems-refl ops
on_transfer-Stems (some ctx) id ops m found =
    let cnt = ctx.cnt_domain_completion + 1 in
    let counted = record ctx { cnt_domain_completion = cnt } in
    let kept = Stems-insert id ctx counted ops found refl in
    elim (Bool-cases (ctx.num_used_domains == cnt)) [
      | inl full ↦ rw full (Stems-erase id ops (insert id counted ops) kept)
      | inr short ↦ rw short kept
    ]

-- No completion adds a context or changes the counter of one.
pub on_completion-Stems :
    (e : DomainCompletionEntry) (ops : Ops) (m : Memory) → Stems ops (on_completion e ops m).1
unfolding on_completion
on_completion-Stems (failed id e) ops m = on_error-Stems (failed id e) (lookup id ops) id ops m
on_completion-Stems (transfer id) ops m = on_transfer-Stems (lookup id ops) id ops m refl
on_completion-Stems (imm_data imm) ops m = Stems-refl ops
on_completion-Stems (recv id len) ops m = Stems-refl ops
on_completion-Stems (send id) ops m = Stems-refl ops
on_completion-Stems (imm_count_reached imm) ops m = Stems-refl ops

on_error-other :
    (id j : ℕ) (e : DomainCompletionEntry) (o : Option WriteOpContext) (ops : Ops) (m : Memory)
    → j ≢ id
    → lookup id (on_error e o j ops m).1 ≡ lookup id ops
unfolding on_error
on_error-other id j e none ops m ne = refl
on_error-other id j e (some ctx) ops m ne = ground (arith, lookup-erase j id ops)

on_transfer-other :
    (id j : ℕ) (o : Option WriteOpContext) (ops : Ops) (m : Memory)
    → j ≢ id
    → lookup id (on_transfer o j ops m).1 ≡ lookup id ops
unfolding on_transfer
on_transfer-other id j none ops m ne = refl
on_transfer-other id j (some ctx) ops m ne =
    let ctx' = record ctx { cnt_domain_completion = ctx.cnt_domain_completion + 1 } in
    ground (arith, lookup-erase j id (insert j ctx' ops), lookup-insert j id ctx' ops)

ne_of_test : (j id : ℕ) → (j == id) ≡ false → j ≢ id
ne_of_test j id h = ground arith

-- A completion of another transfer, or of none, leaves the context of `id` as it is.
pub on_completion-other :
    (id : ℕ) (e : DomainCompletionEntry) (ops : Ops) (m : Memory)
    → verdict id e ≡ other
    → lookup id (on_completion e ops m).1 ≡ lookup id ops
unfolding on_completion
on_completion-other id (failed j e) ops m v =
    on_error-other id j (failed j e) (lookup j ops) ops m (ground arith)
on_completion-other id (transfer j) ops m v =
    on_transfer-other id j (lookup j ops) ops m (ground arith)
on_completion-other id (imm_data imm) ops m v = refl
on_completion-other id (recv j len) ops m v = refl
on_completion-other id (send j) ops m v = refl
on_completion-other id (imm_count_reached imm) ops m v = refl

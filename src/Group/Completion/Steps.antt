-- ===== src/Group/Completion/Steps.antt =====
-- A completion of a transfer, by what is known of its context, and the memory that it touches.
use pplx_garden_cxi.Common.{
  ℕ, ◌+◌, ◌≡◌, ◌≢◌, ◌⊎◌, refl, ◌∙◌, ap, inl, inr, Option, none, some, arith, ◌==◌, Bool-cases, Map,
  lookup,
}
use pplx_garden_cxi.Memory.{Memory}
use pplx_garden_cxi.Api.{
  DomainCompletionEntry, recv, send, transfer, imm_data, imm_count_reached, failed, TransferCounter,
  done, error,
}
use pplx_garden_cxi.Group.{WriteOpContext}
use pplx_garden_cxi.Group.Completion.{
  on_error, on_transfer, on_completion, count_error, report_done,
}
use pplx_garden_cxi.Group.Completion.Ledger.{Verdict, completes, fails, other, verdict}

abbrev pub Ops : Type 0
Ops = Map WriteOpContext

-- A `Transfer` of `id` runs its arm on the context of `id`.
pub completes-arm :
    (id : ℕ) (e : DomainCompletionEntry) (ops : Ops) (m : Memory)
    → verdict id e ≡ completes
    → on_completion e ops m ≡ on_transfer (lookup id ops) id ops m
unfolding on_completion
completes-arm id (transfer j) ops m v =
    ap (λ k. on_transfer (lookup k ops) k ops m) (same_id j id v)
  where
    same_id : (j id : ℕ) → verdict id (transfer j) ≡ completes → j ≡ id
    same_id j id v = ground arith
completes-arm id (failed j e) ops m v = absurd (ground arith)
completes-arm id (imm_data imm) ops m v = cc
completes-arm id (recv j len) ops m v = cc
completes-arm id (send j) ops m v = cc
completes-arm id (imm_count_reached imm) ops m v = cc

pub fails-arm :
    (id : ℕ) (e : DomainCompletionEntry) (ops : Ops) (m : Memory)
    → verdict id e ≡ fails
    → on_completion e ops m ≡ on_error e (lookup id ops) id ops m
unfolding on_completion
fails-arm id (failed j e) ops m v =
    ap (λ k. on_error (failed j e) (lookup k ops) k ops m) (same_id j id v)
  where
    same_id : (j id : ℕ) → verdict id (failed j e) ≡ fails → j ≡ id
    same_id j id v = ground arith
fails-arm id (transfer j) ops m v = absurd (ground arith)
fails-arm id (imm_data imm) ops m v = cc
fails-arm id (recv j len) ops m v = cc
fails-arm id (send j) ops m v = cc
fails-arm id (imm_count_reached imm) ops m v = cc

-- The counters of a transfer are no cells of `t`.
abbrev pub Apart : TransferCounter → TransferCounter → Type 0
Apart t s =
    (s.counter ≢ t.counter)
    × (s.err_counter ≢ t.counter)
    × (s.counter ≢ t.err_counter)
    × (s.err_counter ≢ t.err_counter)

-- No other transfer uses the cells of `t`.
abbrev pub IsSole : ℕ → TransferCounter → Ops → Type 0
IsSole id t ops =
    (j : ℕ) (c : WriteOpContext) (s : TransferCounter)
    → j ≢ id
    → lookup j ops ≡ some c
    → c.tx_counter ≡ some s
    → Apart t s

abbrev pub SameCells : TransferCounter → Memory → Memory → Type 0
SameCells t m n =
    (n.cell t.counter ≡ m.cell t.counter) × (n.cell t.err_counter ≡ m.cell t.err_counter)

count_error-SameCells :
    (t : TransferCounter) (o : Option TransferCounter) (m : Memory)
    → ((s : TransferCounter) → o ≡ some s → Apart t s)
    → SameCells t m (count_error o m)
unfolding count_error error
count_error-SameCells t none m h = (refl, refl)
count_error-SameCells t (some s) m h = ground (arith, h s refl)

report_done-SameCells :
    (t : TransferCounter) (o : Option TransferCounter) (id : ℕ) (m : Memory)
    → ((s : TransferCounter) → o ≡ some s → Apart t s)
    → SameCells t m (report_done o id m).1
unfolding report_done done
report_done-SameCells t none id m h = (refl, refl)
report_done-SameCells t (some s) id m h = ground (arith, h s refl)

on_error-SameCells :
    (t : TransferCounter) (e : DomainCompletionEntry) (o : Option WriteOpContext) (id : ℕ)
    (ops : Ops) (m : Memory)
    → ((c : WriteOpContext) (s : TransferCounter) → o ≡ some c → c.tx_counter ≡ some s → Apart t s)
    → SameCells t m (on_error e o id ops m).2
unfolding on_error
on_error-SameCells t e none id ops m h = (refl, refl)
on_error-SameCells t e (some c) id ops m h =
    count_error-SameCells t c.tx_counter m (λ s q. h c s refl q)

on_transfer-SameCells :
    (t : TransferCounter) (o : Option WriteOpContext) (id : ℕ) (ops : Ops) (m : Memory)
    → ((c : WriteOpContext) (s : TransferCounter) → o ≡ some c → c.tx_counter ≡ some s → Apart t s)
    → SameCells t m (on_transfer o id ops m).2
unfolding on_transfer
on_transfer-SameCells t none id ops m h = (refl, refl)
on_transfer-SameCells t (some c) id ops m h =
    elim (Bool-cases (c.num_used_domains == c.cnt_domain_completion + 1)) [
      | inl full ↦ rw full (report_done-SameCells t c.tx_counter id m (λ s q. h c s refl q))
      | inr short ↦ rw short (refl, refl)
    ]

-- A completion of another transfer leaves the cells of `t` as they are.
pub other-SameCells :
    (id : ℕ) (t : TransferCounter) (e : DomainCompletionEntry) (ops : Ops) (m : Memory)
    → verdict id e ≡ other
    → IsSole id t ops
    → SameCells t m (on_completion e ops m).2
unfolding on_completion
other-SameCells id t (failed j e) ops m v sole =
    on_error-SameCells t (failed j e) (lookup j ops) j ops m (λ c s. sole j c s (ground arith))
other-SameCells id t (transfer j) ops m v sole =
    on_transfer-SameCells t (lookup j ops) j ops m (λ c s. sole j c s (ground arith))
other-SameCells id t (imm_data imm) ops m v sole = (refl, refl)
other-SameCells id t (recv j len) ops m v sole = (refl, refl)
other-SameCells id t (send j) ops m v sole = (refl, refl)
other-SameCells id t (imm_count_reached imm) ops m v sole = (refl, refl)

pub completes-at :
    (id : ℕ) (e : DomainCompletionEntry) (o : Option WriteOpContext) (ops : Ops) (m : Memory)
    → verdict id e ≡ completes
    → lookup id ops ≡ o
    → on_completion e ops m ≡ on_transfer o id ops m
completes-at id e o ops m v found =
    completes-arm id e ops m v ∙ ap (λ c. on_transfer c id ops m) found

pub fails-at :
    (id : ℕ) (e : DomainCompletionEntry) (o : Option WriteOpContext) (ops : Ops) (m : Memory)
    → verdict id e ≡ fails
    → lookup id ops ≡ o
    → on_completion e ops m ≡ on_error e o id ops m
fails-at id e o ops m v found = fails-arm id e ops m v ∙ ap (λ c. on_error e c id ops m) found

pub Verdict-cases : (v : Verdict) → (v ≡ other) ⊎ ((v ≡ completes) ⊎ (v ≡ fails))
Verdict-cases other = inl refl
Verdict-cases completes = inr (inl refl)
Verdict-cases fails = inr (inr refl)

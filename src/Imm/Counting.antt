-- ===== src/Imm/Counting.antt =====
-- `ImmCount::inc` over a sequence of arrivals.
use pplx_garden_cxi.Common.{
  ℕ, zero, suc, ◌+◌, ◌*◌, ◌^◌, ◌<◌, ◌≡◌, inl, inr, arith, if◌then◌else◌, Bool-cases,
}
use pplx_garden_cxi.Memory.{Memory, fetch_add, fetch_sub}
use pplx_garden_cxi.Imm.{ImmCount, expected_count, inc}

-- `n` arrivals: how often `inc` answered true, and the memory then
unfoldable pub arrivals : ℕ → ImmCount → Memory → ℕ × Memory
arrivals zero v m = (0, m)
arrivals (suc n) v m =
    let (done, m₁) = inc v m in let (k, m₂) = arrivals n v m₁ in (if done then k + 1 else k, m₂)

-- One arrival takes the counter up by one, or back to zero at the expected value.
pub inc_step :
    (c e : ℕ) (m : Memory)
    → e < 2 ^ 32
    → m.cell c < e
    → let (done, m₁) = inc (expected_count c e) m in
      ((if done then e else 0) + m₁.cell c ≡ m.cell c + 1) × (m₁.cell c < e)
unfolding inc fetch_add fetch_sub
inc_step c e m he h = ground arith

-- Over any number `n` of arrivals at a counter below its expected value, `inc` answers true as
-- often as the expected value goes into the counter plus `n`, and the counter keeps the rest.
pub arrivals_lem :
    (n c e : ℕ) (m : Memory)
    → e < 2 ^ 32
    → m.cell c < e
    → let (k, m₁) = arrivals n (expected_count c e) m in
      (k * e + m₁.cell c ≡ m.cell c + n) × (m₁.cell c < e)
unfolding arrivals
arrivals_lem zero c e m he h = (omega arith, h)
arrivals_lem (suc n) c e m he h =
    let m₁ = (inc (expected_count c e) m).1 in
    let step = inc_step c e m he h in
    let ih = arrivals_lem n c e m₁ he step.1 in
    elim (Bool-cases (inc (expected_count c e) m).0) [
      | inl yes' ↦ rw yes' (ground arith)
      | inr no' ↦ rw no' (ground arith)
    ]

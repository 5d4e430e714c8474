-- ===== src/Host/Power.antt =====
-- `next_power_of_two`: what is asked for fits, and the doubling ends.
use pplx_garden_cxi.Common.{ℕ, zero, suc, ◌*◌, ◌^◌, ◌≤◌, ◌<◌, ◌≡◌, arith}
use pplx_garden_cxi.Host.{power_from, next_power_of_two}

double : (p f : ℕ) → 2 * p * 2 ^ f ≡ p * 2 ^ suc f
double p f = grind arith

grows : (p f : ℕ) → p ≤ p * 2 ^ f
grows p zero = grind arith
grows p (suc f) = grind (arith, grows p f)

power_from-bounds :
    (fuel f p n : ℕ)
    → f < fuel
    → n ≤ p * 2 ^ f
    → (n ≤ power_from fuel p n) × (power_from fuel p n ≤ p * 2 ^ f)
unfolding power_from
power_from-bounds zero f p n more fits = absurd (omega arith)
power_from-bounds (suc fuel) zero p n more fits = ground arith
power_from-bounds (suc fuel) (suc f) p n more fits =
    let up = double p f in
    let big = grows p (suc f) in
    ground (arith, power_from-bounds fuel f (2 * p) n (omega arith) (omega arith))

pub next_power_of_two-bounds :
    (n : ℕ) → n ≤ 2 ^ 62 → (n ≤ next_power_of_two n) × (next_power_of_two n ≤ 2 ^ 62)
unfolding next_power_of_two
next_power_of_two-bounds n fits =
    let b = power_from-bounds 64 62 1 n (omega arith) (omega arith) in omega arith

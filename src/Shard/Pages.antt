-- ===== src/Shard/Pages.antt =====
-- `divide_evenly` cuts a range into consecutive ranges, one for each domain that has any.
use native.Mathlib.Nat.{div-add-mod, mod-lt}
use pplx_garden_cxi.Common.{
  ℕ, zero, suc, ◌+◌, ◌-◌, ◌*◌, ◌%◌, ◌≤◌, ◌<◌, ◌≡◌, min, inl, inr, List, [], ◌∷◌, arith, ◌==◌,
  Bool-cases, length, true, ==_iff, refl,
}
use pplx_garden_cxi.Shard.{div_ceil, divide_loop, divide_evenly}

-- The ranges follow one another from `a` to `b`; none is empty or longer than `step`.
abbrev pub Tiles : (step a b : ℕ) → List (ℕ × ℕ) → Type 0
Tiles step a b [] = a ≡ b
Tiles step a b ((beg, end) ∷ rest) =
    (beg ≡ a) × (beg < end) × (end ≤ beg + step) × Tiles step end b rest

pub div_ceil_bounds : (n k : ℕ) → 0 < k → (n ≤ k * div_ceil n k) × (k * div_ceil n k < n + k)
unfolding div_ceil
div_ceil_bounds n k h =
    let parts = div-add-mod n k in
    let small = mod-lt n h in
    elim (Bool-cases (n % k == 0)) [
      | inl even ↦ rw even (grind arith)
      | inr odd ↦ rw odd (grind arith)
    ]

chunk_zero :
    (rounds step remainder : ℕ)
    → remainder ≤ suc rounds * step
    → (min remainder step == 0) ≡ true
    → remainder ≡ 0
chunk_zero rounds step zero h e = refl
chunk_zero rounds zero (suc remainder) h e = absurd (omega arith)
chunk_zero rounds (suc step) (suc remainder) h e = absurd (omega (arith, (==_iff _ _).0 e))

rest_fits :
    (rounds step remainder : ℕ)
    → remainder ≤ suc rounds * step
    → remainder - min remainder step ≤ rounds * step
rest_fits rounds step remainder h = omega arith

divide_loop-Tiles :
    (rounds step remainder beg end : ℕ)
    → remainder ≤ rounds * step
    → beg + remainder ≡ end
    → Tiles step beg end (divide_loop rounds step remainder beg)
unfolding divide_loop
divide_loop-Tiles zero step remainder beg end h e = omega arith
divide_loop-Tiles (suc rounds) step remainder beg end h e =
    let chunk = min remainder step in
    let ih =
      divide_loop-Tiles rounds step (remainder - chunk) (beg + chunk) end
        (rest_fits rounds step remainder h) (omega arith) in
    elim (Bool-cases (chunk == 0)) [
      | inl done ↦ rw done (omega (arith, chunk_zero rounds step remainder h done))
      | inr more ↦ rw more (refl, ground arith, omega arith, ih)
    ]

length-divide_loop :
    (rounds step remainder beg : ℕ) → length (divide_loop rounds step remainder beg) ≤ rounds
unfolding divide_loop
length-divide_loop zero step remainder beg = omega arith
length-divide_loop (suc rounds) step remainder beg =
    let chunk = min remainder step in
    ground (arith, length-divide_loop rounds step (remainder - chunk) (beg + chunk))

-- For any number of domains but none: the ranges are consecutive and cover exactly the pages
-- `0 .. n`, none is empty, none is longer than the ceiling of `n / k`, which falls short of
-- `n / k + 1`, and there are at most `k`, so that no domain gets two.
pub divide_evenly_lem :
    (n k : ℕ)
    → 0 < k
    → Tiles (div_ceil n k) 0 n (divide_evenly n k)
      × (length (divide_evenly n k) ≤ k)
      × (k * div_ceil n k < n + k)
unfolding divide_evenly
divide_evenly_lem n k h =
    let bounds = div_ceil_bounds n k h in
    (
      divide_loop-Tiles k (div_ceil n k) n 0 n bounds.0 (omega arith),
      length-divide_loop k (div_ceil n k) n 0,
      bounds.1,
    )

-- ===== src/Shard/Bytes.antt =====
-- `shard_single_transfer` cuts the bytes of a transfer into one range for each shard.
use native.Mathlib.Nat.{div-add-mod, mod-lt}
use pplx_garden_cxi.Common.{
  ℕ, zero, suc, ◌+◌, ◌-◌, ◌*◌, ◌/◌, ◌%◌, ◌≤◌, ◌<◌, ◌≡◌, ◌≢◌, ◌⊎◌, ◌↔◌, ap, min, inl, inr, List, [],
  ◌∷◌, arith, ◌==◌, ltb, refl, Bool-cases, length, ==_iff,
}
use pplx_garden_cxi.Shard.{div_ceil, round_up, min_size, shard_loop, shard_single_transfer}

-- The shards with bytes follow one another from `a` to `b`; an empty one is at offset 0; a shard
-- that does not end at the total has `base` bytes.
abbrev pub Covers : (base total a b : ℕ) → List (ℕ × ℕ) → Type 0
Covers base total a b [] = a ≡ b
Covers base total a b ((offset, len) ∷ rest) =
    ((len ≡ 0) × (offset ≡ 0) × Covers base total a b rest)
    ⊎ ((0 < len)
        × (offset ≡ a)
        × ((len ≡ base) ⊎ (offset + len ≡ total))
        × Covers base total (a + len) b rest)

shard_loop-Covers :
    (rounds base total offset end : ℕ)
    → offset ≤ total
    → end ≡ min total (offset + rounds * base)
    → Covers base total offset end (shard_loop rounds base total offset)
      × (length (shard_loop rounds base total offset) ≡ rounds)
unfolding shard_loop
shard_loop-Covers zero base total offset end h e = (omega arith, refl)
shard_loop-Covers (suc rounds) base total offset end h e =
    let len = min base (total - offset) in
    elim (Bool-cases (ltb 0 len)) [
      | inl some' ↦
          let ih =
            shard_loop-Covers rounds base total (offset + len) end (omega arith) (ground arith) in
          rw (some', shard_loop) (inr (ground arith, refl, ground arith, ih.0), ap suc ih.1)
      | inr none' ↦
          let ih = shard_loop-Covers rounds base total offset end h (grind arith) in
          rw (none', shard_loop) (inl (refl, refl, ih.0), ap suc ih.1)
    ]

pub round_up_bounds :
    (q : ℕ)
    → (q ≤ round_up q min_size)
      × ((q % min_size ≢ 0) → q + 1 ≤ round_up q min_size)
      × ((q % min_size ≡ 0) → round_up q min_size ≡ q)
unfolding round_up div_ceil
round_up_bounds q = (ground arith, ground arith, ground arith)

round_up-aligned : (q : ℕ) → round_up q min_size % min_size ≡ 0
unfolding round_up
round_up-aligned q = omega arith

pub mul_mono : (k a b : ℕ) → a ≤ b → k * a ≤ k * b
mul_mono k a b h = grind arith

-- The shards are consecutive ranges from byte 0 on, `k` in number; empty ones are at offset 0,
-- and all others but the last have the same length, a multiple of 8192. They end at the total or
-- at `k` times that length, whichever is less.
pub shard_single_transfer_lem :
    (total k : ℕ)
    → let base = round_up (total / k) min_size in
      Covers base total 0 (min total (k * base)) (shard_single_transfer total k)
      × (length (shard_single_transfer total k) ≡ k)
      × (base % min_size ≡ 0)
unfolding shard_single_transfer
shard_single_transfer_lem total k =
    let base = round_up (total / k) min_size in
    let loop =
      shard_loop-Covers k base total 0 (min total (k * base)) (omega arith) (omega arith) in
    (loop.0, loop.1, round_up-aligned (total / k))

-- how many bytes the shards have
unfoldable pub sharded_bytes : List (ℕ × ℕ) → ℕ
sharded_bytes [] = 0
sharded_bytes ((offset, len) ∷ rest) = len + sharded_bytes rest

Covers-bytes :
    (base total a b : ℕ) (shards : List (ℕ × ℕ))
    → Covers base total a b shards
    → a + sharded_bytes shards ≡ b
unfolding sharded_bytes
Covers-bytes base total a b [] h = omega arith
Covers-bytes base total a b ((offset, len) ∷ rest) (inl (empty, at, h)) =
    omega (arith, Covers-bytes base total a b rest h)
Covers-bytes base total a b ((offset, len) ∷ rest) (inr (some', at, how, h)) =
    omega (arith, Covers-bytes base total (a + len) b rest h)

-- where the shards end, as `shard_single_transfer_lem` says
abbrev end_of : ℕ → ℕ → ℕ
end_of total k = min total (k * round_up (total / k) min_size)

sharded_bytes-end : (total k : ℕ) → sharded_bytes (shard_single_transfer total k) ≡ end_of total k
sharded_bytes-end total k =
    let base = round_up (total / k) min_size in
    omega (
      arith,
      Covers-bytes base total 0 (end_of total k) (shard_single_transfer total k)
          (shard_single_transfer_lem total k).0,
    )

end_of_iff :
    (total k : ℕ)
    → 0 < k
    → (end_of total k ≡ total) ↔ ((total % k ≡ 0) ⊎ ((total / k) % min_size ≢ 0))
end_of_iff total k h =
    let q = total / k in
    let b = round_up q min_size in
    let parts = div-add-mod total k in
    let rest = mod-lt total h in
    let up = round_up_bounds q in
    elim (Bool-cases (q % min_size == 0)) [
      | inl aligned ↦
          let same : k * b ≡ k * q = ap (λ t. k * t) (up.2 ((==_iff _ _).0 aligned)) in
          (
            λ e. inl (omega arith),
            elim [ inl even ↦ omega arith | inr ne ↦ absurd (ne ((==_iff _ _).0 aligned)) ],
          )
      | inr uneven ↦
          let ne : q % min_size ≢ 0 = ground arith in
          let more = mul_mono k (q + 1) b (up.1 ne) in (λ _. inr ne, λ _. omega arith)
    ]

lost_bytes : (total k : ℕ) → 0 < k → (end_of total k ≤ total) × (total < end_of total k + k)
lost_bytes total k h =
    let more =
      mul_mono k (total / k) (round_up (total / k) min_size) (round_up_bounds (total / k)).0 in
    omega (arith, div-add-mod total k, mod-lt total h)

-- The shards of a transfer, of at least one, have all its bytes exactly if its length is a multiple
-- of `k` or the quotient is no multiple of 8192; they have no more bytes, and fewer than `k` bytes
-- are in no shard.
pub coverage_lem :
    (total k : ℕ)
    → 0 < k
    → let moved = sharded_bytes (shard_single_transfer total k) in
      ((moved ≡ total) ↔ ((total % k ≡ 0) ⊎ ((total / k) % min_size ≢ 0)))
      × (moved ≤ total)
      × (total < moved + k)
coverage_lem total k h =
    let path = sharded_bytes-end total k in
    let short = lost_bytes total k h in rw path (end_of_iff total k h, short.0, short.1)

-- ===== src/Shard.antt =====
-- The helpers of fabric-lib/src/domain_group.rs that cut a transfer into ranges:
-- `divide_evenly`, `round_up` and `shard_single_transfer`.
pub mod Pages
pub mod Bytes
pub mod Slices
mod Tests
use pplx_garden_cxi.Common.{
  ℕ, zero, suc, ◌+◌, ◌-◌, ◌*◌, ◌/◌, ◌%◌, min, Bool, true, false, List, [], ◌∷◌, ◌==◌, ltb,
  if◌then◌else◌,
}

-- `usize::div_ceil`; the callers' divisors are not zero.
unfoldable pub div_ceil : ℕ → ℕ → ℕ
div_ceil n k = if n % k == 0 then n / k else n / k + 1

-- the loop of `divide_evenly`, on the rounds left
unfoldable pub divide_loop : ℕ → ℕ → ℕ → ℕ → List (ℕ × ℕ)
divide_loop zero step remainder beg = []
divide_loop (suc rounds) step remainder beg =
    let chunk = min remainder step in
    let rest = divide_loop rounds step (remainder - chunk) (beg + chunk) in
    if chunk == 0 then [] else (beg, beg + chunk) ∷ rest

unfoldable pub divide_evenly : ℕ → ℕ → List (ℕ × ℕ)
unfolding divide_loop div_ceil
divide_evenly n k = divide_loop k (div_ceil n k) n 0

unfoldable pub round_up : ℕ → ℕ → ℕ
unfolding div_ceil
round_up value multiple = div_ceil value multiple * multiple

abbrev pub min_size : ℕ
min_size = 8192

-- The loop of `shard_single_transfer`: an offset and a length for each shard. The offset never
-- passes the total, so that `total_size - offset` does not wrap.
unfoldable pub shard_loop : ℕ → ℕ → ℕ → ℕ → List (ℕ × ℕ)
shard_loop zero base total offset = []
shard_loop (suc rounds) base total offset =
    let len = min base (total - offset) in
    elim (ltb 0 len) [
      | true ↦ (offset, len) ∷ shard_loop rounds base total (offset + len)
      | false ↦ (0, 0) ∷ shard_loop rounds base total offset
    ]

unfoldable pub shard_single_transfer : ℕ → ℕ → List (ℕ × ℕ)
unfolding shard_loop round_up
shard_single_transfer total shards = shard_loop shards (round_up (total / shards) min_size) total 0

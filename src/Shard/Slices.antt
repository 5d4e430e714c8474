-- ===== src/Shard/Slices.antt =====
-- How the byte shards of a scatter cut a target; fabric-lib/src/efa/efa_rdma_op.rs and
-- fabric-lib/src/verbs/verbs_rdma_op.rs compute the same slices.
use native.Mathlib.Nat.{div-add-mod, mul_comm}
use pplx_garden_cxi.Common.{ℕ, ◌+◌, ◌*◌, ◌/◌, ◌%◌, ◌^◌, ◌≤◌, ◌<◌, ◌≡◌, ◌↔◌, ◌∙◌, arith}
use pplx_garden_cxi.Api.{shard_len, shard_start}
use pplx_garden_cxi.Shard.Bytes.{mul_mono}

-- Of a target of less than 2^32 bytes, shard `i` of `k` has a slice inside the target that starts
-- where the slices of the shards before it end; and the `k` slices are the whole target exactly
-- if its length is a multiple of `k`.
pub slices_lem :
    (total k i : ℕ)
    → total < 2 ^ 32
    → i < k
    → let len = shard_len total k in
      (shard_start len i ≡ i * len)
      × (shard_start len i + len ≤ total)
      × ((k * len ≡ total) ↔ (total % k ≡ 0))
unfolding shard_len shard_start
slices_lem total k i small below =
    let fits : total % 2 ^ 32 ≡ total = omega arith in
    let q = total / k in
    let parts = div-add-mod total k in
    let slice : q * (i + 1) ≤ q * k = mul_mono q (i + 1) k (omega arith) in
    let turn : q * k ≡ k * q = mul_comm q k in
    let split : q * (i + 1) ≡ q * i + q = grind arith in
    let start : (q * i) % 2 ^ 32 ≡ q * i = omega arith in
    rw fits (start ∙ mul_comm q i, omega arith, (λ e. omega arith, λ e. omega arith))

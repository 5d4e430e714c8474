-- ===== src/Shard/Tests.antt =====
-- Ranges at concrete sizes.
use pplx_garden_cxi.Common.{
  ◌+◌, ◌*◌, ◌%◌, ◌/◌, ◌≤◌, ◌<◌, ◌≡◌, ◌≢◌, ◌⊎◌, ◌↔◌, refl, [], ◌∷◌, arith, length,
}
use pplx_garden_cxi.Api.{shard_len, shard_start}
use pplx_garden_cxi.Shard.Slices.{slices_lem}
use pplx_garden_cxi.Shard.{div_ceil, round_up, min_size, divide_evenly, shard_single_transfer}
use pplx_garden_cxi.Shard.Pages.{Tiles, divide_evenly_lem}
use pplx_garden_cxi.Shard.Bytes.{Covers, sharded_bytes, shard_single_transfer_lem, coverage_lem}

seven_pages : divide_evenly 7 4 ≡ (0, 2) ∷ (2, 4) ∷ (4, 6) ∷ (6, 7) ∷ []
unfolding divide_evenly
seven_pages = refl

-- The fourth of four domains gets no range.
five_pages : divide_evenly 5 4 ≡ (0, 2) ∷ (2, 4) ∷ (4, 5) ∷ []
unfolding divide_evenly
five_pages = refl

two_shards : shard_single_transfer 20000 2 ≡ (0, 16384) ∷ (16384, 3616) ∷ []
unfolding shard_single_transfer
two_shards = refl

-- Byte 16384 is in no shard.
lost_byte : shard_single_transfer 16385 2 ≡ (0, 8192) ∷ (8192, 8192) ∷ []
unfolding shard_single_transfer
lost_byte = refl

-- A transfer of one byte over two shards moves nothing.
lost_transfer : shard_single_transfer 1 2 ≡ (0, 0) ∷ (0, 0) ∷ []
unfolding shard_single_transfer
lost_transfer = refl

divide_evenly_lem_example :
    Tiles (div_ceil 7 4) 0 7 (divide_evenly 7 4)
    × (length (divide_evenly 7 4) ≤ 4)
    × (4 * div_ceil 7 4 < 7 + 4)
divide_evenly_lem_example = divide_evenly_lem 7 4 (omega arith)

shard_single_transfer_lem_example :
    let base = round_up (20000 / 2) min_size in
    Covers base 20000 0 20000 (shard_single_transfer 20000 2)
    × (length (shard_single_transfer 20000 2) ≡ 2)
    × (base % min_size ≡ 0)
unfolding round_up
shard_single_transfer_lem_example = shard_single_transfer_lem 20000 2

coverage_lem_example :
    let moved = sharded_bytes (shard_single_transfer 16385 2) in
    ((moved ≡ 16385) ↔ ((16385 % 2 ≡ 0) ⊎ (8192 % 8192 ≢ 0)))
    × (moved ≤ 16385)
    × (16385 < moved + 2)
coverage_lem_example = coverage_lem 16385 2 (omega arith)

-- Two shards of 513 bytes: the last byte is in neither.
slices_lem_example :
    (shard_start (shard_len 513 2) 1 ≡ 1 * shard_len 513 2)
    × (shard_start (shard_len 513 2) 1 + shard_len 513 2 ≤ 513)
    × ((2 * shard_len 513 2 ≡ 513) ↔ (513 % 2 ≡ 0))
slices_lem_example = slices_lem 513 2 1 (omega arith) (omega arith)

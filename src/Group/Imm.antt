-- ===== src/Group/Imm.antt =====
-- `submit_imm_transfer_request` of fabric-lib/src/domain_group.rs: immediates to a list of
-- targets, for the requests `Imm` and `Barrier`.
pub mod Plan
pub mod Submit
mod Tests
use pplx_garden_cxi.Common.{
  ℕ, zero, suc, ◌+◌, ◌%◌, not, Option, List, [], ◌∷◌, ◌==◌, leb, min, length, take, drop,
}
use pplx_garden_cxi.Shard.{div_ceil}
use pplx_garden_cxi.Api.{
  Action, pure, ◌>>=◌, ◌>>◌, raise_if, panic_if, modify, custom, MemoryRegionDescriptor,
  DomainGroupRouting, round_robin_sharded, pinned, TransferCounter, imm_write,
}
use pplx_garden_cxi.Provider.{RdmaDomain}
use pplx_garden_cxi.Group.{
  DomainGroup, for_each, item, num_domains, on_domain, track, round_robin, check_addresses,
}

-- `slice::chunks` of a size that is not zero; the list gives fuel enough.
unfoldable pub chunks_fuel {ℓ} : {A : Type ℓ} → ℕ → ℕ → List A → List (List A)
chunks_fuel zero size xs = []
chunks_fuel (suc f) size [] = []
chunks_fuel (suc f) size (x ∷ xs) = take size (x ∷ xs) ∷ chunks_fuel f size (drop size (x ∷ xs))

unfoldable pub chunks {ℓ} : {A : Type ℓ} → ℕ → List A → List (List A)
unfolding chunks_fuel
chunks size xs = chunks_fuel (length xs) size xs

module _ {D : Type 0} where
  -- the first domain, and how many immediates each domain takes
  unfoldable pub imm_route : DomainGroupRouting → ℕ → Action (DomainGroup D) (ℕ × ℕ)
  imm_route (round_robin_sharded shards) count = do
    raise_if (not (shards == 1)) (
        custom
          "DomainGroupRouting::RoundRobinSharded should have num_shards = 1 for BarrierTransferRequest")
    n ← num_domains
    first ← round_robin (min n count)
    pure (first, div_ceil count n)
  imm_route (pinned idx) count = do
    n ← num_domains
    raise_if (leb n idx) (custom "DomainGroupRouting::Pinned.domain_idx is out of bounds")
    pure (idx, count)

module _ {D : Type 0} (R : RdmaDomain D) (id imm_data : ℕ) where
  -- the inner loop: the targets of chunk `i`, by the domain `d`
  abbrev pub send_imm : ℕ → ℕ → MemoryRegionDescriptor → Action (DomainGroup D) (Unit {0})
  send_imm i d mr = do
    target ← item mr.addr_rkey_list i
    on_domain d (
        R.submit_write id target.0
          (imm_write (record { imm_data = imm_data; dst_ptr = mr.ptr; dst_rkey = target.1 })))

  -- the outer loop from chunk `i` on
  unfoldable pub send_chunks :
      ℕ → ℕ → List (List MemoryRegionDescriptor) → Action (DomainGroup D) (Unit {0})
  send_chunks first i [] = pure tt
  send_chunks first i (chunk ∷ rest) = do
    n ← num_domains
    for_each chunk (send_imm i ((first + i) % n))
    send_chunks first (i + 1) rest

  unfoldable pub submit_imm_transfer_request :
      List MemoryRegionDescriptor
      → DomainGroupRouting
      → Option TransferCounter
      → Action (DomainGroup D) (Unit {0})
  submit_imm_transfer_request dst_mrs routing tx = do
    for_each dst_mrs check_addresses
    modify (track id (length dst_mrs) tx)
    route ← imm_route routing (length dst_mrs)
    panic_if (route.1 == 0)
    send_chunks route.0 0 (chunks route.1 dst_mrs)

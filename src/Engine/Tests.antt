-- ===== src/Engine/Tests.antt =====
-- Runs of the engine, over workers that write down the commands they are given.
use pplx_garden_cxi.Common.{ℕ, ◌≡◌, refl, none, some, List, [], ◌∷◌, Map, arith, lookup, insert}
use pplx_garden_cxi.Provider.{MemoryRegion, Mapping}
use pplx_garden_cxi.Api.{Result, ok, TransferRequest, single, pinned}
use pplx_garden_cxi.Worker.Steps.{WorkerCommand, submit_transfer}
use pplx_garden_cxi.Engine.{
  Device, cuda, WorkerHandle, FabricEngine, get_main_worker, get_worker, get_worker_by_mr,
  worker_of, on_worker, registering, register_memory_local, unregister_memory, submit_request,
}
use pplx_garden_cxi.Engine.Uses.{Reached}
use pplx_garden_cxi.Engine.Routes.{Routed, routed_lem}

-- the regions that were taken back, and the commands
abbrev Log : Type 0
Log = List ℕ × List WorkerCommand

abbrev logging : WorkerHandle Log
logging = record {
  register_mr_local = λ region w. (some (ok region.ptr), w);
  register_mr_allow_remote =
      λ region w. (some (ok (region.ptr, record { ptr = region.ptr; addr_rkey_list = [] })), w);
  unregister_mr = λ ptr w. (some tt, (ptr ∷ w.0, w.1));
  add_peer_group = λ addrs w. (some (ok 0), w);
  acquire_uvm_watcher = λ w. (some (some 0), w);
  release_uvm_watcher = λ watcher w. (some tt, w);
  send = λ command w. (some tt, (w.0, command ∷ w.1));
  try_recv = λ w. (none, w);
}

abbrev region_of : (ptr len : ℕ) → Device → Result MemoryRegion
region_of ptr len device = ok (record { ptr = ptr; len = len; mapping = Mapping.host })

abbrev two_gpus : Map Log
two_gpus = (0, ([], [])) ∷ (1, ([], [])) ∷ []

abbrev start : FabricEngine Log
start = record { workers = two_gpus; mr_device_map = [] }

abbrev request : TransferRequest
request = single (record {
  src_mr = 4096;
  src_offset = 0;
  length = 64;
  imm_data = none;
  dst_mr = record { ptr = 8192; addr_rkey_list = [] };
  dst_offset = 0;
  routing = pinned 0;
})

-- A region of the second GPU that was registered, and unregistered, which the first is asked for.
abbrev used : FabricEngine Log
used =
    (unregister_memory logging 4096
      (register_memory_local logging region_of 4096 64 (cuda 1) start).1).1

used_is : used ≡ record {
  workers = (0, (4096 ∷ [], [])) ∷ (1, ([], [])) ∷ [];
  mr_device_map = (4096, cuda 1) ∷ [];
}
unfolding unregister_memory register_memory_local registering on_worker get_worker get_main_worker
    lookup insert
used_is = refl

past : Reached logging region_of two_gpus ((4096, cuda 1) ∷ []) used
unfolding register_memory_local registering on_worker get_worker lookup
past = Reached.unregisters 4096 (Reached.registers_local 4096 64 (cuda 1) Reached.begin)

routed_lem_example : Routed logging 7 request none used (some (cuda 1))
unfolding lookup
routed_lem_example = routed_lem logging region_of (omega arith) past 7 request none

sent : submit_request logging 7 request none used ≡ (
  ok tt,
  record {
    workers = (0, (4096 ∷ [], [])) ∷ (1, ([], submit_transfer 7 request none ∷ [])) ∷ [];
    mr_device_map = (4096, cuda 1) ∷ [];
  },
)
unfolding submit_request worker_of get_worker_by_mr unregister_memory register_memory_local
    registering on_worker get_worker get_main_worker lookup insert
sent = refl

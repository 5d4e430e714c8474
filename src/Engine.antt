-- ===== src/Engine.antt =====
-- fabric-lib/src/fabric_engine.rs: the workers of all GPUs behind one object, which finds the
-- worker that a call is for.
mod Kept
mod Logged
mod Uses
mod Routes
mod Tests
use pplx_garden_cxi.Common.{
  ℕ, Bool, true, false, Option, none, some, List, [], ◌∷◌, Map, lookup, insert,
}
use pplx_garden_cxi.Provider.{MemoryRegion}
use pplx_garden_cxi.Api.{
  FabricLibError, Result, ok, err, panicked, custom, Action, lift, modify, pure, ◌>>=◌, ◌>>◌,
  DomainAddress, MemoryRegionDescriptor, TransferRequest, imm, barrier, single, paged, scatter,
  TransferCounter,
}
use pplx_garden_cxi.Worker.{TransferCompletionEntry}
use pplx_garden_cxi.Worker.Steps.{WorkerCommand, submit_transfer, send_to, receive}

-- `Device` of rust/cuda-lib/src/device.rs
pub data Device : Type 0 where
  host : Device
  cuda : (device_id : ℕ) → Device

-- `WorkerHandle`: a call sends to a thread of the worker and waits for its reply; none says that
-- the channel or the reply is gone. `try_recv` looks into the queue of completions.
pub record WorkerHandle (W : Type 0) : Type 0 where
  pub register_mr_local : MemoryRegion → W → Option (Result ℕ) × W
  pub register_mr_allow_remote : MemoryRegion → W → Option (Result (ℕ × MemoryRegionDescriptor)) × W
  pub unregister_mr : (ptr : ℕ) → W → Option (Unit {0}) × W
  pub add_peer_group : List (List DomainAddress) → W → Option (Result ℕ) × W
  pub acquire_uvm_watcher : W → Option (Option ℕ) × W
  pub release_uvm_watcher : (watcher : ℕ) → W → Option (Unit {0}) × W
  pub send : WorkerCommand → W → Option (Unit {0}) × W
  pub try_recv : W → Option TransferCompletionEntry × W

-- The table of workers is in the order of the devices.
pub record FabricEngine (W : Type 0) : Type 0 where
  pub workers : Map W
  pub mr_device_map : Map Device

abbrev pub down : FabricLibError
down = custom "Worker is down"

abbrev pub watcher_of : Option ℕ → Result ℕ
watcher_of none = err (custom "Failed to acquire UVM watcher")
watcher_of (some watcher) = ok watcher

module _ {W : Type 0} where
  unfoldable pub get_main_worker : Map W → Result (ℕ × W)
  get_main_worker [] = panicked
  get_main_worker (first ∷ rest) = ok first

  unfoldable pub get_worker : Device → Map W → Result (ℕ × W)
  get_worker host workers = get_main_worker workers
  get_worker (cuda device_id) workers = elim (lookup device_id workers) [
    | none ↦ err (custom "Worker not found")
    | some w ↦ ok (device_id, w)
  ]

  unfoldable pub get_worker_by_mr : ℕ → FabricEngine W → Result (ℕ × W)
  get_worker_by_mr mr g = elim (lookup mr g.mr_device_map) [
    | none ↦ err (custom "Invalid memory region")
    | some device ↦ get_worker device g.workers
  ]

  -- the worker of a request
  unfoldable pub worker_of : TransferRequest → FabricEngine W → Result (ℕ × W)
  worker_of (imm r) g = get_main_worker g.workers
  worker_of (barrier r) g = get_main_worker g.workers
  worker_of (single r) g = get_worker_by_mr r.src_mr g
  worker_of (paged r) g = get_worker_by_mr r.src_mr g
  worker_of (scatter r) g = get_worker_by_mr r.src_mr g

  -- A call of the worker that is found, with "Worker is down" if it does not answer.
  unfoldable pub on_worker :
      {A : Type 0} → Result (ℕ × W) → (W → Option A × W) → Action (FabricEngine W) A
  on_worker (err e) call g = (err e, g)
  on_worker panicked call g = (panicked, g)
  on_worker (ok (device_id, w)) call g =
      let (r, w') = call w in
      (
        elim r [ none ↦ err down | some a ↦ ok a ],
        record g { workers = insert device_id w' g.workers },
      )

  abbrev pub remember : (handle : ℕ) → Device → Action (FabricEngine W) (Unit {0})
  remember handle device =
      modify (λ g. record g { mr_device_map = insert handle device g.mr_device_map })

  -- A registration: the worker is found, the region is made, the worker registers it, and the
  -- device of the handle is kept.
  unfoldable pub registering :
      {A : Type 0}
      → Result (ℕ × W)
      → Result MemoryRegion
      → (MemoryRegion → W → Option (Result A) × W)
      → (A → ℕ)
      → Device
      → Action (FabricEngine W) A
  registering at region call handle_of device = lift at >>= λ _. lift region >>= λ it.
      on_worker at (call it) >>= λ r. lift r >>= λ a. remember (handle_of a) device >> pure a

  -- `MemoryRegion::new` asks CUDA about the memory of a device.
  module _ (H : WorkerHandle W) (region_of : (ptr len : ℕ) → Device → Result MemoryRegion) where
    unfoldable pub register_memory_local : (ptr len : ℕ) → Device → Action (FabricEngine W) ℕ
    register_memory_local ptr len device g =
        registering (get_worker device g.workers) (region_of ptr len device) H.register_mr_local
          (λ handle. handle) device g

    unfoldable pub register_memory_allow_remote :
        (ptr len : ℕ) → Device → Action (FabricEngine W) (ℕ × MemoryRegionDescriptor)
    register_memory_allow_remote ptr len device g =
        registering (get_worker device g.workers) (region_of ptr len device)
          H.register_mr_allow_remote (λ both. both.0) device g

  module _ (H : WorkerHandle W) where
    unfoldable pub unregister_memory : (ptr : ℕ) → Action (FabricEngine W) (Unit {0})
    unregister_memory ptr g = on_worker (get_main_worker g.workers) (H.unregister_mr ptr) g

    unfoldable pub add_peer_group : List (List DomainAddress) → Device → Action (FabricEngine W) ℕ
    add_peer_group addrs device g =
        (on_worker (get_worker device g.workers) (H.add_peer_group addrs) >>= lift) g

    unfoldable pub submit_send :
        (transfer_id : ℕ) → DomainAddress → (mr ptr len : ℕ) → Action (FabricEngine W) (Unit {0})
    submit_send id addr mr ptr len g =
        on_worker (get_main_worker g.workers) (H.send (send_to id mr ptr len addr)) g

    unfoldable pub submit_recv : (transfer_id mr ptr len : ℕ) → Action (FabricEngine W) (Unit {0})
    submit_recv id mr ptr len g =
        on_worker (get_main_worker g.workers) (H.send (receive id mr ptr len)) g

    unfoldable pub submit_request :
        (transfer_id : ℕ)
        → TransferRequest
        → Option TransferCounter
        → Action (FabricEngine W) (Unit {0})
    submit_request id request tx_counter g =
        on_worker (worker_of request g) (H.send (submit_transfer id request tx_counter)) g

    unfoldable pub acquire_watcher : Action (FabricEngine W) ℕ
    acquire_watcher g =
        (on_worker (get_main_worker g.workers) H.acquire_uvm_watcher >>= λ found.
        lift (watcher_of found))
          g

    unfoldable pub release_watcher : (watcher : ℕ) → Action (FabricEngine W) (Unit {0})
    release_watcher watcher g =
        on_worker (get_main_worker g.workers) (H.release_uvm_watcher watcher) g

    -- The first completion of the first worker that has one.
    unfoldable pub poll_workers : Map W → Option TransferCompletionEntry × Map W
    poll_workers [] = (none, [])
    poll_workers ((device_id, w) ∷ rest) =
        let (found, w') = H.try_recv w in
        let (later, rest') = poll_workers rest in
        elim found [
          | none ↦ (later, (device_id, w') ∷ rest')
          | some completion ↦ (some completion, (device_id, w') ∷ rest)
        ]

    unfoldable pub poll_transfer_completion :
        FabricEngine W → Option TransferCompletionEntry × FabricEngine W
    poll_transfer_completion g =
        let (found, workers) = poll_workers g.workers in (found, record g { workers = workers })

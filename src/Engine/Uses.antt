-- ===== src/Engine/Uses.antt =====
-- The ways to use an engine, with the invariants that they keep.
use pplx_garden_cxi.Common.{ℕ, ◌≡◌, refl, ◌∙◌, Option, some, List, [], Map, lookup}
use pplx_garden_cxi.Provider.{MemoryRegion}
use pplx_garden_cxi.Api.{Result, lift, DomainAddress, TransferRequest, TransferCounter}
use pplx_garden_cxi.Worker.Steps.{submit_transfer, send_to, receive}
use pplx_garden_cxi.Engine.{
  Device, WorkerHandle, FabricEngine, get_main_worker, get_worker, worker_of, on_worker,
  register_memory_local, register_memory_allow_remote, unregister_memory, add_peer_group,
  submit_send, submit_recv, submit_request, acquire_watcher, watcher_of, release_watcher,
  poll_transfer_completion,
}
use pplx_garden_cxi.Engine.Kept.{
  bind-keeps, IsValid, get_main_worker-Found, get_worker-Found, on_worker-IsValid,
  registering-IsValid, poll_workers-has, worker_of-Found,
}
use pplx_garden_cxi.Engine.Logged.{Log, noted, Logged, on_worker-Logged, registering-Logged}

none_known : (mr : ℕ) (d : Device) → lookup mr [] ≡ some d → ⊥
unfolding lookup
none_known mr d e = cc

module _ {W : Type 0} where
  module _ (H : WorkerHandle W) (region_of : (ptr len : ℕ) → Device → Result MemoryRegion) where
    -- A use of an engine that starts with these workers, whatever its calls return, and the
    -- registrations that succeeded, the latest first.
    pub data Reached (ws : Map W) : Log → FabricEngine W → Type 0 where
      begin : Reached ws [] (record { workers = ws; mr_device_map = [] })
      registers_local :
          {log : Log} {g : FabricEngine W} (ptr len : ℕ) (d : Device)
          → Reached ws log g
          → Reached ws
              (noted (λ handle. handle) (register_memory_local H region_of ptr len d g).0 d log)
              (register_memory_local H region_of ptr len d g).1
      registers_remote :
          {log : Log} {g : FabricEngine W} (ptr len : ℕ) (d : Device)
          → Reached ws log g
          → Reached ws
              (noted
                (λ both. both.0)
                (register_memory_allow_remote H region_of ptr len d g).0
                d
                log)
              (register_memory_allow_remote H region_of ptr len d g).1
      unregisters :
          {log : Log} {g : FabricEngine W} (ptr : ℕ)
          → Reached ws log g
          → Reached ws log (unregister_memory H ptr g).1
      adds_peers :
          {log : Log} {g : FabricEngine W} (addrs : List (List DomainAddress)) (d : Device)
          → Reached ws log g
          → Reached ws log (add_peer_group H addrs d g).1
      sends :
          {log : Log} {g : FabricEngine W} (id : ℕ) (addr : DomainAddress) (mr ptr len : ℕ)
          → Reached ws log g
          → Reached ws log (submit_send H id addr mr ptr len g).1
      receives :
          {log : Log} {g : FabricEngine W} (id mr ptr len : ℕ)
          → Reached ws log g
          → Reached ws log (submit_recv H id mr ptr len g).1
      submits :
          {log : Log} {g : FabricEngine W} (id : ℕ) (request : TransferRequest)
          (tx : Option TransferCounter)
          → Reached ws log g
          → Reached ws log (submit_request H id request tx g).1
      acquires :
          {log : Log} {g : FabricEngine W}
          → Reached ws log g
          → Reached ws log (acquire_watcher H g).1
      releases :
          {log : Log} {g : FabricEngine W} (watcher : ℕ)
          → Reached ws log g
          → Reached ws log (release_watcher H watcher g).1
      polls :
          {log : Log} {g : FabricEngine W}
          → Reached ws log g
          → Reached ws log (poll_transfer_completion H g).1

    main-IsValid :
        {A : Type 0} (call : W → Option A × W) (ws : Map W) (g : FabricEngine W)
        → IsValid ws g
        → IsValid ws (on_worker (get_main_worker g.workers) call g).1
    main-IsValid call ws g v =
        on_worker-IsValid (get_main_worker g.workers) call ws g (get_main_worker-Found g.workers) v

    pub Reached-IsValid :
        {ws : Map W} {log : Log} {g : FabricEngine W} → Reached ws log g → IsValid ws g
    unfolding register_memory_local register_memory_allow_remote unregister_memory add_peer_group
        submit_send submit_recv submit_request acquire_watcher release_watcher
        poll_transfer_completion
    Reached-IsValid begin = record {
      same = λ d. refl;
      known = λ mr d e. absurd (none_known mr d e);
    }
    Reached-IsValid {ws} (registers_local {g} ptr len d past) =
        let v = Reached-IsValid past in
        registering-IsValid (get_worker d g.workers) (region_of ptr len d) H.register_mr_local
          (λ handle. handle) d ws g (get_worker-Found d g.workers) (v.same d) v
    Reached-IsValid {ws} (registers_remote {g} ptr len d past) =
        let v = Reached-IsValid past in
        registering-IsValid (get_worker d g.workers) (region_of ptr len d)
          H.register_mr_allow_remote (λ both. both.0) d ws g (get_worker-Found d g.workers)
          (v.same d) v
    Reached-IsValid {ws} (unregisters {g} ptr past) =
        main-IsValid (H.unregister_mr ptr) ws g (Reached-IsValid past)
    Reached-IsValid {ws} (adds_peers {g} addrs d past) =
        bind-keeps (IsValid ws) (on_worker (get_worker d g.workers) (H.add_peer_group addrs)) lift g
          (on_worker-IsValid (get_worker d g.workers) (H.add_peer_group addrs) ws g
            (get_worker-Found d g.workers) (Reached-IsValid past))
          (λ r g' v. v)
    Reached-IsValid {ws} (sends {g} id addr mr ptr len past) =
        main-IsValid (H.send (send_to id mr ptr len addr)) ws g (Reached-IsValid past)
    Reached-IsValid {ws} (receives {g} id mr ptr len past) =
        main-IsValid (H.send (receive id mr ptr len)) ws g (Reached-IsValid past)
    Reached-IsValid {ws} (submits {g} id request tx past) =
        on_worker-IsValid (worker_of request g) (H.send (submit_transfer id request tx)) ws g
          (worker_of-Found request g) (Reached-IsValid past)
    Reached-IsValid {ws} (acquires {g} past) =
        bind-keeps (IsValid ws) (on_worker (get_main_worker g.workers) H.acquire_uvm_watcher)
          (λ found. lift (watcher_of found)) g
          (main-IsValid H.acquire_uvm_watcher ws g (Reached-IsValid past)) (λ found g' v. v)
    Reached-IsValid {ws} (releases {g} watcher past) =
        main-IsValid (H.release_uvm_watcher watcher) ws g (Reached-IsValid past)
    Reached-IsValid {ws} (polls {g} past) =
        let v = Reached-IsValid past in
        record { same = λ d. poll_workers-has H g.workers d ∙ v.same d; known = v.known }

    pub Reached-Logged :
        {ws : Map W} {log : Log} {g : FabricEngine W} → Reached ws log g → Logged log g
    unfolding register_memory_local register_memory_allow_remote unregister_memory add_peer_group
        submit_send submit_recv submit_request acquire_watcher release_watcher
        poll_transfer_completion
    Reached-Logged begin = λ mr. refl
    Reached-Logged (registers_local {log} {g} ptr len d past) =
        registering-Logged (get_worker d g.workers) (region_of ptr len d) H.register_mr_local
          (λ handle. handle) d log g (Reached-Logged past)
    Reached-Logged (registers_remote {log} {g} ptr len d past) =
        registering-Logged (get_worker d g.workers) (region_of ptr len d) H.register_mr_allow_remote
          (λ both. both.0) d log g (Reached-Logged past)
    Reached-Logged (unregisters {log} {g} ptr past) =
        on_worker-Logged (get_main_worker g.workers) (H.unregister_mr ptr) log g
          (Reached-Logged past)
    Reached-Logged (adds_peers {log} {g} addrs d past) =
        bind-keeps (Logged log) (on_worker (get_worker d g.workers) (H.add_peer_group addrs)) lift g
          (on_worker-Logged (get_worker d g.workers) (H.add_peer_group addrs) log g
            (Reached-Logged past))
          (λ r g' v. v)
    Reached-Logged (sends {log} {g} id addr mr ptr len past) =
        on_worker-Logged (get_main_worker g.workers) (H.send (send_to id mr ptr len addr)) log g
          (Reached-Logged past)
    Reached-Logged (receives {log} {g} id mr ptr len past) =
        on_worker-Logged (get_main_worker g.workers) (H.send (receive id mr ptr len)) log g
          (Reached-Logged past)
    Reached-Logged (submits {log} {g} id request tx past) =
        on_worker-Logged (worker_of request g) (H.send (submit_transfer id request tx)) log g
          (Reached-Logged past)
    Reached-Logged (acquires {log} {g} past) =
        bind-keeps (Logged log) (on_worker (get_main_worker g.workers) H.acquire_uvm_watcher)
          (λ found. lift (watcher_of found)) g
          (on_worker-Logged (get_main_worker g.workers) H.acquire_uvm_watcher log g
            (Reached-Logged past))
          (λ found g' v. v)
    Reached-Logged (releases {log} {g} watcher past) =
        on_worker-Logged (get_main_worker g.workers) (H.release_uvm_watcher watcher) log g
          (Reached-Logged past)
    Reached-Logged (polls past) = Reached-Logged past

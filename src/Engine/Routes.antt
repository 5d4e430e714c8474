-- ===== src/Engine/Routes.antt =====
-- Which worker a transfer goes to, however the engine was used before.
use pplx_garden_cxi.Common.{
  ℕ, true, false, ◌<◌, ◌≡◌, refl, sym, ap, ◌∙◌, Option, none, some, [], ◌∷◌, Map, lookup, insert,
  arith, length,
}
use pplx_garden_cxi.Provider.{MemoryRegion}
use pplx_garden_cxi.Api.{
  Result, ok, err, panicked, custom, TransferRequest, imm, barrier, single, paged, scatter,
  TransferCounter,
}
use pplx_garden_cxi.Worker.Steps.{submit_transfer}
use pplx_garden_cxi.Engine.{
  Device, host, cuda, WorkerHandle, FabricEngine, down, get_main_worker, get_worker,
  get_worker_by_mr, worker_of, on_worker, submit_request,
}
use pplx_garden_cxi.Engine.Kept.{is_ok, has, IsValid}
use pplx_garden_cxi.Engine.Logged.{Log, Logged}
use pplx_garden_cxi.Engine.Uses.{Reached, Reached-IsValid, Reached-Logged}

ok-of : {A : Type 0} (r : Result A) → is_ok r ≡ true → (a : A) × (r ≡ ok a)
ok-of (ok a) e = (a, refl)
ok-of (err x) e = absurd (differ e)
  where
    differ : false ≡ true → ⊥
    differ h = cc
ok-of panicked e = absurd (differ e)
  where
    differ : false ≡ true → ⊥
    differ h = cc

some-injective : {a b : Device} → some a ≡ some b → a ≡ b
some-injective e = cc

-- The device whose worker a request is for, given the device of each region.
abbrev pub device_of : TransferRequest → Map Device → Option Device
device_of (imm r) devices = some host
device_of (barrier r) devices = some host
device_of (single r) devices = lookup r.src_mr devices
device_of (paged r) devices = lookup r.src_mr devices
device_of (scatter r) devices = lookup r.src_mr devices

-- the worker of a device: the first for host memory, and that of its number for a GPU
abbrev pub Serves {ℓ} : {W : Type ℓ} → Device → Map W → ℕ → W → Type ℓ
Serves {W = W} host ws k w = (rest : Map W) × (ws ≡ (k, w) ∷ rest)
Serves (cuda id) ws k w = (k ≡ id) × (lookup id ws ≡ some w)

module _ {W : Type 0} where
  get_worker-Serves :
      (d : Device) (ws : Map W) (k : ℕ) (w : W) → get_worker d ws ≡ ok (k, w) → Serves d ws k w
  unfolding get_worker get_main_worker
  get_worker-Serves host [] k w e = ground arith
  get_worker-Serves host (v ∷ ws) k w e = let same : v ≡ (k, w) = cc in (ws, ap (λ x. x ∷ ws) same)
  get_worker-Serves (cuda id) ws k w e = ground arith

  worker_of-device_of :
      (request : TransferRequest) (g : FabricEngine W)
      → worker_of request g ≡ (elim (device_of request g.mr_device_map) [
        | none ↦ err (custom "Invalid memory region")
        | some d ↦ get_worker d g.workers
      ])
  unfolding worker_of get_worker get_worker_by_mr
  worker_of-device_of (imm r) g = refl
  worker_of-device_of (barrier r) g = refl
  worker_of-device_of (single r) g = refl
  worker_of-device_of (paged r) g = refl
  worker_of-device_of (scatter r) g = refl

  device_of-Logged :
      (request : TransferRequest) (log : Log) (g : FabricEngine W)
      → Logged log g
      → device_of request g.mr_device_map ≡ device_of request log
  device_of-Logged (imm r) log g h = refl
  device_of-Logged (barrier r) log g h = refl
  device_of-Logged (single r) log g h = h r.src_mr
  device_of-Logged (paged r) log g h = h r.src_mr
  device_of-Logged (scatter r) log g h = h r.src_mr

  main-has : (ws : Map W) → 0 < length ws → has ws host ≡ true
  unfolding get_worker get_main_worker
  main-has [] pos = absurd (omega arith)
  main-has (w ∷ ws) pos = refl

  device_of-has :
      (request : TransferRequest) (ws : Map W) (g : FabricEngine W) (d : Device)
      → 0 < length ws
      → IsValid ws g
      → device_of request g.mr_device_map ≡ some d
      → has ws d ≡ true
  device_of-has (imm r) ws g d pos v e = ap (has ws) (sym (some-injective e)) ∙ main-has ws pos
  device_of-has (barrier r) ws g d pos v e = ap (has ws) (sym (some-injective e)) ∙ main-has ws pos
  device_of-has (single r) ws g d pos v e = v.known r.src_mr d e
  device_of-has (paged r) ws g d pos v e = v.known r.src_mr d e
  device_of-has (scatter r) ws g d pos v e = v.known r.src_mr d e

  module _ (H : WorkerHandle W) where
    -- What becomes of a request for a device, or for none.
    abbrev pub Routed :
        (id : ℕ)
        → TransferRequest
        → Option TransferCounter
        → FabricEngine W
        → Option Device
        → Type 0
    Routed id request tx g none =
        submit_request H id request tx g ≡ (err (custom "Invalid memory region"), g)
    Routed id request tx g (some d) =
        (k : ℕ) × (w : W) × Serves d g.workers k w
        × (submit_request H id request tx g ≡ (
          elim (H.send (submit_transfer id request tx) w).0 [ none ↦ err down | some a ↦ ok a ],
          record g { workers = insert k (H.send (submit_transfer id request tx) w).1 g.workers },
        ))

    submit-at :
        (id : ℕ) (request : TransferRequest) (tx : Option TransferCounter) (g : FabricEngine W)
        (o : Option Device) (ws : Map W)
        → device_of request g.mr_device_map ≡ o
        → 0 < length ws
        → IsValid ws g
        → Routed id request tx g o
    unfolding submit_request on_worker
    submit-at id request tx g none ws e pos v =
        let at = worker_of-device_of request g in
        let gone : worker_of request g ≡ err (custom "Invalid memory region") = rw e at at in
        ap (λ r. on_worker r (H.send (submit_transfer id request tx)) g) gone
    submit-at id request tx g (some d) ws e pos v =
        let (at, found) =
          ok-of (get_worker d g.workers) (v.same d ∙ device_of-has request ws g d pos v e) in
        let there : worker_of request g ≡ get_worker d g.workers =
          rw e at (worker_of-device_of request g) in
        (
          at.0,
          at.1,
          get_worker-Serves d g.workers at.0 at.1 found,
          ap (λ r. on_worker r (H.send (submit_transfer id request tx)) g) (there ∙ found),
        )

    -- However an engine with at least one worker is used, a transfer is handed to exactly one
    -- worker, and returns what the hand-over returns. It is the worker of the device of the latest
    -- successful registration that returned the handle of the source, also after the region was
    -- unregistered, or the first worker for an immediate or a barrier; there always is such a
    -- worker. A transfer from a handle that no registration returned is refused and changes
    -- nothing.
    pub routed_lem :
        (region_of : (ptr len : ℕ) → Device → Result MemoryRegion) {ws : Map W} {log : Log}
        {g : FabricEngine W}
        → 0 < length ws
        → Reached H region_of ws log g
        → (id : ℕ) (request : TransferRequest) (tx : Option TransferCounter)
        → Routed id request tx g (device_of request log)
    routed_lem region_of {ws} {log} {g} pos past id request tx =
        submit-at id request tx g (device_of request log) ws
          (device_of-Logged request log g (Reached-Logged H region_of past)) pos
          (Reached-IsValid H region_of past)

-- ===== src/Engine/Kept.antt =====
-- The invariant of the engine, and the calls that keep it.
use pplx_garden_cxi.Common.{
  ℕ, Bool, true, false, ◌≡◌, inl, inr, refl, sym, ap, ◌∙◌, Option, none, some, [], ◌∷◌, Map, lookup,
  insert, lookup-insert, insert-cases, arith, Option-cases,
}
use pplx_garden_cxi.Provider.{MemoryRegion}
use pplx_garden_cxi.Api.{
  Result, ok, err, panicked, Action, lift, pure, ◌>>=◌, ◌>>◌, TransferRequest, imm, barrier, single,
  paged, scatter,
}
use pplx_garden_cxi.Engine.{
  Device, host, cuda, WorkerHandle, FabricEngine, get_main_worker, get_worker, get_worker_by_mr,
  worker_of, on_worker, registering, remember, poll_workers,
}

abbrev pub is_ok : {A : Type 0} → Result A → Bool
is_ok (ok a) = true
is_ok _ = false

pub bind-keeps :
    {S A B : Type 0} (P : S → Type 0) (m : Action S A) (f : A → Action S B) (s : S)
    → P (m s).1
    → ((a : A) (s' : S) → P s' → P (f a s').1)
    → P ((m >>= f) s).1
bind-keeps {S} {A} {B} P m f s first rest = go (m s).0 (m s).1 first
  where
    go : (r : Result A) (s' : S) → P s' → P (((λ _. (r, s')) >>= f) s).1
    go (ok a) s' p = rest a s' p
    go (err e) s' p = p
    go panicked s' p = p

module _ {W : Type 0} where
  abbrev pub Found : Result (ℕ × W) → Map W → Type 0
  Found at ws = (k : ℕ) (w : W) → at ≡ ok (k, w) → lookup k ws ≡ some w

  pub get_main_worker-Found : (ws : Map W) → Found (get_main_worker ws) ws
  unfolding get_main_worker lookup
  get_main_worker-Found [] k w e = ground arith
  get_main_worker-Found ((j, v) ∷ ws) k w e = ground arith

  pub get_worker-Found : (d : Device) (ws : Map W) → Found (get_worker d ws) ws
  unfolding get_worker
  get_worker-Found host ws k w e = get_main_worker-Found ws k w e
  get_worker-Found (cuda id) ws k w e = ground arith

  -- which devices have a worker
  abbrev pub has : Map W → Device → Bool
  has ws d = is_ok (get_worker d ws)

  insert-has :
      (k : ℕ) (new old : W) (ws : Map W)
      → lookup k ws ≡ some old
      → (d : Device) → has (insert k new ws) d ≡ has ws d
  unfolding get_worker get_main_worker insert lookup
  insert-has k new old [] e host = absurd (no e)
    where
      no : none ≡ some old → ⊥
      no h = cc
  insert-has k new old ((j, v) ∷ ws) e host = ground arith
  insert-has k new old ws e (cuda id) = ground (arith, lookup-insert k id new ws)

  -- Every device with a registered region has a worker, and the workers are those of the start.
  pub record IsValid (ws : Map W) (g : FabricEngine W) : Type 0 where
    pub same : (d : Device) → has g.workers d ≡ has ws d
    pub known : (mr : ℕ) (d : Device) → lookup mr g.mr_device_map ≡ some d → has ws d ≡ true

  pub on_worker-IsValid :
      {A : Type 0} (at : Result (ℕ × W)) (call : W → Option A × W) (ws : Map W) (g : FabricEngine W)
      → Found at g.workers
      → IsValid ws g
      → IsValid ws (on_worker at call g).1
  unfolding on_worker
  on_worker-IsValid (err e) call ws g f v = v
  on_worker-IsValid panicked call ws g f v = v
  on_worker-IsValid (ok (k, w)) call ws g f v = record {
    same = λ d. insert-has k (call w).1 w g.workers (f k w refl) d ∙ v.same d;
    known = v.known;
  }

  remember-IsValid :
      (mr : ℕ) (d : Device) (ws : Map W) (g : FabricEngine W)
      → has ws d ≡ true
      → IsValid ws g
      → IsValid ws (remember mr d g).1
  remember-IsValid mr d ws g there v = record {
    same = v.same;
    known = λ j e at. elim (insert-cases mr j d e g.mr_device_map at) [
      | inl (_, this) ↦ ap (has ws) this ∙ there
      | inr (_, old) ↦ v.known j e old
    ];
  }

  pub registering-IsValid :
      {A : Type 0} (at : Result (ℕ × W)) (region : Result MemoryRegion)
      (call : MemoryRegion → W → Option (Result A) × W) (handle_of : A → ℕ) (d : Device)
      (ws : Map W) (g : FabricEngine W)
      → Found at g.workers
      → (is_ok at ≡ has ws d)
      → IsValid ws g
      → IsValid ws (registering at region call handle_of d g).1
  unfolding registering
  registering-IsValid (err e) region call handle_of d ws g f same v = v
  registering-IsValid panicked region call handle_of d ws g f same v = v
  registering-IsValid (ok at) (err e) call handle_of d ws g f same v = v
  registering-IsValid (ok at) panicked call handle_of d ws g f same v = v
  registering-IsValid {A} (ok at) (ok region) call handle_of d ws g f same v =
      bind-keeps (IsValid ws) (on_worker (ok at) (call region)) keep g
        (on_worker-IsValid (ok at) (call region) ws g f v) rest
    where
      keep : Result A → Action (FabricEngine W) A
      keep r = lift r >>= λ a. remember (handle_of a) d >> pure a

      rest : (r : Result A) (g' : FabricEngine W) → IsValid ws g' → IsValid ws (keep r g').1
      rest (ok a) g' v' = remember-IsValid (handle_of a) d ws g' (sym same) v'
      rest (err e) g' v' = v'
      rest panicked g' v' = v'

  module _ (H : WorkerHandle W) where
    pub poll_workers-has : (ws : Map W) (d : Device) → has (poll_workers H ws).1 d ≡ has ws d
    unfolding poll_workers get_worker get_main_worker lookup
    poll_workers-has [] d = refl
    poll_workers-has ((k, w) ∷ ws) host = ground arith
    poll_workers-has ((k, w) ∷ ws) (cuda id) = ground (arith, poll_workers-has ws (cuda id))

  get_worker_by_mr-Found : (mr : ℕ) (g : FabricEngine W) → Found (get_worker_by_mr mr g) g.workers
  unfolding get_worker_by_mr
  get_worker_by_mr-Found mr g k w e = elim (Option-cases (lookup mr g.mr_device_map)) [
    | inl missing ↦ ground (arith, missing, e)
    | inr (d, at) ↦ get_worker-Found d g.workers k w (ground (arith, at, e))
  ]

  pub worker_of-Found :
      (request : TransferRequest) (g : FabricEngine W) → Found (worker_of request g) g.workers
  unfolding worker_of
  worker_of-Found (imm r) g = get_main_worker-Found g.workers
  worker_of-Found (barrier r) g = get_main_worker-Found g.workers
  worker_of-Found (single r) g = get_worker_by_mr-Found r.src_mr g
  worker_of-Found (paged r) g = get_worker_by_mr-Found r.src_mr g
  worker_of-Found (scatter r) g = get_worker_by_mr-Found r.src_mr g

-- ===== src/Engine/Logged.antt =====
-- The devices that an engine keeps, against the registrations that succeeded.
use pplx_garden_cxi.Common.{
  ℕ, ◌≡◌, ap, ◌∙◌, Option, some, ◌∷◌, Map, lookup, lookup-insert, ◌==◌, if◌then◌else◌,
}
use pplx_garden_cxi.Provider.{MemoryRegion}
use pplx_garden_cxi.Api.{FabricLibError, Result, ok, err, panicked, Action, lift, pure, ◌>>=◌, ◌>>◌}
use pplx_garden_cxi.Engine.{Device, FabricEngine, on_worker, registering, remember}

-- the handles that registrations returned, each with the device it was for, the latest first
abbrev pub Log : Type 0
Log = Map Device

-- what a registration that returns this adds
abbrev pub noted : {A : Type 0} → (A → ℕ) → Result A → Device → Log → Log
noted handle_of (ok a) d log = (handle_of a, d) ∷ log
noted handle_of (err e) d log = log
noted handle_of panicked d log = log

bind-result :
    {S A B : Type 0} (P : Result B × S → Type 0) (m : Action S A) (f : A → Action S B) (s : S)
    → ((a : A) → P (f a (m s).1))
    → ((e : FabricLibError) → P (err e, (m s).1))
    → P (panicked, (m s).1)
    → P ((m >>= f) s)
bind-result {S} {A} {B} P m f s oks errs panics = go (m s).0
  where
    go : (r : Result A) → P (((λ _. (r, (m s).1)) >>= f) s)
    go (ok a) = oks a
    go (err e) = errs e
    go panicked = panics

module _ {W : Type 0} where
  -- the engine has the device of the latest registration of each handle
  abbrev pub Logged : Log → FabricEngine W → Type 0
  Logged log g = (mr : ℕ) → lookup mr g.mr_device_map ≡ lookup mr log

  pub on_worker-Logged :
      {A : Type 0} (at : Result (ℕ × W)) (call : W → Option A × W) (log : Log) (g : FabricEngine W)
      → Logged log g
      → Logged log (on_worker at call g).1
  unfolding on_worker
  on_worker-Logged (err e) call log g h = h
  on_worker-Logged panicked call log g h = h
  on_worker-Logged (ok at) call log g h = h

  remember-Logged :
      (handle : ℕ) (d : Device) (log : Log) (g : FabricEngine W)
      → Logged log g
      → Logged ((handle, d) ∷ log) (remember handle d g).1
  unfolding lookup
  remember-Logged handle d log g h mr =
      lookup-insert handle mr d g.mr_device_map
      ∙ ap (λ o. if handle == mr then some d else o) (h mr)

  pub registering-Logged :
      {A : Type 0} (at : Result (ℕ × W)) (region : Result MemoryRegion)
      (call : MemoryRegion → W → Option (Result A) × W) (handle_of : A → ℕ) (d : Device) (log : Log)
      (g : FabricEngine W)
      → Logged log g
      → let (r, g') = registering at region call handle_of d g in
        Logged (noted handle_of r d log) g'
  unfolding registering
  registering-Logged (err e) region call handle_of d log g h = h
  registering-Logged panicked region call handle_of d log g h = h
  registering-Logged (ok at) (err e) call handle_of d log g h = h
  registering-Logged (ok at) panicked call handle_of d log g h = h
  registering-Logged {A} (ok at) (ok region) call handle_of d log g h =
      let asked = on_worker-Logged (ok at) (call region) log g h in
      bind-result (λ out. Logged (noted handle_of out.0 d log) out.1)
        (on_worker (ok at) (call region)) keep g
        (λ r. rest r (on_worker (ok at) (call region) g).1 asked) (λ e. asked) asked
    where
      keep : Result A → Action (FabricEngine W) A
      keep r = lift r >>= λ a. remember (handle_of a) d >> pure a

      rest :
          (r : Result A) (g' : FabricEngine W)
          → Logged log g'
          → let (o, g₁) = keep r g' in Logged (noted handle_of o d log) g₁
      rest (ok a) g' h' = remember-Logged (handle_of a) d log g' h'
      rest (err e) g' h' = h'
      rest panicked g' h' = h'

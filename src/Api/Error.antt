-- ===== src/Api/Error.antt =====
-- fabric-lib/src/error.rs, and calls that fail. A call on a mutable object returns the object
-- after a failure too, since what was written stays written.
use Prim.Native.String.{String}
use pplx_garden_cxi.Common.{ℕ, Bool, if◌then◌else◌, List, [], ◌∷◌, none, some, get_elem?}

-- The foreign errors carry a code.
pub data FabricLibError : Type 0 where
  libfabric verbs cuda_driver cudart errno : ℕ → FabricLibError
  domain verbs_completion_error completion_error custom : String → FabricLibError

-- `panicked` stands for an index out of bounds, a division by zero or a failed assertion.
pub data Result {ℓ} (A : Type ℓ) : Type ℓ where
  ok : A → Result A
  err : FabricLibError → Result A
  panicked : Result A

abbrev pub Action {ℓ κ} : Type ℓ → Type κ → Type (ℓ ⊔ κ)
Action S A = S → Result A × S

module _ {ℓ κ} {S : Type ℓ} {A : Type κ} where
  abbrev pub pure : A → Action S A
  pure a s = (ok a, s)

  abbrev pub raise : FabricLibError → Action S A
  raise e s = (err e, s)

  abbrev pub panic : Action S A
  panic s = (panicked, s)

  abbrev pub gets : (S → A) → Action S A
  gets f s = (ok (f s), s)

abbrev pub modify {ℓ} : {S : Type ℓ} → (S → S) → Action S (Unit {0})
modify f s = (ok tt, f s)

infixl 5 ◌>>=◌ ◌>>◌
abbrev pub ◌>>=◌ {ℓ κ ι} :
    {S : Type ℓ} {A : Type κ} {B : Type ι} → Action S A → (A → Action S B) → Action S B
◌>>=◌ m f s =
    let (r, s') = m s in elim r [ ok a ↦ f a s' | err e ↦ (err e, s') | panicked ↦ (panicked, s') ]

abbrev pub ◌>>◌ {ℓ κ} : {S : Type ℓ} {B : Type κ} → Action S (Unit {0}) → Action S B → Action S B
m >> k = m >>= λ _. k

-- `if c { return Err(e) }`
abbrev pub raise_if {ℓ} : {S : Type ℓ} → Bool → FabricLibError → Action S (Unit {0})
raise_if c e s = (if c then err e else ok tt, s)

abbrev pub panic_if {ℓ} : {S : Type ℓ} → Bool → Action S (Unit {0})
panic_if c s = (if c then panicked else ok tt, s)

-- an index into a vector
abbrev pub item {ℓ κ} : {S : Type ℓ} {A : Type κ} → List A → ℕ → Action S A
item xs i s = elim (get_elem? xs i) [ none ↦ (panicked, s) | some x ↦ (ok x, s) ]

-- a call on the one object of a case
abbrev pub inside : {S T : Type 0} → (S → T) → Action S (Unit {0}) → S → Result (Unit {0}) × T
inside wrap call it = let (r, it') = call it in (r, wrap it')

-- `for x in xs { f(x)?; }`
unfoldable pub for_each {ℓ κ} :
    {S : Type ℓ} {A : Type κ} → List A → (A → Action S (Unit {0})) → Action S (Unit {0})
for_each [] f = pure tt
for_each (x ∷ xs) f = f x >> for_each xs f

abbrev pub lift {ℓ κ} : {S : Type ℓ} {A : Type κ} → Result A → Action S A
lift r s = (r, s)

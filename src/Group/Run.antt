-- ===== src/Group/Run.antt =====
-- Running the steps of a request: sequences, loops and tests whose outcome is known.
use pplx_garden_cxi.Common.{
  ℕ, ◌≡◌, refl, ◌∙◌, ap, some, List, [], ◌∷◌, arith, length, get_elem?, set, All,
}
use pplx_garden_cxi.Api.{Result, ok, Action, ◌>>=◌, MemoryRegionDescriptor}
use pplx_garden_cxi.Group.{DomainGroup, for_each, item, on_domain, check_addresses}

module _ {ℓ κ ι} {S : Type ℓ} {A : Type κ} {B : Type ι} where
  pub bind-ok :
      (m : Action S A) (f : A → Action S B) (s t : S) (a : A)
      → m s ≡ (ok a, t)
      → (m >>= f) s ≡ f a t
  bind-ok m f s t a e = ap (λ (r : Result A × S). ◌>>=◌ {S = S} {A = A} {B = B} (λ _. r) f s) e

module _ {ℓ κ} {S : Type ℓ} {A : Type κ} where
  pub for_each-cons :
      (x : A) (xs : List A) (f : A → Action S (Unit {0})) (s t : S)
      → f x s ≡ (ok tt, t)
      → for_each (x ∷ xs) f s ≡ for_each xs f t
  unfolding for_each
  for_each-cons x xs f s t e = bind-ok (f x) (λ _. for_each xs f) s t tt e

-- The check of the descriptors passes if each has an address for each domain.
module _ {D : Type 0} where
  pub check_addresses-ok :
      (mr : MemoryRegionDescriptor) (g : DomainGroup D)
      → length mr.addr_rkey_list ≡ length g.domains
      → check_addresses mr g ≡ (ok tt, g)
  check_addresses-ok mr g e = ground arith

  pub check-All :
      (mrs : List MemoryRegionDescriptor) (g : DomainGroup D)
      → All (λ mr. length mr.addr_rkey_list ≡ length g.domains) mrs
      → for_each mrs check_addresses g ≡ (ok tt, g)
  unfolding for_each
  check-All [] g h = refl
  check-All (mr ∷ mrs) g h =
      for_each-cons mr mrs check_addresses g g (check_addresses-ok mr g h.0) ∙ check-All mrs g h.1

pub item-ok {ℓ κ} :
    {S : Type ℓ} {A : Type κ} (xs : List A) (i : ℕ) (x : A) (s : S)
    → get_elem? xs i ≡ some x
    → item xs i s ≡ (ok x, s)
item-ok xs i x s e = ground arith

pub on_domain-ok :
    {D : Type 0} (i : ℕ) (f : D → D) (g : DomainGroup D) (d : D)
    → get_elem? g.domains i ≡ some d
    → on_domain i f g ≡ (ok tt, record g { domains = set g.domains i (f d) })
on_domain-ok i f g d e = ground arith

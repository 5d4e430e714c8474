-- ===== src/Group/Posting.antt =====
-- The writes that a request posts, as a list: what the loops of the requests are compared with.
use pplx_garden_cxi.Common.{
  ℕ, ◌≡◌, refl, ◌∙◌, Option, none, some, List, [], ◌∷◌, ◌++◌, arith, length, get_elem?, set,
  length-set,
}
use pplx_garden_cxi.Api.{DomainAddress, WriteOp}
use pplx_garden_cxi.Provider.{RdmaDomain}

-- the index of the domain that takes the write, the address it goes to, and the write
abbrev pub Posting : Type 0
Posting = ℕ × DomainAddress × WriteOp

module _ {D : Type 0} (R : RdmaDomain D) (id : ℕ) where
  abbrev pub post : Posting → List D → List D
  post (i, addr, op) ds = elim (get_elem? ds i) [
    | none ↦ ds
    | some d ↦ set ds i (R.submit_write id addr op d)
  ]

  unfoldable pub post_all : List Posting → List D → List D
  post_all [] ds = ds
  post_all (p ∷ ps) ds = post_all ps (post p ds)

  pub post_all-append :
      (ps qs : List Posting) (ds : List D) → post_all (ps ++ qs) ds ≡ post_all qs (post_all ps ds)
  unfolding post_all
  post_all-append [] qs ds = refl
  post_all-append (p ∷ ps) qs ds = post_all-append ps qs (post p ds)

  pub length-post : (p : Posting) (ds : List D) → length (post p ds) ≡ length ds
  length-post (i, addr, op) ds = go (get_elem? ds i)
    where
      go :
          (o : Option D)
          → length (elim o as (λ _. List D) [
            | none ↦ ds
            | some d ↦ set ds i (R.submit_write id addr op d)
          ])
            ≡ length ds
      go none = refl
      go (some d) = length-set ds i (R.submit_write id addr op d)

  pub length-post_all : (ps : List Posting) (ds : List D) → length (post_all ps ds) ≡ length ds
  unfolding post_all
  length-post_all [] ds = refl
  length-post_all (p ∷ ps) ds = length-post_all ps (post p ds) ∙ length-post p ds

  pub post-at :
      (i : ℕ) (addr : DomainAddress) (op : WriteOp) (ds : List D) (d : D)
      → get_elem? ds i ≡ some d
      → post (i, addr, op) ds ≡ set ds i (R.submit_write id addr op d)
  post-at i addr op ds d e = ground arith

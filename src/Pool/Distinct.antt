-- ===== src/Pool/Distinct.antt =====
-- Lists without repetition, and moving an item inside one.
use pplx_garden_cxi.Common.{◌≢◌, sym, List, [], ◌∷◌, ◌++◌, All}

module _ {ℓ} {A : Type ℓ} where
  abbrev pub Distinct : List A → Type ℓ
  Distinct [] = Unit
  Distinct (x ∷ xs) = All (λ y. y ≢ x) xs × Distinct xs

  pub All-remove {κ} :
      (P : A → Type κ) (xs ys : List A) (s : A) → All P (xs ++ (s ∷ ys)) → P s × All P (xs ++ ys)
  All-remove P [] ys s h = h
  All-remove P (x ∷ xs) ys s h = let r = All-remove P xs ys s h.1 in (r.0, (h.0, r.1))

  pub All-insert {κ} :
      (P : A → Type κ) (xs ys : List A) (s : A) → P s → All P (xs ++ ys) → All P (xs ++ (s ∷ ys))
  All-insert P [] ys s p h = (p, h)
  All-insert P (x ∷ xs) ys s p h = (h.0, All-insert P xs ys s p h.1)

  pub Distinct-remove :
      (xs ys : List A) (s : A) → Distinct (xs ++ (s ∷ ys)) → Distinct (s ∷ xs ++ ys)
  Distinct-remove [] ys s h = h
  Distinct-remove (x ∷ xs) ys s h =
      let r = All-remove (λ y. y ≢ x) xs ys s h.0 in
      let d = Distinct-remove xs ys s h.1 in ((λ e. r.0 (sym e), d.0), (r.1, d.1))

  pub Distinct-insert :
      (xs ys : List A) (s : A) → Distinct (s ∷ xs ++ ys) → Distinct (xs ++ (s ∷ ys))
  Distinct-insert [] ys s h = h
  Distinct-insert (x ∷ xs) ys s h = (
    All-insert (λ y. y ≢ x) xs ys s (λ e. h.0.0 (sym e)) h.1.0,
    Distinct-insert xs ys s (h.0.1, h.1.1),
  )

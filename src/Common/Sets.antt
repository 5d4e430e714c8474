-- ===== src/Common/Sets.antt =====
-- A `HashSet` of numbers, as a list.
use Prim.Native.Nat.{ℕ, ◌+◌}
use mathlib.Core.Path.{◌≡◌, refl}
use mathlib.Core.Bool.{Bool, true, false}
use mathlib.Core.List.{List, [], ◌∷◌}
use native.Mathlib.Omega.{arith}
use pplx_garden_cxi.Common.Tests.{◌==◌, ltb, if◌then◌else◌, Bool-cases}
use mathlib.Core.Logic.{inl, inr}

unfoldable pub set_has : ℕ → List ℕ → Bool
set_has q [] = false
set_has q (x ∷ xs) = if x == q then true else set_has q xs

unfoldable pub set_insert : ℕ → List ℕ → List ℕ
set_insert q xs = if set_has q xs then xs else q ∷ xs

unfoldable pub set_remove : ℕ → List ℕ → List ℕ
set_remove q [] = []
set_remove q (x ∷ xs) = let kept = set_remove q xs in if x == q then kept else x ∷ kept

-- how often a number stands in a list
unfoldable pub tally : ℕ → List ℕ → ℕ
tally q [] = 0
tally q (x ∷ xs) = (if x == q then 1 else 0) + tally q xs

pub tally-set_has : (q : ℕ) (xs : List ℕ) → set_has q xs ≡ ltb 0 (tally q xs)
unfolding set_has tally
tally-set_has q [] = refl
tally-set_has q (x ∷ xs) = ground (arith, tally-set_has q xs)

pub tally-set_remove :
    (q s : ℕ) (xs : List ℕ) → tally s (set_remove q xs) ≡ (if q == s then 0 else tally s xs)
unfolding set_remove tally
tally-set_remove q s [] = ground arith
tally-set_remove q s (x ∷ xs) = ground (arith, tally-set_remove q s xs)

pub set_remove_absent : (q : ℕ) (xs : List ℕ) → set_has q xs ≡ false → set_remove q xs ≡ xs
unfolding set_has set_remove
set_remove_absent q [] e = refl
set_remove_absent q (x ∷ xs) e = elim (Bool-cases (x == q)) [
  | inl same ↦ absurd (no (rw same at e))
  | inr other ↦ ground (arith, other, set_remove_absent q xs (rw other at e))
]
  where
    no : true ≡ false → ⊥
    no h = cc

-- ===== src/Common/Dict.antt =====
-- A `HashMap` whose keys are numbers, as an association list.
use Prim.Native.Nat.{ℕ}
use mathlib.Core.Path.{◌≡◌, refl, sym, ◌∙◌}
use mathlib.Core.Logic.{◌≢◌, ◌⊎◌, inl, inr}
use mathlib.Core.Option.{Option, none, some}
use mathlib.Core.List.{List, [], ◌∷◌}
use native.Mathlib.Omega.{arith}
use pplx_garden_cxi.Common.Tests.{◌==◌, if◌then◌else◌, Bool-cases}

abbrev pub Map {ℓ} : Type ℓ → Type ℓ
Map V = List (ℕ × V)

module _ {ℓ} {V : Type ℓ} where
  unfoldable pub lookup : ℕ → Map V → Option V
  lookup key [] = none
  lookup key ((k, value) ∷ rest) = if k == key then some value else lookup key rest

  -- A key that is there keeps its place.
  unfoldable pub insert : ℕ → V → Map V → Map V
  insert key value [] = (key, value) ∷ []
  insert key value ((k, old) ∷ rest) =
      if k == key then (key, value) ∷ rest else (k, old) ∷ insert key value rest

  -- Every entry of the key goes, so that no invariant on the keys is needed.
  unfoldable pub erase : ℕ → Map V → Map V
  erase key [] = []
  erase key ((k, old) ∷ rest) =
      let kept = erase key rest in if k == key then kept else (k, old) ∷ kept

  pub lookup-insert :
      (written read : ℕ) (value : V) (table : Map V)
      → lookup read (insert written value table)
        ≡ (if written == read then some value else lookup read table)
  unfolding lookup insert
  lookup-insert written read value [] = refl
  lookup-insert written read value (entry ∷ rest) =
      ground (arith, lookup-insert written read value rest)

  pub lookup-erase :
      (gone read : ℕ) (table : Map V)
      → lookup read (erase gone table) ≡ (if gone == read then none else lookup read table)
  unfolding lookup erase
  lookup-erase gone read [] = ground arith
  lookup-erase gone read (entry ∷ rest) = ground (arith, lookup-erase gone read rest)

  pub insert-insert :
      (key : ℕ) (new old : V) (table : Map V)
      → insert key new (insert key old table) ≡ insert key new table
  unfolding insert
  insert-insert key new old [] = ground arith
  insert-insert key new old (entry ∷ rest) = ground (arith, insert-insert key new old rest)

  pub insert_known :
      (key : ℕ) (value : V) (table : Map V)
      → lookup key table ≡ some value
      → insert key value table ≡ table
  unfolding lookup insert
  insert_known key value [] e = absurd (no e)
    where
      no : none ≡ some value → ⊥
      no h = cc
  insert_known key value ((k, old) ∷ rest) e = elim (Bool-cases (k == key)) [
    | inl same ↦
        let at : k ≡ key = ground arith in
        let found : some old ≡ some value = rw same at e in
        let what : old ≡ value = cc in ground (arith, same, at, what)
    | inr other ↦ ground (arith, other, insert_known key value rest (rw other at e))
  ]

  pub erase-insert :
      (key : ℕ) (value : V) (table : Map V) → erase key (insert key value table) ≡ erase key table
  unfolding insert erase
  erase-insert key value [] = ground arith
  erase-insert key value (entry ∷ rest) = ground (arith, erase-insert key value rest)

  -- What is found after a write is the value written, or was there before under another key.
  pub insert-cases :
      (k j : ℕ) (v u : V) (m : Map V)
      → lookup j (insert k v m) ≡ some u
      → ((j ≡ k) × (u ≡ v)) ⊎ ((j ≢ k) × (lookup j m ≡ some u))
  insert-cases k j v u m e = elim (Bool-cases (k == j)) [
    | inl same ↦ inl (ground arith, written (rw same at read))
    | inr other ↦ inr (ground arith, rw other at read)
  ]
    where
      read : (if k == j then some v else lookup j m) ≡ some u
      read = sym (lookup-insert k j v m) ∙ e

      written : some v ≡ some u → u ≡ v
      written h = cc

  pub erase-cases :
      (k j : ℕ) (u : V) (m : Map V)
      → lookup j (erase k m) ≡ some u
      → (j ≢ k) × (lookup j m ≡ some u)
  erase-cases k j u m e = elim (Bool-cases (k == j)) [
    | inl same ↦ absurd (empty (rw same at read))
    | inr other ↦ (ground arith, rw other at read)
  ]
    where
      read : (if k == j then none else lookup j m) ≡ some u
      read = sym (lookup-erase k j m) ∙ e

      empty : none ≡ some u → ⊥
      empty h = cc

-- ===== src/Host/Search.antt =====
-- What the search for a free buffer finds, and what it leaves.
use pplx_garden_cxi.Common.{
  ℕ, ◌+◌, ◌≤◌, ◌<◌, ◌≡◌, ◌⊎◌, inl, inr, refl, Option, none, some, List, [], ◌∷◌, Map, arith, ltb,
  ◌==◌, if◌then◌else◌, tally, set_remove, tally-set_remove, All, Bool-cases,
}
use pplx_garden_cxi.Host.{find_free, keep}

-- how often an index stands in the sets
unfoldable pub held : ℕ → Map (List ℕ) → ℕ
held i [] = 0
held i ((k, entries) ∷ rest) = tally i entries + held i rest

-- how often it stands in the sets for one length
unfoldable pub held_at : (len i : ℕ) → Map (List ℕ) → ℕ
held_at len i [] = 0
held_at len i ((k, entries) ∷ rest) = (if k == len then tally i entries else 0) + held_at len i rest

-- no free buffer is large enough
abbrev pub NoneFits : ℕ → Map (List ℕ) → Type 0
NoneFits size = All (λ entry. (entry.0 < size) ⊎ (entry.1 ≡ []))

pub record Found (size q k : ℕ) (bufs rest : Map (List ℕ)) : Type 0 where
  pub fits : size ≤ k
  pub there : 0 < held_at k q bufs
  pub taken : (i : ℕ) → held i rest + (if i == q then 1 else 0) ≡ held i bufs
  pub left : (len i : ℕ) → held_at len i rest ≤ held_at len i bufs

held_at-held : (len i : ℕ) (bufs : Map (List ℕ)) → held_at len i bufs ≤ held i bufs
unfolding held_at held
held_at-held len i [] = omega arith
held_at-held len i ((k, entries) ∷ rest) = ground (arith, held_at-held len i rest)

Found-keep :
    (size q k k₀ : ℕ) (s₀ : List ℕ) (bufs rest : Map (List ℕ))
    → Found size q k bufs rest
    → Found size q k ((k₀, s₀) ∷ bufs) ((k₀, s₀) ∷ rest)
unfolding held held_at
Found-keep size q k k₀ s₀ bufs rest f = record {
  fits = f.fits;
  there = ground (arith, f.there);
  taken = λ i. ground (arith, f.taken i);
  left = λ len i. ground (arith, f.left len i);
}

Found-here :
    (size q k : ℕ) (others : List ℕ) (rest : Map (List ℕ))
    → size ≤ k
    → held q ((k, q ∷ others) ∷ rest) ≤ 1
    → Found size q k ((k, q ∷ others) ∷ rest) ((k, set_remove q (q ∷ others)) ∷ rest)
unfolding held held_at tally
Found-here size q k others rest fits once = record {
  fits = fits;
  there = ground arith;
  taken = λ i. ground (arith, tally-set_remove q i (q ∷ others));
  left = λ len i. ground (arith, tally-set_remove q i (q ∷ others));
}

abbrev Searched : ℕ → Map (List ℕ) → Option (ℕ × ℕ × Map (List ℕ)) → Type 0
Searched size bufs none = NoneFits size bufs
Searched size bufs (some (q, k, rest)) = Found size q k bufs rest

Searched-keep :
    (size k₀ : ℕ) (s₀ : List ℕ) (bufs : Map (List ℕ)) (found : Option (ℕ × ℕ × Map (List ℕ)))
    → (k₀ < size) ⊎ (s₀ ≡ [])
    → Searched size bufs found
    → Searched size ((k₀, s₀) ∷ bufs) (keep (k₀, s₀) found)
unfolding keep
Searched-keep size k₀ s₀ bufs none unfit s = (unfit, s)
Searched-keep size k₀ s₀ bufs (some (q, k, rest)) unfit s = Found-keep size q k k₀ s₀ bufs rest s

held_rest :
    (k : ℕ) (entries : List ℕ) (rest : Map (List ℕ)) (i : ℕ)
    → held i ((k, entries) ∷ rest) ≤ 1
    → held i rest ≤ 1
unfolding held
held_rest k entries rest i h = omega arith

pub find_free_lem :
    (size : ℕ) (bufs : Map (List ℕ))
    → ((i : ℕ) → held i bufs ≤ 1)
    → Searched size bufs (find_free size bufs)
unfolding find_free
find_free_lem size [] once = tt
find_free_lem size ((k, []) ∷ rest) once =
    Searched-keep size k [] rest (find_free size rest) (inr refl)
      (find_free_lem size rest (λ i. held_rest k [] rest i (once i)))
find_free_lem size ((k, q ∷ others) ∷ rest) once = elim (Bool-cases (ltb k size)) [
  | inl small ↦ rw small (
      Searched-keep size k (q ∷ others) rest (find_free size rest) (inl (ground arith))
        (find_free_lem size rest (λ i. held_rest k (q ∷ others) rest i (once i))))
  | inr large ↦ rw large (Found-here size q k others rest (ground arith) (once q))
]

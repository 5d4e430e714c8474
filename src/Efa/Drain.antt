-- ===== src/Efa/Drain.antt =====
-- The messages of an iterator that is driven to its end: the domain peeks, posts what it finds,
-- and advances, until there is no message.
pub mod Pages
pub mod Targets
pub mod Once
mod Tests
use pplx_garden_cxi.Common.{
  ℕ, zero, suc, ◌+◌, ◌≤◌, ◌<◌, ◌≡◌, refl, Option, none, some, List, [], ◌∷◌, arith,
}
use pplx_garden_cxi.Api.{Result, ok, err, panicked, Action}
use pplx_garden_cxi.Efa.{RmaBuffer}
use pplx_garden_cxi.Efa.Iter.{WriteOpIter, peek, advance}

-- What is posted in `rounds` rounds at most, how the last call ended, and the iterator then.
unfoldable pub drain :
    (rounds : ℕ) → WriteOpIter → List (RmaBuffer × ℕ) × Result (Unit {0}) × WriteOpIter
drain zero it = ([], ok tt, it)
drain (suc rounds) it = elim (peek it) [
  | none ↦ ([], ok tt, it)
  | some m ↦
      let (r, it') = advance it in
      elim r [
        | ok _ ↦ let (ms, r', it'') = drain rounds it' in (m ∷ ms, r', it'')
        | err e ↦ (m ∷ [], err e, it')
        | panicked ↦ (m ∷ [], panicked, it')
      ]
]

-- `f i`, `f (i + 1)`, …, `count` of them
unfoldable pub tabulate : {A : Type 0} → (ℕ → A) → (count i : ℕ) → List A
tabulate f zero i = []
tabulate f (suc count) i = f i ∷ tabulate f count (i + 1)

-- An iterator whose states are those of `state`, with the message `message i` in the `i`-th, up to
-- the `last`, which has none.
pub record Steps (state : ℕ → WriteOpIter) (message : ℕ → RmaBuffer × ℕ) (first last : ℕ)
    : Type 0 where
  pub has : (i : ℕ) → first ≤ i → i < last → peek (state i) ≡ some (message i)
  pub moves : (i : ℕ) → first ≤ i → i < last → advance (state i) ≡ (ok tt, state (i + 1))
  pub ends : peek (state last) ≡ none

-- Such an iterator gives its messages in order, and ends, when it is driven for as many rounds as
-- it has messages left, or more.
pub drain-Steps :
    (state : ℕ → WriteOpIter) (message : ℕ → RmaBuffer × ℕ) (first last : ℕ)
    → Steps state message first last
    → (count spare i : ℕ) → first ≤ i
    → i + count ≡ last
    → drain (count + spare) (state i) ≡ (tabulate message count i, ok tt, state last)
unfolding drain tabulate
drain-Steps state message first last s zero zero i low e =
    let here : i ≡ last = omega arith in rw here refl
drain-Steps state message first last s zero (suc spare) i low e =
    let here : i ≡ last = omega arith in rw here (ground (arith, s.ends))
drain-Steps state message first last s (suc count) spare i low e =
    let has = s.has i low (omega arith) in
    let moves = s.moves i low (omega arith) in
    let rest =
      drain-Steps state message first last s count spare (i + 1) (omega arith) (omega arith) in
    let more : suc count + spare ≡ suc (count + spare) = omega arith in
    rw more (rw (has, drain) (rw (moves, drain) (rw moves (rw rest refl))))

-- ===== src/Imm/Table.antt =====
-- `ImmCountMap`: its entries do not share cells, so the counts of different immediates are
-- independent, also over interleaved arrivals.
use pplx_garden_cxi.Common.{
  ℕ, ◌^◌, ◌<◌, ◌≡◌, ◌≢◌, refl, inl, inr, some, arith, ◌==◌, Bool-cases, Option-cases, lookup,
  insert, lookup-insert, insert-cases, erase-cases,
}
use pplx_garden_cxi.Memory.{Memory, new_counter, fetch_add, fetch_sub, store, set_flag}
use pplx_garden_cxi.Imm.{
  ImmCount, expected_count, imm_count, gdr_count, ImmCountMap, inc, inc_imm, set_expected,
  get_imm_counter, get_gdr_counter, remove,
}
use pplx_garden_cxi.Imm.Counting.{inc_step}

abbrev pub counter_of : ImmCount → ℕ
counter_of (expected_count c e) = c
counter_of (imm_count c) = c
counter_of (gdr_count c f) = c

-- an expected count is below its expected value, a `u32`
abbrev pub InRange : ImmCount → Memory → Type 0
InRange (expected_count c e) m = (m.cell c < e) × (e < 2 ^ 32)
InRange (imm_count c) m = Unit
InRange (gdr_count c f) m = Unit

pub record IsValid (t : ImmCountMap) (m : Memory) : Type 0 where
  pub below : (k : ℕ) (v : ImmCount) → lookup k t ≡ some v → counter_of v < m.next_cell
  pub apart :
      (j k : ℕ) (u v : ImmCount)
      → lookup j t ≡ some u
      → lookup k t ≡ some v
      → j ≢ k
      → counter_of u ≢ counter_of v
  pub in_range : (k : ℕ) (v : ImmCount) → lookup k t ≡ some v → InRange v m

-- `inc` touches no cell but its own.
pub inc-frame :
    (v : ImmCount) (d : ℕ) (m : Memory) → counter_of v ≢ d → (inc v m).1.cell d ≡ m.cell d
unfolding inc fetch_add fetch_sub store set_flag
inc-frame (expected_count c e) d m ne = ground arith
inc-frame (imm_count c) d m ne = ground arith
inc-frame (gdr_count c f) d m ne = ground arith

pub next_cell-inc : (v : ImmCount) (m : Memory) → (inc v m).1.next_cell ≡ m.next_cell
unfolding inc fetch_add fetch_sub store set_flag
next_cell-inc (expected_count c e) m = ground arith
next_cell-inc (imm_count c) m = ground arith
next_cell-inc (gdr_count c f) m = ground arith

InRange-frame :
    (v : ImmCount) (m n : Memory)
    → n.cell (counter_of v) ≡ m.cell (counter_of v)
    → InRange v m
    → InRange v n
InRange-frame (expected_count c e) m n same r = ground arith
InRange-frame (imm_count c) m n same r = tt
InRange-frame (gdr_count c f) m n same r = tt

InRange-inc : (v : ImmCount) (m : Memory) → InRange v m → InRange v (inc v m).1
InRange-inc (expected_count c e) m r = ((inc_step c e m r.1 r.0).1, r.1)
InRange-inc (imm_count c) m r = tt
InRange-inc (gdr_count c f) m r = tt

-- A cell that `new_counter` hands out is none that the table uses.
InRange-new :
    (v : ImmCount) (m : Memory)
    → counter_of v < m.next_cell
    → InRange v m
    → InRange v (new_counter m).1
unfolding new_counter
InRange-new v m h = InRange-frame v m (new_counter m).1 (ground arith)

-- A new entry in a fresh cell keeps the invariant.
insert-IsValid :
    (k : ℕ) (v : ImmCount) (t : ImmCountMap) (m : Memory)
    → counter_of v ≡ m.next_cell
    → InRange v (new_counter m).1
    → IsValid t m
    → IsValid (insert k v t) (new_counter m).1
unfolding new_counter
insert-IsValid k v t m fresh r valid = record {
  below = λ j u e. elim (insert-cases k j v u t e) [
    | inl (_, same) ↦ rw same (omega arith)
    | inr (_, old) ↦ omega (arith, valid.below j u old)
  ];
  apart = λ i j u w eu ew ne. elim (insert-cases k i v u t eu) [
    | inl (ik, uv) ↦ elim (insert-cases k j v w t ew) [
      | inl (jk, _) ↦ absurd (omega arith)
      | inr (_, old) ↦ rw uv (omega (arith, valid.below j w old))
    ]
    | inr (_, old) ↦ elim (insert-cases k j v w t ew) [
      | inl (_, wv) ↦ rw wv (omega (arith, valid.below i u old))
      | inr (_, old') ↦ valid.apart i j u w old old' ne
    ]
  ];
  in_range = λ j u e. elim (insert-cases k j v u t e) [
    | inl (_, same) ↦ rw same r
    | inr (_, old) ↦ InRange-new u m (valid.below j u old) (valid.in_range j u old)
  ];
}

-- An expected count that is set starts at zero below its expected value, the entries stay apart,
-- and the count is found under its immediate.
pub set_expected-IsValid :
    (imm e : ℕ) (t : ImmCountMap) (m : Memory)
    → 0 < e
    → e < 2 ^ 32
    → IsValid t m
    → let (_, t', m') = set_expected imm e t m in
      IsValid t' m'
      × (lookup imm t' ≡ some (expected_count m.next_cell e))
      × (m'.cell m.next_cell ≡ 0)
unfolding set_expected new_counter
set_expected-IsValid imm e t m pos small valid = (
  insert-IsValid imm (expected_count m.next_cell e) t m refl (ground arith, small) valid,
  ground (arith, lookup-insert imm imm (expected_count m.next_cell e) t),
  ground arith,
)

get_imm_counter-IsValid :
    (imm : ℕ) (t : ImmCountMap) (m : Memory)
    → IsValid t m
    → let (_, t', m') = get_imm_counter imm t m in IsValid t' m'
unfolding get_imm_counter new_counter
get_imm_counter-IsValid imm t m valid = insert-IsValid imm (imm_count m.next_cell) t m refl tt valid

get_gdr_counter-IsValid :
    (imm f : ℕ) (t : ImmCountMap) (m : Memory)
    → IsValid t m
    → let (_, t', m') = get_gdr_counter imm f t m in IsValid t' m'
unfolding get_gdr_counter new_counter
get_gdr_counter-IsValid imm f t m valid =
    insert-IsValid imm (gdr_count m.next_cell f) t m refl tt valid

remove-IsValid : (imm : ℕ) (t : ImmCountMap) (m : Memory) → IsValid t m → IsValid (remove imm t).1 m
unfolding remove
remove-IsValid imm t m valid = record {
  below = λ j u e. valid.below j u (erase-cases imm j u t e).1;
  apart = λ i j u w eu ew ne.
      valid.apart i j u w (erase-cases imm i u t eu).1 (erase-cases imm j w t ew).1 ne;
  in_range = λ j u e. valid.in_range j u (erase-cases imm j u t e).1;
}

same_entry :
    (t : ImmCountMap) {j k : ℕ} {u v : ImmCount}
    → j ≡ k
    → lookup j t ≡ some u
    → lookup k t ≡ some v
    → u ≡ v
same_entry t e eu ev = cc

inc-IsValid :
    (k : ℕ) (v : ImmCount) (t : ImmCountMap) (m : Memory)
    → lookup k t ≡ some v
    → IsValid t m
    → IsValid t (inc v m).1
inc-IsValid k v t m found valid = record {
  below = λ j u e. rw (next_cell-inc v m) (valid.below j u e);
  apart = valid.apart;
  in_range = λ j u e. elim (Bool-cases (j == k)) [
    | inl same ↦
        rw (same_entry t (ground arith) e found) (InRange-inc v m (valid.in_range k v found))
    | inr other ↦
        InRange-frame u m (inc v m).1
          (inc-frame v (counter_of u) m (valid.apart k j v u found e (ground arith)))
          (valid.in_range j u e)
  ];
}

-- One arrival of any immediate keeps the invariant of the table.
pub inc_imm-IsValid :
    (k : ℕ) (t : ImmCountMap) (m : Memory) → IsValid t m → IsValid t (inc_imm k t m).1
unfolding inc_imm
inc_imm-IsValid k t m valid = elim (Option-cases (lookup k t)) [
  | inl vacant ↦ rw (vacant, inc_imm) valid
  | inr (v, found) ↦ rw (found, inc_imm) (inc-IsValid k v t m found valid)
]

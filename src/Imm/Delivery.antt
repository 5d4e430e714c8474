-- ===== src/Imm/Delivery.antt =====
-- Arrivals of many immediates, interleaved, at one `ImmCountMap`.
use pplx_garden_cxi.Common.{
  ℕ, ◌+◌, ◌*◌, ◌<◌, ◌≡◌, ◌≢◌, refl, inl, inr, true, some, List, [], ◌∷◌, arith, ◌==◌, if◌then◌else◌,
  Bool-cases, Option-cases, lookup,
}
use pplx_garden_cxi.Memory.{Memory}
use pplx_garden_cxi.Imm.{
  ImmCount, expected_count, ImmCountMap, ImmCountStatus, reached, inc, inc_imm,
}
use pplx_garden_cxi.Imm.Counting.{inc_step}
use pplx_garden_cxi.Imm.Table.{counter_of, IsValid, inc-frame, inc_imm-IsValid}

-- one more answer, if it is `Reached`
abbrev hits : ImmCountStatus → ℕ → ℕ
hits reached n = n + 1
hits _ n = n

-- The arrivals of a list of immediates, in order; how many of the answers for `k` were `Reached`.
unfoldable pub deliver : ℕ → List ℕ → ImmCountMap → Memory → ℕ × Memory
deliver k [] t m = (0, m)
deliver k (imm ∷ imms) t m =
    let (status, m₁) = inc_imm imm t m in
    let (n, m₂) = deliver k imms t m₁ in (if imm == k then hits status n else n, m₂)

unfoldable pub count : ℕ → List ℕ → ℕ
count k [] = 0
count k (imm ∷ imms) = if imm == k then count k imms + 1 else count k imms

-- An arrival of another immediate, or of none that is in use, leaves the cell of `k` alone.
inc_imm-frame :
    (imm k : ℕ) (v : ImmCount) (t : ImmCountMap) (m : Memory)
    → imm ≢ k
    → lookup k t ≡ some v
    → IsValid t m
    → (inc_imm imm t m).1.cell (counter_of v) ≡ m.cell (counter_of v)
unfolding inc_imm
inc_imm-frame imm k v t m ne found valid = elim (Option-cases (lookup imm t)) [
  | inl vacant ↦ rw (vacant, inc_imm) refl
  | inr (u, e) ↦ rw (e, inc_imm) (inc-frame u (counter_of v) m (valid.apart imm k u v e found ne))
]

inc_imm-step :
    (k c e : ℕ) (t : ImmCountMap) (m : Memory) (n : ℕ)
    → lookup k t ≡ some (expected_count c e)
    → IsValid t m
    → let (status, m₁) = inc_imm k t m in hits status n * e + m₁.cell c ≡ n * e + m.cell c + 1
unfolding inc_imm
inc_imm-step k c e t m n found valid =
    let r = valid.in_range k (expected_count c e) found in
    let step = inc_step c e m r.1 r.0 in
    elim (Bool-cases (inc (expected_count c e) m).0) [
      | inl full ↦ rw (found, inc_imm, full) (ground arith)
      | inr short ↦ rw (found, inc_imm, short) (ground arith)
    ]

eq_of_test : (i k : ℕ) → (i == k) ≡ true → i ≡ k
eq_of_test i k h = ground arith

-- In a valid table, over any interleaving of arrivals, the answers `Reached` for an expected
-- immediate are as many as its own arrivals account for, whatever the others do: its count
-- before plus its arrivals is the expected value times the answers plus its count after. The
-- table stays valid, so that count is again below the expected value.
pub deliver_lem :
    (k c e : ℕ) (imms : List ℕ) (t : ImmCountMap) (m : Memory)
    → lookup k t ≡ some (expected_count c e)
    → IsValid t m
    → let (n, m₁) = deliver k imms t m in
      (n * e + m₁.cell c ≡ m.cell c + count k imms) × IsValid t m₁ × (m₁.cell c < e)
unfolding deliver count
deliver_lem k c e [] t m found valid =
    (omega arith, valid, (valid.in_range k (expected_count c e) found).0)
deliver_lem k c e (imm ∷ imms) t m found valid =
    let m₁ = (inc_imm imm t m).1 in
    let ih = deliver_lem k c e imms t m₁ found (inc_imm-IsValid imm t m valid) in
    elim (Bool-cases (imm == k)) [
      | inl same ↦
          let here : lookup imm t ≡ some (expected_count c e) = rw (eq_of_test imm k same) found in
          let step = inc_imm-step imm c e t m (deliver k imms t m₁).0 here valid in
          rw same (ground (arith, step, ih.0), ih.1, ih.2)
      | inr other ↦ rw other (
        ground (arith, inc_imm-frame imm k (expected_count c e) t m (ground arith) found valid),
        ih.1,
        ih.2,
      )
    ]

-- ===== src/Imm/Tests.antt =====
-- The counters at concrete inputs.
use pplx_garden_cxi.Common.{
  ◌+◌, ◌*◌, ◌<◌, ◌≡◌, refl, false, true, none, some, [], ◌∷◌, arith, lookup, insert, erase,
}
use pplx_garden_cxi.Memory.{Memory, new_counter, fetch_add, fetch_sub}
use pplx_garden_cxi.Imm.{
  expected_count, imm_count, gdr_count, ImmCountMap, vacant, not_reached, inc, inc_imm,
  set_expected, imm_wait, gdr_wait, spins, remove, get, get_expected, consume,
}
use pplx_garden_cxi.Imm.Counting.{arrivals, arrivals_lem}
use pplx_garden_cxi.Imm.Waiting.{imm_wait_lem, gdr_wait_lem}
use pplx_garden_cxi.Imm.Table.{IsValid, set_expected-IsValid}
use pplx_garden_cxi.Imm.Delivery.{deliver, count, deliver_lem}

abbrev fresh : Memory
fresh = record { next_cell = 0; cell = λ _. 0; flag = λ _. false }

abbrev empty : ImmCountMap
empty = []

empty-IsValid : IsValid empty fresh
unfolding lookup
empty-IsValid = record {
  below = λ k v e. cc;
  apart = λ j k u v eu ev ne. cc;
  in_range = λ k v e. absurd (cc e);
}

abbrev one_counter : Memory
one_counter = (new_counter fresh).1

abbrev table : ImmCountMap
table = (set_expected 7 2 empty fresh).1

table-IsValid : IsValid table (set_expected 7 2 empty fresh).2
table-IsValid = (set_expected-IsValid 7 2 empty fresh (omega arith) (omega arith) empty-IsValid).0

arrivals_run : (arrivals 7 (expected_count 0 3) fresh).0 ≡ 2
unfolding arrivals inc fetch_add fetch_sub
arrivals_run = refl

statuses :
    ((inc_imm 7 table one_counter).0 ≡ not_reached) × ((inc_imm 8 table one_counter).0 ≡ vacant)
unfolding inc_imm inc set_expected insert lookup fetch_add fetch_sub new_counter
statuses = (refl, refl)

inspection :
    (get 7 table one_counter ≡ some 0)
    × (get_expected 7 table ≡ some 2)
    × (get_expected 8 table ≡ none)
    × ((remove 7 table).1 ≡ [])
    × (consume (expected_count 0 2) one_counter ≡ (0, some 2))
unfolding get get_expected remove consume set_expected new_counter insert lookup erase
inspection = (refl, refl, refl, refl, refl)

arrivals_lem_example :
    let (k, m₁) = arrivals 7 (expected_count 0 3) fresh in
    (k * 3 + m₁.cell 0 ≡ 0 + 7) × (m₁.cell 0 < 3)
arrivals_lem_example = arrivals_lem 7 0 3 fresh (omega arith) (omega arith)

imm_wait_lem_example :
    let (now, m₁) = imm_wait 0 5 fresh in
    let (_, m₂) = arrivals 3 (imm_count 0) m₁ in
    (now ≡ false) × (spins 0 m₂ ≡ true) × (m₂.cell 0 ≡ 18446744073709551614)
imm_wait_lem_example = imm_wait_lem 3 0 0 5 fresh refl (omega arith) (omega arith)

gdr_wait_lem_example :
    let (_, m₂) = arrivals 6 (gdr_count 0 9) (gdr_wait 0 9 5 fresh) in
    (m₂.flag 9 ≡ true) × (m₂.cell 0 ≡ 1)
gdr_wait_lem_example = gdr_wait_lem 6 0 9 0 5 fresh refl refl (omega arith) (omega arith)

set_expected-IsValid_example :
    let (_, t', m') = set_expected 7 2 empty fresh in
    IsValid t' m' × (lookup 7 t' ≡ some (expected_count 0 2)) × (m'.cell 0 ≡ 0)
set_expected-IsValid_example =
    set_expected-IsValid 7 2 empty fresh (omega arith) (omega arith) empty-IsValid

-- three arrivals of immediate 7 among others
deliver_lem_example :
    let (n, m₁) = deliver 7 (7 ∷ 8 ∷ 7 ∷ 7 ∷ []) table one_counter in
    (n * 2 + m₁.cell 0 ≡ 0 + 3) × IsValid table m₁ × (m₁.cell 0 < 2)
unfolding set_expected count new_counter insert lookup
deliver_lem_example = deliver_lem 7 0 2 (7 ∷ 8 ∷ 7 ∷ 7 ∷ []) table one_counter refl table-IsValid

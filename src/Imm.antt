-- ===== src/Imm.antt =====
-- fabric-lib/src/imm_count.rs: counters of the immediates that arrive, and the handles of
-- fabric-lib/src/api.rs that share their cells with the user (`ImmCounter`, `GdrCounter`).
pub mod Counting
pub mod Waiting
pub mod Table
pub mod Delivery
mod Tests
use pplx_garden_cxi.Common.{
  ℕ, zero, suc, ◌+◌, ◌%◌, ◌^◌, Bool, true, false, Option, none, some, ◌==◌, if◌then◌else◌, Map,
  lookup, insert, erase,
}
use pplx_garden_cxi.Memory.{
  Memory, new_counter, fetch_add, fetch_sub, store, set_flag, as_u32, is_neg, ge_i64,
}

-- `expected` is a `NonZeroU32`; a counter and a flag are cells of the memory.
pub data ImmCount : Type 0 where
  expected_count : (counter expected : ℕ) → ImmCount
  imm_count : (counter : ℕ) → ImmCount
  gdr_count : (counter flag : ℕ) → ImmCount

-- `ImmCount::consume`: the value and the expected value.
pub consume : ImmCount → Memory → ℕ × Option ℕ
consume (expected_count c e) m = (as_u32 (m.cell c), some e)
consume (imm_count c) m = (as_u32 (m.cell c), none)
consume (gdr_count c f) m = (as_u32 (m.cell c), none)

-- the arm of `ImmCount::inc` for an expected count; the sum of the test is taken at 32 bits
pub inc_expected : ℕ → ℕ → Memory → Bool × Memory
inc_expected c e m =
    let (prev, m₁) = fetch_add c 1 m in
    if (as_u32 prev + 1) % 2 ^ 32 == e then (true, (fetch_sub c e m₁).1) else (false, m₁)

-- the arm for a counter that the GPU watches through a flag
pub inc_gdr : ℕ → ℕ → Memory → Bool × Memory
inc_gdr c f m =
    let (prev, m₁) = fetch_add c 1 m in
    if (prev + 1) % 2 ^ 64 == 0 then (false, store c 0 (set_flag f true m₁)) else (false, m₁)

-- `ImmCount::inc`
pub inc : ImmCount → Memory → Bool × Memory
unfolding inc_expected inc_gdr
inc (expected_count c e) m = inc_expected c e m
inc (imm_count c) m = (false, (fetch_add c 1 m).1)
inc (gdr_count c f) m = inc_gdr c f m

-- `ImmCounter::wait` first takes the target off the counter, and says whether the call returns
-- at once; otherwise it spins while `spins`.
pub imm_wait : ℕ → ℕ → Memory → Bool × Memory
imm_wait c target m = let (old, m₁) = fetch_sub c target m in (ge_i64 old target, m₁)

pub spins : ℕ → Memory → Bool
spins c m = is_neg (m.cell c)

-- `GdrCounter::wait`
pub gdr_wait : ℕ → ℕ → ℕ → Memory → Memory
gdr_wait c f target m =
    let (old, m₁) = fetch_sub c target m in if ge_i64 old target then set_flag f true m₁ else m₁

pub data ImmCountStatus : Type 0 where
  vacant not_reached reached : ImmCountStatus

abbrev pub ImmCountMap : Type 0
ImmCountMap = Map ImmCount

-- The methods of `ImmCountMap`; those that make a counter return what they return in Rust.
pub set_expected : ℕ → ℕ → ImmCountMap → Memory → Option ImmCount × ImmCountMap × Memory
set_expected imm e t m =
    let (c, m₁) = new_counter m in (lookup imm t, insert imm (expected_count c e) t, m₁)

pub get_imm_counter : ℕ → ImmCountMap → Memory → ℕ × ImmCountMap × Memory
get_imm_counter imm t m = let (c, m₁) = new_counter m in (c, insert imm (imm_count c) t, m₁)

pub get_gdr_counter : ℕ → ℕ → ImmCountMap → Memory → (ℕ × ℕ) × ImmCountMap × Memory
get_gdr_counter imm f t m =
    let (c, m₁) = new_counter m in ((c, f), insert imm (gdr_count c f) t, m₁)

pub remove : ℕ → ImmCountMap → Option ImmCount × ImmCountMap
remove imm t = (lookup imm t, erase imm t)

abbrev value : ImmCount → Memory → ℕ
value (expected_count c e) m = as_u32 (m.cell c)
value (imm_count c) m = as_u32 (m.cell c)
value (gdr_count c f) m = as_u32 (m.cell c)

pub get : ℕ → ImmCountMap → Memory → Option ℕ
get imm t m = elim (lookup imm t) [ none ↦ none | some v ↦ some (value v m) ]

abbrev expected_of : ImmCount → Option ℕ
expected_of (expected_count c e) = some e
expected_of (imm_count c) = none
expected_of (gdr_count c f) = none

pub get_expected : ℕ → ImmCountMap → Option ℕ
get_expected imm t = elim (lookup imm t) [ none ↦ none | some v ↦ expected_of v ]

-- `ImmCountMap::inc`
pub inc_imm : ℕ → ImmCountMap → Memory → ImmCountStatus × Memory
inc_imm imm t m = elim (lookup imm t) [
  | none ↦ (vacant, m)
  | some v ↦ let (done, m₁) = inc v m in (if done then reached else not_reached, m₁)
]

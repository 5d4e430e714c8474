-- ===== src/Memory.antt =====
-- The shared memory behind the counters: `Arc<AtomicI64>` cells and `Arc<GdrFlag>` bytes
-- (std::sync, and GdrFlag of rust/cuda-lib/src/gdr.rs). An `Arc` is the number of its cell, so
-- two owners of one counter name one cell. A cell holds the 64 bits of the integer.
use pplx_garden_cxi.Common.{ℕ, ◌+◌, ◌-◌, ◌%◌, ◌^◌, Bool, true, false, ◌==◌, ltb, if◌then◌else◌}

pub record Memory : Type 0 where
  pub next_cell : ℕ
  pub cell : ℕ → ℕ
  pub flag : ℕ → Bool

abbrev pub update {ℓ} : {A : Type ℓ} → (ℕ → A) → ℕ → A → ℕ → A
update cells written value read = elim (read == written) [ true ↦ value | false ↦ cells read ]

-- `Arc::new(AtomicI64::new(0))`
unfoldable pub new_counter : Memory → ℕ × Memory
new_counter m =
    (m.next_cell, record m { next_cell = m.next_cell + 1; cell = update m.cell m.next_cell 0 })

-- The atomic operations wrap at 64 bits. Each returns the value before it.
unfoldable pub fetch_add : ℕ → ℕ → Memory → ℕ × Memory
fetch_add c d m = (m.cell c, record m { cell = update m.cell c ((m.cell c + d) % 2 ^ 64) })

unfoldable pub fetch_sub : ℕ → ℕ → Memory → ℕ × Memory
fetch_sub c d m =
    (m.cell c, record m { cell = update m.cell c ((m.cell c + 2 ^ 64 - d % 2 ^ 64) % 2 ^ 64) })

unfoldable pub store : ℕ → ℕ → Memory → Memory
store c v m = record m { cell = update m.cell c v }

-- `GdrFlag::set` and `GdrFlag::is_set`
unfoldable pub set_flag : ℕ → Bool → Memory → Memory
set_flag f b m = record m { flag = update m.flag f b }

-- `as u32` of an `i64`
abbrev pub as_u32 : ℕ → ℕ
as_u32 bits = bits % 2 ^ 32

-- the sign of an `i64`
abbrev pub is_neg : ℕ → Bool
is_neg bits = if ltb bits (2 ^ 63) then false else true

-- `bits >= v` for an `i64` and a `u32` that was widened to `i64`
abbrev pub ge_i64 : ℕ → ℕ → Bool
ge_i64 bits v = if is_neg bits then false else (if ltb bits v then false else true)

-- The bits of the integer `have - want`.
abbrev pub diff_bits : ℕ → ℕ → ℕ
diff_bits have want = (have + 2 ^ 64 - want) % 2 ^ 64

-- ===== src/Imm/Waiting.antt =====
-- The user's side of a counter: `ImmCounter::wait` and `GdrCounter::wait` of
-- fabric-lib/src/api.rs, against the arrivals that `ImmCount::inc` counts in the same cell.
use pplx_garden_cxi.Common.{
  ℕ, zero, suc, ◌+◌, ◌^◌, ◌<◌, ◌≡◌, Bool, true, false, arith, if◌then◌else◌, ltb,
}
use pplx_garden_cxi.Memory.{Memory, fetch_add, fetch_sub, store, set_flag, diff_bits}
use pplx_garden_cxi.Imm.{imm_count, gdr_count, inc, imm_wait, gdr_wait, spins}
use pplx_garden_cxi.Imm.Counting.{arrivals}

abbrev has_arrived : ℕ → ℕ → Bool
has_arrived have want = if ltb have want then false else true

cell-arrivals :
    (k c have want : ℕ) (m : Memory)
    → have + k < 2 ^ 63
    → want < 2 ^ 32
    → m.cell c ≡ diff_bits have want
    → (arrivals k (imm_count c) m).1.cell c ≡ diff_bits (have + k) want
unfolding arrivals inc fetch_add
cell-arrivals zero c have want m h w e = omega arith
cell-arrivals (suc k) c have want m h w e =
    let m₁ = (inc (imm_count c) m).1 in
    omega (arith, cell-arrivals k c (have + 1) want m₁ (omega arith) w (ground arith))

-- `ImmCounter::wait` on a counter that stands at `have` returns at once exactly if the target
-- has arrived; and after `k` more arrivals its spin loop runs on exactly if `have + k` is short
-- of the target, while the counter keeps the surplus for the next wait.
pub imm_wait_lem :
    (k c have target : ℕ) (m : Memory)
    → m.cell c ≡ have
    → have + k < 2 ^ 63
    → target < 2 ^ 32
    → let (now, m₁) = imm_wait c target m in
      let (_, m₂) = arrivals k (imm_count c) m₁ in
      (now ≡ has_arrived have target)
      × (spins c m₂ ≡ ltb (have + k) target)
      × (m₂.cell c ≡ diff_bits (have + k) target)
unfolding imm_wait spins fetch_sub
imm_wait_lem k c have target m e h w =
    ground (arith, cell-arrivals k c have target (imm_wait c target m).1 h w (ground arith))

-- What the flag and the counter say of `have` arrivals against a wait for `want`.
record Watches (c f have want : ℕ) (m : Memory) : Type 0 where
  counted : m.cell c ≡ diff_bits have want
  flagged : m.flag f ≡ has_arrived have want

inc-Watches :
    (c f have want : ℕ) (m : Memory)
    → have + 1 < 2 ^ 63
    → want < 2 ^ 32
    → Watches c f have want m
    → Watches c f (have + 1) want (inc (gdr_count c f) m).1
unfolding inc fetch_add store set_flag
inc-Watches c f have want m h w v = ground arith

arrivals-Watches :
    (k c f have want : ℕ) (m : Memory)
    → have + k < 2 ^ 63
    → want < 2 ^ 32
    → Watches c f have want m
    → Watches c f (have + k) want (arrivals k (gdr_count c f) m).1
unfolding arrivals
arrivals-Watches zero c f have want m h w v = ground arith
arrivals-Watches (suc k) c f have want m h w v =
    let ih =
      arrivals-Watches k c f (have + 1) want (inc (gdr_count c f) m).1 (omega arith) w
        (inc-Watches c f have want m (omega arith) w v) in
    ground (arith, ih)

-- After `GdrCounter::wait` on a counter that stands at `have`, with its flag down, and `k` more
-- arrivals, the flag is up exactly if `have + k` has reached the target, and the counter keeps
-- the difference.
pub gdr_wait_lem :
    (k c f have target : ℕ) (m : Memory)
    → m.cell c ≡ have
    → m.flag f ≡ false
    → have + k < 2 ^ 63
    → target < 2 ^ 32
    → let (_, m₂) = arrivals k (gdr_count c f) (gdr_wait c f target m) in
      (m₂.flag f ≡ has_arrived (have + k) target) × (m₂.cell c ≡ diff_bits (have + k) target)
unfolding gdr_wait fetch_sub set_flag
gdr_wait_lem k c f have target m e down h w =
    let started : Watches c f have target (gdr_wait c f target m) = ground arith in
    let done = arrivals-Watches k c f have target (gdr_wait c f target m) h w started in
    (done.flagged, done.counted)

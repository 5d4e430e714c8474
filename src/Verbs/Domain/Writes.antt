-- ===== src/Verbs/Domain/Writes.antt =====
-- The contexts of the writes of fabric-lib/src/verbs/verbs_domain.rs: how their work requests are
-- posted, retried when the queue pair is full, and given up after an error.
pub mod Posting
pub mod Counting
pub mod Handed
pub mod Progress
use pplx_garden_cxi.Common.{
  ℕ, zero, suc, ◌+◌, Bool, true, false, Option, none, some, ◌==◌, if◌then◌else◌,
}
use pplx_garden_cxi.Api.{Result, ok, err, panicked, Action}
use pplx_garden_cxi.Verbs.{WrChainBuffer, wr_chain_len}
use pplx_garden_cxi.Verbs.Iter
use pplx_garden_cxi.Verbs.Iter.{WriteOpIter, single, paged, scatter}
use pplx_garden_cxi.Pool.{Slot}
use pplx_garden_cxi.Verbs.Domain.Host.{Host, posted, no_memory, refused}

pub record WriteOpContext : Type 0 where
  pub transfer_id : ℕ
  pub rdma_op_iter : WriteOpIter
  pub wr_chain_buffer : Slot
  pub total_ops : ℕ
  pub cnt_posted_ops : ℕ
  pub cnt_finished_ops : ℕ
  pub in_queue : Bool
  pub bad : Bool

abbrev pub buffer_of : WriteOpIter → WrChainBuffer
buffer_of (single it) = it.wr_chain_buffer
buffer_of (paged it) = it.wr_chain_buffer
buffer_of (scatter it) = it.wr_chain_buffer

-- `while cur != bad_wr { cur = (*cur).next; cnt += 1 }`: `none` is the read through a null pointer,
-- or a chain that goes round; a chain has no more than `WR_CHAIN_LEN` requests.
unfoldable pub count_until : (rounds : ℕ) → WrChainBuffer → Option ℕ → (bad_wr cnt : ℕ) → Option ℕ
count_until zero buf cur bad_wr cnt = none
count_until (suc rounds) buf none bad_wr cnt = none
count_until (suc rounds) buf (some i) bad_wr cnt = elim (i == bad_wr) [
  | true ↦ some cnt
  | false ↦ count_until rounds buf (buf i).next bad_wr (cnt + 1)
]

-- the context moves past `n` requests
unfoldable pub move_on : ℕ → Action WriteOpContext (Unit {0})
move_on n c =
    let (r, it) = Iter.advance n c.rdma_op_iter in
    elim r [
      | ok _ ↦ (ok tt, record c { rdma_op_iter = it; cnt_posted_ops = c.cnt_posted_ops + n })
      | err e ↦ (err e, record c { rdma_op_iter = it })
      | panicked ↦ (panicked, record c { rdma_op_iter = it })
    ]

-- the arm for `ENOMEM`
unfoldable pub on_no_memory : Option ℕ → (bad_wr : ℕ) → Action WriteOpContext (Unit {0})
on_no_memory head bad_wr c =
    elim (count_until (suc wr_chain_len) (buffer_of c.rdma_op_iter) head bad_wr 0) [
      | none ↦ (panicked, c)
      | some cnt ↦ move_on cnt c
    ]

module _ {N : Type 0} (H : Host N) where
  -- the loop; every round but the last posts a request, so `total_ops + 1` rounds are enough
  unfoldable pub post_loop :
      (rounds : ℕ) → WriteOpContext → N → Result (Unit {0}) × WriteOpContext × N
  post_loop zero c n = (ok tt, c, n)
  post_loop (suc rounds) c n = elim (Iter.peek c.rdma_op_iter).0 [
    | err e ↦ (err e, c, n)
    | panicked ↦ (panicked, c, n)
    | ok (qp, head, len) ↦ elim (len == 0) [
      | true ↦ (ok tt, c, n)
      | false ↦
          let (r, n') = H.post_send qp (buffer_of c.rdma_op_iter) head n in
          elim r [
            | posted ↦
                let (moved, c') = move_on len c in
                elim moved [
                  | ok _ ↦ post_loop rounds c' n'
                  | err e ↦ (err e, c', n')
                  | panicked ↦ (panicked, c', n')
                ]
            | no_memory bad_wr ↦ let (moved, c') = on_no_memory head bad_wr c in (moved, c', n')
            | refused code ↦ (panicked, c, n')
          ]
    ]
  ]

  unfoldable pub progress_rdma_write_op_context :
      WriteOpContext → N → Result (Unit {0}) × WriteOpContext × N
  progress_rdma_write_op_context c n =
      let run = post_loop (suc c.total_ops) c n in if c.bad then (ok tt, c, n) else run

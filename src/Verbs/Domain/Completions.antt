-- ===== src/Verbs/Domain/Completions.antt =====
-- The completions of fabric-lib/src/verbs/verbs_domain.rs: what `poll_cq` makes of them.
pub mod Lifetime
pub mod Batch
pub mod Leaks
use pplx_garden_cxi.Common.{
  ℕ, zero, suc, ◌+◌, ◌-◌, ◌%◌, ◌^◌, true, false, Option, none, some, List, [], ◌∷◌, ◌++◌, ◌==◌,
  if◌then◌else◌, ltb,
}
use pplx_garden_cxi.Imm.{ImmCountStatus, vacant, not_reached, reached, inc_imm}
use pplx_garden_cxi.Api.{
  ok, err, panicked, Action, pure, panic, ◌>>=◌, ◌>>◌, gets, modify, DomainCompletionEntry,
  transfer, failed, recv, send, imm_data, imm_count_reached, verbs_completion_error,
}
use pplx_garden_cxi.Verbs.Domain.Heap.{read, modify_at}
use pplx_garden_cxi.Verbs.Domain.Host.{
  Host, IbvWc, success, failure, WcOpcode, wc_recv, wc_send, wc_rdma_write, wc_recv_rdma_with_imm,
  wc_other,
}
use pplx_garden_cxi.Verbs.Domain.Writes.{WriteOpContext}
use pplx_garden_cxi.Verbs.Domain.State.{VerbsDomain}
use pplx_garden_cxi.Verbs.Domain.Submit.{maybe_drop_write_op_context}
use pplx_garden_cxi.Verbs.Domain.Peers.{post_ud_recv, post_imm_recv}
use pplx_garden_cxi.Verbs.Domain.Peers.Handshake.{handle_peer_handshake}

abbrev pub grh_bytes : ℕ
grh_bytes = 40

-- a context after one of its requests failed; the caller is told once
abbrev pub failed_once : WriteOpContext → WriteOpContext
failed_once c = record c { cnt_finished_ops = c.cnt_finished_ops + 1; bad = true }

abbrev pub finished_one : WriteOpContext → WriteOpContext
finished_one c = record c { cnt_finished_ops = c.cnt_finished_ops + 1 }

abbrev imm_entry : ℕ → ImmCountStatus → Option DomainCompletionEntry
imm_entry imm vacant = some (imm_data imm)
imm_entry imm not_reached = none
imm_entry imm reached = some (imm_count_reached imm)

-- what is pushed for a completion
abbrev pub entries : Option DomainCompletionEntry → List DomainCompletionEntry
entries none = []
entries (some c) = c ∷ []

module _ {N : Type 0} (H : Host N) where
  -- `.expect(…)`: an error panics
  abbrev expect : Action (VerbsDomain N) (Unit {0}) → Action (VerbsDomain N) (Unit {0})
  expect m d =
      let (r, d') = m d in
      elim r [ ok _ ↦ (ok tt, d') | err e ↦ (panicked, d') | panicked ↦ (panicked, d') ]

  -- a completion of the datagram queue pair, which has no entry for the caller
  unfoldable pub handle_ud : WcOpcode → IbvWc → Action (VerbsDomain N) (Unit {0})
  handle_ud wc_recv wc = do
    info ←
        gets (λ d.
          H.received (wc.wr_id + grh_bytes) ((wc.byte_len + 2 ^ 64 - grh_bytes) % 2 ^ 64) d.nic)
    elim info [
      | none ↦ panic
      | some msg ↦ expect (handle_peer_handshake H msg) >> expect (post_ud_recv H wc.wr_id)
    ]
  handle_ud wc_send wc = modify (λ d. record d { ud_buffers = wc.wr_id ∷ d.ud_buffers })
  handle_ud wc_rdma_write wc = pure tt
  handle_ud wc_recv_rdma_with_imm wc = pure tt
  handle_ud wc_other wc = pure tt

  -- The failure of a write: whether the transfer is reported. `wr_id` 0 is the null pointer.
  unfoldable pub write_failed : ℕ → Action (VerbsDomain N) (Option ℕ)
  write_failed zero d = (ok none, d)
  write_failed (suc p) d = elim (read (suc p) d.contexts) [
    | none ↦ (panicked, d)
    | some c ↦
        let (r, d') =
          maybe_drop_write_op_context H (suc p)
            (record d { contexts = modify_at (suc p) failed_once d.contexts }) in
        (
          elim r [
            | ok _ ↦ ok (if c.bad then none else some c.transfer_id)
            | err e ↦ err e
            | panicked ↦ panicked
          ],
          d',
        )
  ]

  unfoldable pub write_done : ℕ → Action (VerbsDomain N) (Option DomainCompletionEntry)
  write_done zero d = (ok none, d)
  write_done (suc p) d = elim (read (suc p) d.contexts) [
    | none ↦ (panicked, d)
    | some c ↦
        let d₁ = record d { contexts = modify_at (suc p) finished_one d.contexts } in
        elim (ltb (c.cnt_finished_ops + 1) c.total_ops) [
          | true ↦ (ok none, d₁)
          | false ↦
              let (r, d') = maybe_drop_write_op_context H (suc p) d₁ in
              (
                elim r [
                  | ok _ ↦ ok (some (transfer c.transfer_id))
                  | err e ↦ err e
                  | panicked ↦ panicked
                ],
                d',
              )
        ]
  ]

  -- the transfer that a failed completion belongs to
  unfoldable pub failed_transfer : WcOpcode → IbvWc → Action (VerbsDomain N) (Option ℕ)
  failed_transfer wc_recv wc = pure (some wc.wr_id)
  failed_transfer wc_send wc = pure (some wc.wr_id)
  failed_transfer wc_rdma_write wc = write_failed wc.wr_id
  failed_transfer wc_recv_rdma_with_imm wc = pure none
  failed_transfer wc_other wc = pure none

  -- an immediate that has arrived: a receive is posted for the next one, and it is counted
  unfoldable pub imm_arrived : ℕ → Action (VerbsDomain N) (Option DomainCompletionEntry)
  imm_arrived imm = expect (post_imm_recv H) >> (λ d.
      let (status, memory) = inc_imm imm d.imm_count_map d.memory in
      (ok (imm_entry imm status), record d { memory = memory }))

  unfoldable pub succeeded :
      WcOpcode → IbvWc → Action (VerbsDomain N) (Option DomainCompletionEntry)
  succeeded wc_recv wc = pure (some (recv wc.wr_id wc.byte_len))
  succeeded wc_send wc = pure (some (send wc.wr_id))
  succeeded wc_rdma_write wc = write_done wc.wr_id
  succeeded wc_recv_rdma_with_imm wc = imm_arrived wc.imm_data
  succeeded wc_other wc = pure none

  abbrev to_entry : ℕ → Option ℕ → Option DomainCompletionEntry
  to_entry code none = none
  to_entry code (some id) = some (failed id (verbs_completion_error (H.wc_status_str code)))

  unfoldable pub handle_cqe : IbvWc → Action (VerbsDomain N) (Option DomainCompletionEntry)
  handle_cqe wc d = elim (wc.qp_num == d.ud_qp_num) [
    | true ↦ elim wc.status [
      | failure code ↦ (panicked, d)
      | success ↦ (handle_ud wc.opcode wc >> pure none) d
    ]
    | false ↦ elim wc.status [
      | failure code ↦ (failed_transfer wc.opcode wc >>= λ id. pure (to_entry code id)) d
      | success ↦ succeeded wc.opcode wc d
    ]
  ]

  abbrev pub push : Option DomainCompletionEntry → VerbsDomain N → VerbsDomain N
  push c d = record d { completions = d.completions ++ entries c }

  -- the completions of one batch
  unfoldable pub handle_batch : List IbvWc → Action (VerbsDomain N) (Unit {0})
  handle_batch [] = pure tt
  handle_batch (wc ∷ wcs) = (handle_cqe wc >>= λ c. modify (push c)) >> handle_batch wcs

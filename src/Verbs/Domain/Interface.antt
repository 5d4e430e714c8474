-- ===== src/Verbs/Domain/Interface.antt =====
-- `VerbsDomain` of fabric-lib/src/verbs/verbs_domain.rs as an `RdmaDomain`: the regions of memory,
-- the queues of the caller, and the poll of the NIC.
pub mod Full
use pplx_garden_cxi.Common.{
  ℕ, zero, suc, Bool, true, false, Option, none, some, List, [], ◌∷◌, ◌++◌, lookup, erase, insert,
  if◌then◌else◌,
}
use pplx_garden_cxi.Api.{
  Result, ok, err, panicked, Action, pure, ◌>>=◌, ◌>>◌, modify, custom, DomainCompletionEntry,
  RecvOp, SendOp, WriteOp, DomainAddress,
}
use pplx_garden_cxi.Provider.{MemoryRegion, Mapping, host, device}
use pplx_garden_cxi.Verbs.Domain.Host.{
  Host, Access, local_write, remote_read, remote_write, relaxed_ordering, IbvMr,
}
use pplx_garden_cxi.Verbs.Domain.State.{VerbsDomain, send_op, write_op}
use pplx_garden_cxi.Verbs.Domain.Submit.{progress_ops}
use pplx_garden_cxi.Verbs.Domain.Peers.{
  create, ud_alloc, post_ud_recv, post_imm_recv, submit_outbound_op,
}
use pplx_garden_cxi.Verbs.Domain.Completions.{handle_batch}

abbrev read_count : ℕ
read_count = 16

abbrev num_ud_recvs : ℕ
num_ud_recvs = 128

abbrev num_imm_recvs : ℕ
num_imm_recvs = 128

unfoldable pub access : (allow_remote : Bool) → List Access
access false = local_write ∷ relaxed_ordering ∷ []
access true = local_write ∷ relaxed_ordering ∷ remote_read ∷ remote_write ∷ []

module _ {N : Type 0} (H : Host N) where
  abbrev reg : MemoryRegion → Mapping → List Access → N → Option IbvMr × N
  reg region host flags = H.reg_mr region.ptr region.len flags
  reg region (device id none) flags = H.reg_mr region.ptr region.len flags
  reg region (device id (some fd)) flags = H.reg_dmabuf_mr region.len region.ptr fd flags

  -- the remote key
  unfoldable pub register_mr : MemoryRegion → (allow_remote : Bool) → Action (VerbsDomain N) ℕ
  register_mr region allow_remote d = elim (lookup region.ptr d.local_mr_map) [
    | some mr ↦ (ok mr.rkey, d)
    | none ↦
        (create H (reg region region.mapping (access allow_remote)) >>= λ mr.
        λ d'. (ok mr.rkey, record d' { local_mr_map = insert region.ptr mr d'.local_mr_map }))
          d
  ]

  unfoldable pub unregister_mr : ℕ → VerbsDomain N → VerbsDomain N
  unregister_mr ptr d = elim (lookup ptr d.local_mr_map) [
    | none ↦ d
    | some mr ↦ record d { local_mr_map = erase ptr d.local_mr_map; nic = H.dereg_mr mr.mr d.nic }
  ]

  unfoldable pub get_mem_desc : VerbsDomain N → ℕ → Result ℕ
  get_mem_desc d ptr = elim (lookup ptr d.local_mr_map) [
    | none ↦ err (custom "Local MR not found")
    | some mr ↦ ok mr.lkey
  ]

  unfoldable pub times : ℕ → Action (VerbsDomain N) (Unit {0}) → Action (VerbsDomain N) (Unit {0})
  times zero m = pure tt
  times (suc n) m = m >> times n m

  -- `post_init`, given the memory of the pool of datagram buffers
  unfoldable pub post_init : (pool : MemoryRegion) → Action (VerbsDomain N) (Unit {0})
  post_init pool =
      register_mr pool true
      >>= (λ _ d. (get_mem_desc d pool.ptr, d))
      >>= (λ lkey. modify (λ d. record d { ud_mempool_lkey = lkey }))
      >> times num_ud_recvs (ud_alloc H >>= post_ud_recv H)
      >> times num_imm_recvs (post_imm_recv H)

  unfoldable pub submit_recv : ℕ → RecvOp → VerbsDomain N → VerbsDomain N
  submit_recv id op d = record d {
    recv_ops = d.recv_ops ++ (record { transfer_id = id; op = op } ∷ []);
  }

  unfoldable pub submit_send : ℕ → DomainAddress → SendOp → Action (VerbsDomain N) (Unit {0})
  submit_send id dest_addr op = submit_outbound_op H id dest_addr (send_op op)

  unfoldable pub submit_write : ℕ → DomainAddress → WriteOp → Action (VerbsDomain N) (Unit {0})
  submit_write id dest_addr op = submit_outbound_op H id dest_addr (write_op op)

  -- The loop: whether it is over. `false` is a loop that has polled `rounds` batches and found
  -- completions in each.
  unfoldable pub poll_cq : (rounds : ℕ) → Action (VerbsDomain N) Bool
  poll_cq zero d = (ok false, d)
  poll_cq (suc rounds) d =
      let (wcs, nic) = H.poll_cq read_count d.nic in
      elim wcs [
        | none ↦ (panicked, record d { nic = nic })
        | some batch ↦ elim batch [
          | [] ↦ (ok true, record d { nic = nic })
          | wc ∷ rest ↦ (handle_batch H (wc ∷ rest) >> poll_cq rounds) (record d { nic = nic })
        ]
      ]

  unfoldable pub poll_progress : (rounds : ℕ) → Action (VerbsDomain N) Bool
  poll_progress rounds = do
    over ← poll_cq rounds
    if over then (progress_ops H >> pure true) else pure false

  unfoldable pub get_completion : VerbsDomain N → Option DomainCompletionEntry × VerbsDomain N
  get_completion d = elim d.completions [
    | [] ↦ (none, d)
    | c ∷ rest ↦ (some c, record d { completions = rest })
  ]

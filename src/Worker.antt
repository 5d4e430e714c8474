-- ===== src/Worker.antt =====
-- fabric-lib/src/worker.rs: the two threads of a GPU, step by step. Uvm has the watchers of shared
-- memory, Steps the thread that owns the domains.
pub mod Uvm
pub mod Steps
use Prim.Native.String.{String}
use pplx_garden_cxi.Common.{ℕ, Bool, true, false, List, [], ◌∷◌, ◌++◌, if◌then◌else◌}
use pplx_garden_cxi.Api.{
  ok, err, Action, custom, FabricLibError, DomainCompletionEntry, recv, send, transfer, imm_data,
  imm_count_reached, failed,
}

pub data TransferCompletionEntry : Type 0 where
  recv_done : (transfer_id data_len : ℕ) → TransferCompletionEntry
  send_done : (transfer_id : ℕ) → TransferCompletionEntry
  transfer_done : (transfer_id : ℕ) → TransferCompletionEntry
  imm_data_done : (imm : ℕ) → TransferCompletionEntry
  imm_count_reached_done : (imm : ℕ) → TransferCompletionEntry
  uvm_watch : (id old new : ℕ) → TransferCompletionEntry
  error : (transfer_id : ℕ) → FabricLibError → TransferCompletionEntry

unfoldable pub tx_comp : DomainCompletionEntry → TransferCompletionEntry
tx_comp (recv id data_len) = recv_done id data_len
tx_comp (send id) = send_done id
tx_comp (transfer id) = transfer_done id
tx_comp (imm_data imm) = imm_data_done imm
tx_comp (imm_count_reached imm) = imm_count_reached_done imm
tx_comp (failed id e) = error id e

-- What `try_recv` finds in a channel.
pub data Received (A : Type 0) : Type 0 where
  got : A → Received A
  nothing : Received A
  disconnected : Received A

-- `Err(())` of a step, on which its thread panics
abbrev pub step_failed : FabricLibError
step_failed = custom "Worker step failed"

-- The queue of completions: what was sent, and whether it has a receiver. A send to a full queue
-- waits, so that it is the same send, later.
pub record CompletionQueue : Type 0 where
  pub sent : List TransferCompletionEntry
  pub connected : Bool

abbrev pub push : TransferCompletionEntry → Action CompletionQueue (Unit {0})
push comp q =
    if q.connected then (ok tt, record q { sent = q.sent ++ (comp ∷ []) }) else (err step_failed, q)

-- `ret.send(…).map_err(|_| ())?`, given whether the caller still waits
abbrev pub reply {ℓ} : {S : Type ℓ} → (listens : Bool) → Action S (Unit {0})
reply listens s = (if listens then ok tt else err step_failed, s)

-- ===== src/Worker/Steps.antt =====
-- `worker_step` of fabric-lib/src/worker.rs: one turn of the thread that owns the domains.
pub mod Drain
pub mod Turn
mod Tests
use pplx_garden_cxi.Common.{
  ℕ, zero, suc, ◌+◌, Bool, true, false, Option, none, some, List, [], ◌∷◌, ◌++◌, if◌then◌else◌,
}
use pplx_garden_cxi.Memory.{Memory}
use pplx_garden_cxi.Api.{
  Result, ok, err, panicked, Action, pure, raise, ◌>>=◌, ◌>>◌, modify, DomainAddress,
  MemoryRegionDescriptor, TransferRequest, TransferCounter, DomainCompletionEntry,
}
use pplx_garden_cxi.Provider.{RdmaDomain, MemoryRegion}
use pplx_garden_cxi.Group.{
  DomainGroup, register_mr_local, register_mr_allow_remote, unregister_mr, add_peer_group,
  submit_send, submit_recv, poll_progress,
}
use pplx_garden_cxi.Group.Dispatch.{submit_transfer_request}
use pplx_garden_cxi.Group.Completion.{get_completion}
use pplx_garden_cxi.Worker.{
  TransferCompletionEntry, error, tx_comp, Received, got, nothing, disconnected, step_failed,
  CompletionQueue, push, reply,
}

pub data WorkerCommand : Type 0 where
  submit_transfer : (transfer_id : ℕ) → TransferRequest → Option TransferCounter → WorkerCommand
  send_to : (transfer_id mr ptr len : ℕ) → DomainAddress → WorkerCommand
  receive : (transfer_id mr ptr len : ℕ) → WorkerCommand

pub data WorkerCall : Type 0 where
  call_register_mr_local : MemoryRegion → WorkerCall
  call_register_mr_allow_remote : MemoryRegion → WorkerCall
  call_unregister_mr : (ptr : ℕ) → WorkerCall
  call_add_peer_group : List (List DomainAddress) → WorkerCall

-- what a caller gets back
pub data Answer : Type 0 where
  registered_local : Result ℕ → Answer
  registered_remote : Result (ℕ × MemoryRegionDescriptor) → Answer
  unregistered : Answer
  peer_group : Result ℕ → Answer

pub record WorkerState (D : Type 0) : Type 0 where
  pub group : DomainGroup D
  pub memory : Memory
  pub answers : List Answer
  pub queue : CompletionQueue

module _ {D : Type 0} (R : RdmaDomain D) where
  -- The answer to a caller; a call that panics gives none.
  abbrev pub answer :
      {A : Type 0}
      → (Result A → Answer)
      → (listens : Bool) → Result A × DomainGroup D
      → Action (WorkerState D) (Unit {0})
  answer wrap listens (r, group) w = elim r [
    | panicked ↦ (panicked, record w { group = group })
    | ok a ↦ reply listens (record w {
      group = group;
      answers = if listens then wrap (ok a) ∷ w.answers else w.answers;
    })
    | err e ↦ reply listens (record w {
      group = group;
      answers = if listens then wrap (err e) ∷ w.answers else w.answers;
    })
  ]

  unfoldable pub worker_call : WorkerCall → (listens : Bool) → Action (WorkerState D) (Unit {0})
  worker_call (call_register_mr_local region) listens w =
      answer registered_local listens (register_mr_local R region w.group) w
  worker_call (call_register_mr_allow_remote region) listens w =
      answer registered_remote listens (register_mr_allow_remote R region w.group) w
  worker_call (call_unregister_mr ptr) listens w =
      answer (λ _. unregistered) listens (ok tt, unregister_mr R ptr w.group) w
  worker_call (call_add_peer_group addrs) listens w =
      answer peer_group listens (add_peer_group R addrs w.group) w

  -- what a command asks of the group, and whose transfer it is
  unfoldable pub submit : WorkerCommand → Action (DomainGroup D) (Unit {0})
  submit (submit_transfer id request tx_counter) = submit_transfer_request R id request tx_counter
  submit (send_to id mr ptr len addr) = submit_send R id mr ptr len addr
  submit (receive id mr ptr len) = submit_recv R id mr ptr len

  abbrev pub id_of : WorkerCommand → ℕ
  id_of (submit_transfer id request tx_counter) = id
  id_of (send_to id mr ptr len addr) = id
  id_of (receive id mr ptr len) = id

  abbrev pub send_entry : TransferCompletionEntry → Action (WorkerState D) (Unit {0})
  send_entry entry w = let (r, q) = push entry w.queue in (r, record w { queue = q })

  unfoldable pub worker_command : WorkerCommand → Action (WorkerState D) (Unit {0})
  worker_command cmd w =
      let (r, group) = submit cmd w.group in
      elim r [
        | ok _ ↦ (ok tt, record w { group = group })
        | err e ↦ send_entry (error (id_of cmd) e) (record w { group = group })
        | panicked ↦ (panicked, record w { group = group })
      ]

  -- `while let Some(comp) = group.get_completion()`: whether the loop is over
  unfoldable pub send_completions : (rounds : ℕ) → Action (WorkerState D) Bool
  send_completions zero w = (ok false, w)
  send_completions (suc rounds) w =
      let (comp, group, memory) = get_completion R w.group w.memory in
      let w' = record w { group = group; memory = memory } in
      elim comp [
        | none ↦ (ok true, w')
        | some c ↦ (send_entry (tx_comp c) >> send_completions rounds) w'
      ]

  unfoldable pub take_call :
      Received WorkerCall → (listens : Bool) → Action (WorkerState D) (Unit {0})
  take_call (got call) listens = worker_call call listens
  take_call nothing listens = pure tt
  take_call disconnected listens = raise step_failed

  unfoldable pub take_command : Received WorkerCommand → Action (WorkerState D) (Unit {0})
  take_command (got cmd) = worker_command cmd
  take_command nothing = pure tt
  take_command disconnected = raise step_failed

  unfoldable pub worker_step :
      (rounds : ℕ)
      → Received WorkerCall
      → (listens : Bool) → Received WorkerCommand
      → Action (WorkerState D) Bool
  worker_step rounds call listens cmd =
      take_call call listens
      >> take_command cmd
      >> modify (λ w. record w { group = poll_progress R w.group })
      >> send_completions rounds

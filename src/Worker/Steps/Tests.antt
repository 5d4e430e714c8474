-- ===== src/Worker/Steps/Tests.antt =====
-- A turn with a send, on a NIC that holds the completion of a transfer.
use pplx_garden_cxi.Common.{
  ℕ, ◌+◌, ◌≤◌, ◌≡◌, refl, true, false, none, some, List, [], ◌∷◌, ◌++◌, map, length, arith,
}
use pplx_garden_cxi.Memory.{Memory}
use pplx_garden_cxi.Api.{ok, recv, DomainCompletionEntry}
use pplx_garden_cxi.Testbed.{Nic, nic, recorder}
use pplx_garden_cxi.Group
use pplx_garden_cxi.Group.{DomainGroup, poll_progress, submit_send}
use pplx_garden_cxi.Worker.{tx_comp, got, nothing}
use pplx_garden_cxi.Worker.Steps.{
  WorkerState, WorkerCommand, send_to, submit, take_call, worker_step,
}
use pplx_garden_cxi.Worker.Steps.Drain.{IsFinite, left, Drained}
use pplx_garden_cxi.Worker.Steps.Turn.{refusal, turn_lem}

abbrev held : Nic → ℕ
held d = length d.queue

pops :
    (d : Nic) (queue : List DomainCompletionEntry)
    → d.queue ≡ queue
    → held (recorder.get_completion d).1
        + (elim (recorder.get_completion d).0 as (λ _. ℕ) [ none ↦ 0 | some e ↦ 1 ])
      ≤ held d
pops d [] e = ground (arith, e)
pops d (c ∷ cs) e = ground (arith, e)

held-IsFinite : IsFinite recorder held
held-IsFinite d = ground (arith, pops d d.queue refl)

abbrev worker : WorkerState Nic
worker = record {
  group = Group.new (record (nic 0) { queue = recv 5 64 ∷ [] } ∷ []);
  memory = record { next_cell = 0; cell = λ _. 0; flag = λ _. false };
  answers = [];
  queue = record { sent = []; connected = true };
}

abbrev command : WorkerCommand
command = send_to 9 1000 1000 64 (7 ∷ [])

accepted : (submit recorder command worker.group).0 ≡ ok tt
unfolding submit submit_send Group.new
accepted = refl

turn_lem_example :
    let (r, g) = submit recorder command worker.group in
    (es : List DomainCompletionEntry) × (g' : DomainGroup Nic) × (m' : Memory) × Drained recorder es
      (poll_progress recorder g)
      worker.memory
      g'
      m'
    × (worker_step recorder 2 nothing true (got command) worker ≡ (
      ok true,
      record worker {
        group = g';
        memory = m';
        queue = record { sent = [] ++ (refusal recorder 9 r ++ map tx_comp es); connected = true };
      },
    ))
unfolding take_call submit submit_send Group.new poll_progress left
turn_lem_example =
    turn_lem recorder held 2 nothing true command worker held-IsFinite refl refl (λ e. cc)
      (omega arith)

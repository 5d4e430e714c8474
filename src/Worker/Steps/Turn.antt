-- ===== src/Worker/Steps/Turn.antt =====
-- One turn of the thread of fabric-lib/src/worker.rs as a whole.
use pplx_garden_cxi.Common.{
  ℕ, ◌<◌, ◌≡◌, ◌≢◌, refl, ap, ap₂, ◌∙◌, Bool, true, List, [], ◌∷◌, ◌++◌, map, append_assoc,
  append-nil, arith,
}
use pplx_garden_cxi.Memory.{Memory}
use pplx_garden_cxi.Api.{Result, ok, err, panicked, DomainCompletionEntry}
use pplx_garden_cxi.Provider.{RdmaDomain}
use pplx_garden_cxi.Group.{
  DomainGroup, poll_progress, register_mr_local, register_mr_allow_remote, add_peer_group,
}
use pplx_garden_cxi.Worker.{
  TransferCompletionEntry, error, tx_comp, Received, got, nothing, disconnected, CompletionQueue,
}
use pplx_garden_cxi.Worker.Steps.{
  WorkerState, WorkerCommand, WorkerCall, call_register_mr_local, call_register_mr_allow_remote,
  call_unregister_mr, call_add_peer_group, Answer, registered_local, registered_remote, peer_group,
  answer, submit, id_of, worker_call, worker_command, send_completions, worker_step, take_call,
  take_command,
}
use pplx_garden_cxi.Worker.Steps.Drain.{IsFinite, left, Drained, sending, drain_lem}

module _ {D : Type 0} (R : RdmaDomain D) where
  -- A caller's call leaves the queue of completions and the memory alone.
  abbrev Quiet : WorkerState D → WorkerState D → Type 0
  Quiet w w' = (w'.queue ≡ w.queue) × (w'.memory ≡ w.memory)

  answer-Quiet :
      {A : Type 0} (wrap : Result A → Answer) (listens : Bool) (r : Result A) (g : DomainGroup D)
      (w : WorkerState D)
      → Quiet w (answer R wrap listens (r, g) w).1
  answer-Quiet wrap listens (ok a) g w = (refl, refl)
  answer-Quiet wrap listens (err e) g w = (refl, refl)
  answer-Quiet wrap listens panicked g w = (refl, refl)

  take_call-Quiet :
      (call : Received WorkerCall) (listens : Bool) (w : WorkerState D)
      → Quiet w (take_call R call listens w).1
  unfolding take_call worker_call
  take_call-Quiet (got (call_register_mr_local region)) listens w =
      let out = register_mr_local R region w.group in
      answer-Quiet registered_local listens out.0 out.1 w
  take_call-Quiet (got (call_register_mr_allow_remote region)) listens w =
      let out = register_mr_allow_remote R region w.group in
      answer-Quiet registered_remote listens out.0 out.1 w
  take_call-Quiet (got (call_unregister_mr ptr)) listens w = (refl, refl)
  take_call-Quiet (got (call_add_peer_group addrs)) listens w =
      let out = add_peer_group R addrs w.group in answer-Quiet peer_group listens out.0 out.1 w
  take_call-Quiet nothing listens w = (refl, refl)
  take_call-Quiet disconnected listens w = (refl, refl)

  -- what the caller is told of a command that the group refuses
  abbrev pub refusal : ℕ → Result (Unit {0}) → List TransferCompletionEntry
  refusal id (ok _) = []
  refusal id (err e) = error id e ∷ []
  refusal id panicked = []

  command_lem :
      (cmd : WorkerCommand) (w : WorkerState D) (r : Result (Unit {0}))
      → (submit R cmd w.group).0 ≡ r
      → r ≢ panicked
      → w.queue.connected ≡ true
      → worker_command R cmd w ≡ (
        ok tt,
        record (sending R (refusal (id_of R cmd) (submit R cmd w.group).0) w) {
          group = (submit R cmd w.group).1;
        },
      )
  unfolding worker_command
  command_lem cmd w (ok _) e fine open' = ground (arith, e, append-nil w.queue.sent)
  command_lem cmd w (err x) e fine open' = ground (arith, e, open')
  command_lem cmd w panicked e fine open' = absurd (fine refl)

  module _ (size : D → ℕ) where
    -- A turn of the thread with a command, on domains that hold a finite number of completions
    -- each, with a receiver for what is sent, where the call of another thread, if there is one,
    -- is answered and the command does not panic. For as many rounds of its loop as there are
    -- completions after the poll, and one, the turn ends. A command that the group refuses is
    -- told as one error of its transfer; then follow the completions that the group gives until
    -- it gives none, in order, and nothing else is sent.
    pub turn_lem :
        (rounds : ℕ) (call : Received WorkerCall) (listens : Bool) (cmd : WorkerCommand)
        (w : WorkerState D)
        → IsFinite R size
        → w.queue.connected ≡ true
        → (take_call R call listens w).0 ≡ ok tt
        → (submit R cmd (take_call R call listens w).1.group).0 ≢ panicked
        → left R size
            (poll_progress R (submit R cmd (take_call R call listens w).1.group).1).domains
          < rounds
        → let w₁ = (take_call R call listens w).1 in
          let (r, g) = submit R cmd w₁.group in
          (es : List DomainCompletionEntry) × (g' : DomainGroup D) × (m' : Memory) × Drained R es
            (poll_progress R g)
            w.memory
            g'
            m'
          × (worker_step R rounds call listens (got cmd) w ≡ (
            ok true,
            record w₁ {
              group = g';
              memory = m';
              queue = record w.queue {
                sent = w.queue.sent ++ (refusal (id_of R cmd) r ++ map tx_comp es);
              };
            },
          ))
    unfolding worker_step take_command
    turn_lem rounds call listens cmd w finite open' called fine enough =
        let w₁ = (take_call R call listens w).1 in
        let (same_queue, same_memory) = take_call-Quiet call listens w in
        let r = (submit R cmd w₁.group).0 in
        let g = (submit R cmd w₁.group).1 in
        let open₁ : w₁.queue.connected ≡ true = ap (λ q. q.connected) same_queue ∙ open' in
        let commanded = command_lem cmd w₁ r refl fine open₁ in
        let told = refusal (id_of R cmd) r in
        let turned : CompletionQueue → Memory → WorkerState D = λ q m. record w₁ {
          group = poll_progress R g;
          memory = m;
          queue = record q { sent = q.sent ++ told };
        } in
        let w₂ = turned w.queue w.memory in
        let (es, g', m', drained, run) = drain_lem R size finite rounds w₂ open' enough in
        let first : worker_step R rounds call listens (got cmd) w
            ≡ send_completions R rounds (turned w₁.queue w₁.memory) =
          ground (arith, called, commanded) in
        (
          es,
          g',
          m',
          drained,
          first
              ∙ ap₂ (λ q m. send_completions R rounds (turned q m)) same_queue same_memory
              ∙ run
              ∙ ap
                  (λ s. (
                    ok true,
                    record w₁ { group = g'; memory = m'; queue = record w.queue { sent = s } },
                  ))
                  (append_assoc w.queue.sent told (map tx_comp es)),
        )

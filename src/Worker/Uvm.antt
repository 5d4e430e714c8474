-- ===== src/Worker/Uvm.antt =====
-- `UvmWatcherContext` of fabric-lib/src/worker.rs, and the step of the thread that owns it. The
-- memory is shared with the GPU, which writes to it between the steps.
pub mod Slots
pub mod Scan
mod Tests
use pplx_garden_cxi.Common.{
  ℕ, zero, suc, ◌+◌, ◌-◌, ◌*◌, ◌/◌, Bool, true, false, not, ◌||◌, Option, none, some, List, [], ◌∷◌,
  ◌==◌, ltb, if◌then◌else◌, set_has, set_insert, set_remove,
}
use pplx_garden_cxi.Memory.{update}
use pplx_garden_cxi.Api.{Result, ok, err, panicked, Action, pure, raise, ◌>>=◌, ◌>>◌, for_each}
use pplx_garden_cxi.Worker.{
  TransferCompletionEntry, uvm_watch, Received, got, nothing, disconnected, step_failed,
  CompletionQueue, push, reply,
}

-- The memory starts at `ptr` and has `size` bytes; `uvm_memory` has its 64-bit words.
-- `free_slots` has its last slot first, and a set of slots is a list.
pub record UvmWatcherContext : Type 0 where
  pub ptr : ℕ
  pub size : ℕ
  pub uvm_memory : ℕ → ℕ
  pub last_values : ℕ → ℕ
  pub free_slots : List ℕ
  pub used_slots : List ℕ

abbrev pub word : ℕ
word = 8

abbrev uvm_watcher_bytes : ℕ
uvm_watcher_bytes = 4096

abbrev pub num_slots : UvmWatcherContext → ℕ
num_slots c = c.size / word

-- `k`, `k + 1` and so on
unfoldable pub slots_from : ℕ → (count : ℕ) → List ℕ
slots_from k zero = []
slots_from k (suc count) = k ∷ slots_from (k + 1) count

-- `UvmWatcherContext::new`, given where the memory is allocated
unfoldable pub new : (ptr : ℕ) → UvmWatcherContext
new ptr = record {
  ptr = ptr;
  size = uvm_watcher_bytes;
  uvm_memory = λ _. 0;
  last_values = λ _. 0;
  free_slots = slots_from 0 (uvm_watcher_bytes / word);
  used_slots = [];
}

abbrev pub slot_to_id : UvmWatcherContext → ℕ → ℕ
slot_to_id c slot = c.ptr + slot * word

unfoldable pub acquire : UvmWatcherContext → Option ℕ × UvmWatcherContext
acquire c = elim c.free_slots [
  | [] ↦ (none, c)
  | slot ∷ rest ↦ (
    some (slot_to_id c slot),
    record c { free_slots = rest; used_slots = set_insert slot c.used_slots },
  )
]

abbrev pub out_of_bounds : ℕ → UvmWatcherContext → Bool
out_of_bounds id c = ltb id c.ptr || not (ltb id (c.ptr + c.size))

-- a slot that was in use
abbrev pub freed : ℕ → UvmWatcherContext → UvmWatcherContext
freed slot c = record c {
  used_slots = set_remove slot c.used_slots;
  free_slots = slot ∷ c.free_slots;
  uvm_memory = update c.uvm_memory slot 0;
  last_values = update c.last_values slot 0;
}

unfoldable pub release : ℕ → Action UvmWatcherContext (Unit {0})
release id c =
    let slot = (id - c.ptr) / word in
    if out_of_bounds id c
    then (panicked, c)
    else (if set_has slot c.used_slots then (ok tt, freed slot c) else (ok tt, c))

-- The body of the loop over the slots in use.
unfoldable pub watch_slot : ℕ → Action (UvmWatcherContext × CompletionQueue) (Unit {0})
watch_slot slot (c, q) =
    let value = c.uvm_memory slot in
    let old = c.last_values slot in
    let (r, q') = push (uvm_watch (slot_to_id c slot) old value) q in
    if value == old
    then (ok tt, (c, q))
    else (r, (record c { last_values = update c.last_values slot value }, q'))

unfoldable pub watch_slots : List ℕ → Action (UvmWatcherContext × CompletionQueue) (Unit {0})
watch_slots slots = for_each slots watch_slot

pub data UvmWatcherCall : Type 0 where
  acquire_uvm_watcher : UvmWatcherCall
  release_uvm_watcher : (watcher : ℕ) → UvmWatcherCall

pub record UvmWorker : Type 0 where
  pub uvm_ctx : Option UvmWatcherContext
  pub replies : List (Option ℕ)
  pub queue : CompletionQueue

abbrev get_or_new : (ptr : ℕ) → Option UvmWatcherContext → UvmWatcherContext
get_or_new ptr none = new ptr
get_or_new ptr (some c) = c

-- A call is answered, if the caller still waits for it.
unfoldable pub uvm_call :
    (ptr : ℕ) → UvmWatcherCall → (listens : Bool) → Action UvmWorker (Unit {0})
uvm_call ptr acquire_uvm_watcher listens w =
    let (id, c) = acquire (get_or_new ptr w.uvm_ctx) in
    reply listens
      (record w { uvm_ctx = some c; replies = if listens then id ∷ w.replies else w.replies })
uvm_call ptr (release_uvm_watcher id) listens w = elim w.uvm_ctx [
  | none ↦ reply listens w
  | some c ↦
      let (r, c') = release id c in
      elim r [
        | ok _ ↦ reply listens (record w { uvm_ctx = some c' })
        | err e ↦ (err e, w)
        | panicked ↦ (panicked, w)
      ]
]

unfoldable pub watch : Action UvmWorker (Unit {0})
watch w = elim w.uvm_ctx [
  | none ↦ (ok tt, w)
  | some c ↦
      let (r, (c', q)) = watch_slots c.used_slots (c, w.queue) in
      (r, record w { uvm_ctx = some c'; queue = q })
]

-- `uwm_worker_step`, given what the channel of calls has
unfoldable pub uwm_worker_step :
    (ptr : ℕ) → Received UvmWatcherCall → (listens : Bool) → Action UvmWorker (Unit {0})
uwm_worker_step ptr (got call) listens = uvm_call ptr call listens >> watch
uwm_worker_step ptr nothing listens = watch
uwm_worker_step ptr disconnected listens = raise step_failed

-- ===== src/Worker/Uvm/Tests.antt =====
-- Two watchers, one of whose words the GPU has written.
use pplx_garden_cxi.Common.{
  ℕ, ◌≡◌, refl, ◌⊎◌, true, some, [], ◌∷◌, ◌++◌, set_has, set_insert, if◌then◌else◌,
}
use pplx_garden_cxi.Memory.{update}
use pplx_garden_cxi.Api.{ok}
use pplx_garden_cxi.Worker.{uvm_watch, nothing}
use pplx_garden_cxi.Worker.Uvm.{
  UvmWatcherContext, new, slots_from, acquire, UvmWorker, uwm_worker_step,
}
use pplx_garden_cxi.Worker.Uvm.Slots.{
  IsValid, Reached, made, acquired, written, IsFull, Gives, reached_lem,
}
use pplx_garden_cxi.Worker.Uvm.Scan.{changes, scan_lem}

abbrev one : UvmWatcherContext
one = (acquire (new 4096)).1

abbrev two : UvmWatcherContext
two = (acquire one).1

two-Reached : Reached two
two-Reached = acquired one (acquired (new 4096) (made 4096))

reached_lem_example : IsValid two × (IsFull two ⊎ Gives two)
reached_lem_example = reached_lem two two-Reached

abbrev seven : ℕ → ℕ
seven = update (λ _. 0) 1 7

abbrev changed : UvmWatcherContext
changed = record two { uvm_memory = seven }

abbrev worker : UvmWorker
worker = record {
  uvm_ctx = some changed;
  replies = [];
  queue = record { sent = []; connected = true };
}

one_change : changes changed changed.used_slots ≡ uvm_watch 4104 0 7 ∷ []
unfolding changes acquire new slots_from set_insert set_has
one_change = refl

scan_lem_example :
    (values : ℕ → ℕ) × (uwm_worker_step 4096 nothing true worker ≡ (
      ok tt,
      record worker {
        uvm_ctx = some (record changed { last_values = values });
        queue = record { sent = [] ++ changes changed changed.used_slots; connected = true };
      },
    ))
    × ((s : ℕ)
        → values s ≡ (if set_has s changed.used_slots then seven s else changed.last_values s))
    × (changes (record changed { last_values = values }) changed.used_slots ≡ [])
scan_lem_example = scan_lem 4096 true changed worker (written seven two two-Reached) refl refl

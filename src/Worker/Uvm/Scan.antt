-- ===== src/Worker/Uvm/Scan.antt =====
-- What the thread of the watchers reports, in fabric-lib/src/worker.rs.
use pplx_garden_cxi.Common.{
  ℕ, ◌+◌, ◌*◌, ◌≤◌, ◌≡◌, refl, sym, ap, ◌∙◌, inl, inr, Bool, true, false, some, List, [], ◌∷◌, ◌++◌,
  append_assoc, append-nil, ◌==◌, if◌then◌else◌, Bool-cases, set_has, tally, tally-set_has, arith,
}
use pplx_garden_cxi.Memory.{update}
use pplx_garden_cxi.Api.{ok, for_each}
use pplx_garden_cxi.Worker.{TransferCompletionEntry, uvm_watch, CompletionQueue, nothing}
use pplx_garden_cxi.Worker.Uvm.{
  UvmWatcherContext, watch_slot, watch_slots, word, UvmWorker, watch, uwm_worker_step,
}
use pplx_garden_cxi.Worker.Uvm.Slots.{IsValid, Reached, reached_lem}

-- the entry of a slot whose value is not the one seen last
abbrev pub change : UvmWatcherContext → ℕ → List TransferCompletionEntry
change c slot =
    if c.uvm_memory slot == c.last_values slot
    then []
    else uvm_watch (c.ptr + slot * word) (c.last_values slot) (c.uvm_memory slot) ∷ []

unfoldable pub changes : UvmWatcherContext → List ℕ → List TransferCompletionEntry
changes c [] = []
changes c (slot ∷ slots) = change c slot ++ changes c slots

abbrev with_value : UvmWatcherContext → ℕ → ℕ → UvmWatcherContext
with_value c slot v = record c { last_values = update c.last_values slot v }

changes-with_value :
    (c : UvmWatcherContext) (slot v : ℕ) (slots : List ℕ)
    → set_has slot slots ≡ false
    → changes (with_value c slot v) slots ≡ changes c slots
unfolding changes set_has
changes-with_value c slot v [] e = refl
changes-with_value c slot v (s ∷ slots) e = elim (Bool-cases (s == slot)) [
  | inl same ↦ absurd (no (rw same at e))
  | inr other ↦
      let rest = changes-with_value c slot v slots (rw other at e) in ground (arith, other, rest)
]
  where
    no : true ≡ false → ⊥
    no h = cc

-- The values seen last, and the context, after a slot was looked at.
abbrev seen_values : UvmWatcherContext → ℕ → ℕ → ℕ
seen_values c slot =
    if c.uvm_memory slot == c.last_values slot
    then c.last_values
    else update c.last_values slot (c.uvm_memory slot)

abbrev seen : UvmWatcherContext → ℕ → UvmWatcherContext
seen c slot = record c { last_values = seen_values c slot }

watch_one :
    (slot : ℕ) (c : UvmWatcherContext) (q : CompletionQueue)
    → q.connected ≡ true
    → watch_slot slot (c, q) ≡ (ok tt, (seen c slot, record q { sent = q.sent ++ change c slot }))
unfolding watch_slot
watch_one slot c q e = elim (Bool-cases (c.uvm_memory slot == c.last_values slot)) [
  | inl same ↦ ground (arith, same, append-nil q.sent)
  | inr other ↦ ground (arith, other, e)
]

changes-seen :
    (c : UvmWatcherContext) (slot : ℕ) (slots : List ℕ)
    → set_has slot slots ≡ false
    → changes (seen c slot) slots ≡ changes c slots
changes-seen c slot slots e = elim (Bool-cases (c.uvm_memory slot == c.last_values slot)) [
  | inl same ↦
      ap
        (λ b.
          changes
            (record c {
              last_values =
                  if b then c.last_values else update c.last_values slot (c.uvm_memory slot);
            })
            slots)
        same
  | inr other ↦
      ap
        (λ b.
          changes
            (record c {
              last_values =
                  if b then c.last_values else update c.last_values slot (c.uvm_memory slot);
            })
            slots)
        other
      ∙ changes-with_value c slot (c.uvm_memory slot) slots e
]

abbrev Once : List ℕ → Type 0
Once slots = (slot : ℕ) → tally slot slots ≤ 1

abbrev Scanned : List ℕ → UvmWatcherContext → CompletionQueue → Type 0
Scanned slots c q =
    (values : ℕ → ℕ) × (watch_slots slots (c, q)
      ≡ (ok tt, (record c { last_values = values }, record q { sent = q.sent ++ changes c slots })))
    × ((s : ℕ) → values s ≡ (if set_has s slots then c.uvm_memory s else c.last_values s))

Once-head : (slot : ℕ) (slots : List ℕ) → Once (slot ∷ slots) → set_has slot slots ≡ false
unfolding tally
Once-head slot slots once = ground (arith, once slot, tally-set_has slot slots)

Once-tail : (slot : ℕ) (slots : List ℕ) → Once (slot ∷ slots) → Once slots
unfolding tally
Once-tail slot slots once s = omega (arith, once s)

scan :
    (slots : List ℕ) (c : UvmWatcherContext) (q : CompletionQueue)
    → q.connected ≡ true
    → Once slots
    → Scanned slots c q
unfolding watch_slots for_each changes set_has
scan [] c q e once = (
  c.last_values,
  ap (λ es. (ok tt, (c, record q { sent = es }))) (sym (append-nil q.sent)),
  λ s. refl,
)
scan (slot ∷ slots) c q e once =
    let q₁ : CompletionQueue = record q { sent = q.sent ++ change c slot } in
    let (values, rest, last) = scan slots (seen c slot) q₁ e (Once-tail slot slots once) in
    let one = watch_one slot c q e in
    let next : watch_slots (slot ∷ slots) (c, q) ≡ watch_slots slots (seen c slot, q₁) =
      ground (arith, one) in
    let same = changes-seen c slot slots (Once-head slot slots once) in
    (
      values,
      next
          ∙ rest
          ∙ ap (λ es. (ok tt, (record c { last_values = values }, record q { sent = es })))
              (append_assoc q.sent (change c slot) (changes (seen c slot) slots)
                ∙ ap (λ es. q.sent ++ (change c slot ++ es)) same),
      λ s. last s ∙ ground arith,
    )

-- Slots whose value was seen have nothing to report.
quiet :
    (c : UvmWatcherContext) (slots : List ℕ)
    → ((s : ℕ) → set_has s slots ≡ true → c.last_values s ≡ c.uvm_memory s)
    → changes c slots ≡ []
unfolding changes set_has
quiet c [] h = refl
quiet c (slot ∷ slots) h =
    let here = h slot (ground arith) in
    let rest = quiet c slots (λ s e. h s (ground (arith, e))) in ground (arith, here, rest)

valid-Once : (c : UvmWatcherContext) → IsValid c → Once c.used_slots
valid-Once c valid slot = ground (arith, valid slot)

-- A context that was used in any way, a queue with a receiver, and a step of the thread without
-- a call. For each slot in use whose value has changed, one entry is sent, with the value seen
-- last and the new one, in the order of the slots, and no other. The new values are those seen
-- last from then on, slots that are not in use keep theirs, and another step sends nothing until
-- the memory changes.
pub scan_lem :
    (ptr : ℕ) (listens : Bool) (c : UvmWatcherContext) (w : UvmWorker)
    → Reached c
    → w.uvm_ctx ≡ some c
    → w.queue.connected ≡ true
    → (values : ℕ → ℕ) × (uwm_worker_step ptr nothing listens w ≡ (
      ok tt,
      record w {
        uvm_ctx = some (record c { last_values = values });
        queue = record w.queue { sent = w.queue.sent ++ changes c c.used_slots };
      },
    ))
      × ((s : ℕ) → values s ≡ (if set_has s c.used_slots then c.uvm_memory s else c.last_values s))
      × (changes (record c { last_values = values }) c.used_slots ≡ [])
unfolding uwm_worker_step watch
scan_lem ptr listens c w reached here open' =
    let once = valid-Once c (reached_lem c reached).0 in
    let (values, run, last) = scan c.used_slots c w.queue open' once in
    (
      values,
      ground (arith, here, run),
      last,
      quiet (record c { last_values = values }) c.used_slots (λ s e. last s ∙ ground (arith, e)),
    )

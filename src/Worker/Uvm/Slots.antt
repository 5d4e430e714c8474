-- ===== src/Worker/Uvm/Slots.antt =====
-- The slots of the watchers of fabric-lib/src/worker.rs: each is free or in use, and in one place.
use pplx_garden_cxi.Common.{
  ℕ, zero, suc, ◌+◌, ◌-◌, ◌*◌, ◌/◌, ◌<◌, ◌≡◌, refl, ap, ◌∙◌, ◌⊎◌, inl, inr, true, false, none, some,
  List, [], ◌∷◌, ◌==◌, ltb, if◌then◌else◌, Bool-cases, set_has, set_insert, set_remove, tally,
  tally-set_has, tally-set_remove, set_remove_absent, arith,
}
use pplx_garden_cxi.Api.{Result, ok, err, panicked, for_each}
use pplx_garden_cxi.Memory.{update}
use pplx_garden_cxi.Worker.{CompletionQueue}
use pplx_garden_cxi.Worker.Uvm.{
  watch_slot, watch_slots, UvmWatcherContext, new, num_slots, slots_from, acquire, release, freed,
  out_of_bounds, word,
}

-- Each slot of the memory is free or in use, and no other is.
abbrev pub IsValid : UvmWatcherContext → Type 0
IsValid c =
    (slot : ℕ)
    → tally slot c.free_slots + tally slot c.used_slots ≡ (if ltb slot (num_slots c) then 1 else 0)

tally-slots_from :
    (slot k count : ℕ)
    → tally slot (slots_from k count)
      ≡ (if ltb slot k then 0 else (if ltb slot (k + count) then 1 else 0))
unfolding tally slots_from
tally-slots_from slot k zero = ground arith
tally-slots_from slot k (suc count) = ground (arith, tally-slots_from slot (k + 1) count)

new-IsValid : (ptr : ℕ) → IsValid (new ptr)
unfolding new tally
new-IsValid ptr slot = ground (arith, tally-slots_from slot 0 512)

by_free :
    (c : UvmWatcherContext) (free : List ℕ)
    → c.free_slots ≡ free
    → IsValid c
    → IsValid (acquire c).1
unfolding acquire set_insert tally
by_free c [] e valid slot = ground (arith, e, valid slot)
by_free c (s ∷ rest) e valid slot =
    let own = valid s in
    let unused : set_has s c.used_slots ≡ false =
      ground (arith, tally-set_has s c.used_slots, e, own) in
    ground (arith, e, valid slot, unused)

acquire-IsValid : (c : UvmWatcherContext) → IsValid c → IsValid (acquire c).1
acquire-IsValid c valid = by_free c c.free_slots refl valid

freed-IsValid :
    (slot : ℕ) (c : UvmWatcherContext)
    → set_has slot c.used_slots ≡ true
    → IsValid c
    → IsValid (freed slot c)
unfolding tally
freed-IsValid s c used valid slot = ground (
  arith,
  valid slot,
  valid s,
  tally-set_remove s slot c.used_slots,
  tally-set_has s c.used_slots,
  used,
)

release-IsValid : (id : ℕ) (c : UvmWatcherContext) → IsValid c → IsValid (release id c).1
unfolding release
release-IsValid id c valid = elim (Bool-cases (out_of_bounds id c)) [
  | inl out ↦ let same : (release id c).1 ≡ c = outside out in rw same valid
  | inr within ↦ elim (Bool-cases (set_has ((id - c.ptr) / word) c.used_slots)) [
    | inl used ↦
        let path = inside within used in rw path (freed-IsValid ((id - c.ptr) / word) c used valid)
    | inr unused ↦ let same : (release id c).1 ≡ c = ignored within unused in rw same valid
  ]
]
  where
    outside : out_of_bounds id c ≡ true → (release id c).1 ≡ c
    outside out = ground (arith, out)

    inside :
        out_of_bounds id c ≡ false
        → set_has ((id - c.ptr) / word) c.used_slots ≡ true
        → (release id c).1 ≡ freed ((id - c.ptr) / word) c
    inside within used = ground (arith, within, used)

    ignored :
        out_of_bounds id c ≡ false
        → set_has ((id - c.ptr) / word) c.used_slots ≡ false
        → (release id c).1 ≡ c
    ignored within unused = ground (arith, within, unused)

-- What watching changes of a context.
abbrev pub Watched : UvmWatcherContext → UvmWatcherContext → Type 0
Watched c c' = (values : ℕ → ℕ) × (c' ≡ record c { last_values = values })

watch_slot-Watched :
    (slot : ℕ) (c : UvmWatcherContext) (q : CompletionQueue)
    → Watched c (watch_slot slot (c, q)).1.0
unfolding watch_slot
watch_slot-Watched slot c q = elim (Bool-cases (c.uvm_memory slot == c.last_values slot)) [
  | inl same ↦ (c.last_values, ground (arith, same))
  | inr other ↦ (update c.last_values slot (c.uvm_memory slot), ground (arith, other))
]

by_first :
    (slot : ℕ) (slots : List ℕ) (c : UvmWatcherContext) (q : CompletionQueue)
    (r : Result (Unit {0}))
    → (watch_slot slot (c, q)).0 ≡ r
    → Watched (watch_slot slot (c, q)).1.0 (watch_slots slots (watch_slot slot (c, q)).1).1.0
    → Watched c (watch_slots (slot ∷ slots) (c, q)).1.0
unfolding watch_slots for_each
by_first slot slots c q (ok tt) e (values, rest) =
    let (before, first) = watch_slot-Watched slot c q in
    let changed : UvmWatcherContext → UvmWatcherContext = λ x. record x { last_values = values } in
    (values, ground (arith, e) ∙ rest ∙ ap changed first)
by_first slot slots c q (err x) e rest =
    let (before, first) = watch_slot-Watched slot c q in (before, ground (arith, e) ∙ first)
by_first slot slots c q panicked e rest =
    let (before, first) = watch_slot-Watched slot c q in (before, ground (arith, e) ∙ first)

watch_slots-Watched :
    (slots : List ℕ) (c : UvmWatcherContext) (q : CompletionQueue)
    → Watched c (watch_slots slots (c, q)).1.0
unfolding watch_slots for_each
watch_slots-Watched [] c q = (c.last_values, refl)
watch_slots-Watched (slot ∷ slots) c q =
    let next = (watch_slot slot (c, q)).1 in
    by_first slot slots c q (watch_slot slot (c, q)).0 refl
      (watch_slots-Watched slots next.0 next.1)

-- The contexts that calls, steps of the thread and writes of the GPU bring about.
pub data Reached : UvmWatcherContext → Type 0 where
  made : (ptr : ℕ) → Reached (new ptr)
  acquired : (c : UvmWatcherContext) → Reached c → Reached (acquire c).1
  released : (id : ℕ) (c : UvmWatcherContext) → Reached c → Reached (release id c).1
  watched :
      (slots : List ℕ) (q : CompletionQueue) (c : UvmWatcherContext)
      → Reached c
      → Reached (watch_slots slots (c, q)).1.0
  written :
      (memory : ℕ → ℕ) (c : UvmWatcherContext)
      → Reached c
      → Reached (record c { uvm_memory = memory })

Reached-IsValid : (c : UvmWatcherContext) → Reached c → IsValid c
Reached-IsValid _ (made ptr) = new-IsValid ptr
Reached-IsValid _ (acquired c r) = acquire-IsValid c (Reached-IsValid c r)
Reached-IsValid _ (released id c r) = release-IsValid id c (Reached-IsValid c r)
Reached-IsValid _ (watched slots q c r) =
    let (values, same) = watch_slots-Watched slots c q in
    let valid : IsValid (record c { last_values = values }) = Reached-IsValid c r in rw same valid
Reached-IsValid _ (written memory c r) = Reached-IsValid c r

module _ (c : UvmWatcherContext) where
  abbrev pub IsFull : Type 0
  IsFull =
      ((acquire c).0 ≡ none) × ((slot : ℕ) → slot < num_slots c → set_has slot c.used_slots ≡ true)

  -- a slot that is new, and can be given back
  pub record Gives : Type 0 where
    pub slot : ℕ
    pub id : (acquire c).0 ≡ some (c.ptr + slot * word)
    pub inside : slot < num_slots c
    pub unused : set_has slot c.used_slots ≡ false
    pub used_now : (acquire c).1.used_slots ≡ slot ∷ c.used_slots
    pub released : (release (c.ptr + slot * word) (acquire c).1).0 ≡ ok tt
    pub used_again : (release (c.ptr + slot * word) (acquire c).1).1.used_slots ≡ c.used_slots
    pub free_again : (release (c.ptr + slot * word) (acquire c).1).1.free_slots ≡ c.free_slots

  full_lem : IsValid c → c.free_slots ≡ [] → IsFull
  unfolding acquire tally
  full_lem valid e =
      (ground (arith, e), λ slot h. ground (arith, valid slot, e, tally-set_has slot c.used_slots))

  gives_lem : (s : ℕ) (rest : List ℕ) → IsValid c → c.free_slots ≡ s ∷ rest → Gives
  unfolding acquire release set_insert set_has set_remove tally
  gives_lem s rest valid e =
      let own : 1 + tally s rest + tally s c.used_slots ≡ (if ltb s (num_slots c) then 1 else 0) =
        ground (arith, valid s, e) in
      let unused : set_has s c.used_slots ≡ false =
        ground (arith, tally-set_has s c.used_slots, own) in
      let low : s < num_slots c = ground (arith, own) in
      let there : (c.ptr + s * word - c.ptr) / word ≡ s = omega arith in
      let bounds : c.ptr + s * word < c.ptr + c.size = omega arith in
      let within : out_of_bounds (c.ptr + s * word) c ≡ false = ground arith in
      let absent = set_remove_absent s c.used_slots unused in
      record {
        slot = s;
        id = ground (arith, e);
        inside = low;
        unused = unused;
        used_now = ground (arith, e, unused);
        released = ground (arith, e, unused, there, within);
        used_again = ground (arith, e, unused, there, within, absent);
        free_again = ground (arith, e, unused, there, within);
      }

by_slots :
    (c : UvmWatcherContext) (free : List ℕ) → c.free_slots ≡ free → IsValid c → IsFull c ⊎ Gives c
by_slots c [] e valid = inl (full_lem c valid e)
by_slots c (s ∷ rest) e valid = inr (gives_lem c s rest valid e)

-- However the calls, the thread and the GPU have used the context: each slot of the memory stands
-- once in the free or in the used slots, and no other number does. To acquire a watcher gives
-- none exactly when every slot is in use; otherwise it gives the address of a slot inside the
-- memory that was not in use, and to release that address puts both sets back as they were.
pub reached_lem : (c : UvmWatcherContext) → Reached c → IsValid c × (IsFull c ⊎ Gives c)
reached_lem c r = let valid = Reached-IsValid c r in (valid, by_slots c c.free_slots refl valid)

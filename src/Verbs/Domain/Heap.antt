-- ===== src/Verbs/Domain/Heap.antt =====
-- The objects of fabric-lib/src/verbs/verbs_domain.rs that live in an object pool and are named by
-- their address: a work request carries that address through the NIC and back.
use pplx_garden_cxi.Common.{
  ℕ, Option, none, some, Map, lookup, insert, erase, lookup-insert, insert-insert, erase-insert,
  insert_known, ◌≡◌, ap, ◌∙◌, arith,
}
use pplx_garden_cxi.Pool.{ObjectPool, Slot, alloc_uninit, free_no_drop}

-- `objects` has the initialised objects by address, each with its slot.
pub record Heap {ℓ} (A : Type ℓ) : Type ℓ where
  pub pool : ObjectPool
  pub objects : Map (Slot × A)

module _ {ℓ} {A : Type ℓ} where
  unfoldable pub alloc : Heap A → Slot × Heap A
  alloc h = let (slot, pool) = alloc_uninit h.pool in (slot, record h { pool = pool })

  -- a write through the address of a slot
  unfoldable pub write : ℕ → Slot → A → Heap A → Heap A
  write ptr slot a h = record h { objects = insert ptr (slot, a) h.objects }

  abbrev value_of : Option (Slot × A) → Option A
  value_of none = none
  value_of (some cell) = some cell.1

  -- `none` is an address of no initialised object.
  unfoldable pub read : ℕ → Heap A → Option A
  read ptr h = value_of (lookup ptr h.objects)

  unfoldable pub modify_at : ℕ → (A → A) → Heap A → Heap A
  modify_at ptr f h = elim (lookup ptr h.objects) [
    | none ↦ h
    | some cell ↦ record h { objects = insert ptr (cell.0, f cell.1) h.objects }
  ]

  -- `free_and_drop`
  unfoldable pub free : ℕ → Heap A → Heap A
  free ptr h = elim (lookup ptr h.objects) [
    | none ↦ h
    | some cell ↦ record h { pool = free_no_drop cell.0 h.pool; objects = erase ptr h.objects }
  ]

  pub modify_at-known :
      (ptr : ℕ) (f : A → A) (h : Heap A) (slot : Slot) (a : A)
      → lookup ptr h.objects ≡ some (slot, a)
      → modify_at ptr f h ≡ record h { objects = insert ptr (slot, f a) h.objects }
  unfolding modify_at
  modify_at-known ptr f h slot a e = ground (arith, e)

  pub lookup-modify_at :
      (ptr : ℕ) (f : A → A) (h : Heap A) (slot : Slot) (a : A)
      → lookup ptr h.objects ≡ some (slot, a)
      → lookup ptr (modify_at ptr f h).objects ≡ some (slot, f a)
  lookup-modify_at ptr f h slot a e =
      ap (λ x. lookup ptr x.objects) (modify_at-known ptr f h slot a e)
      ∙ lookup-insert ptr ptr (slot, f a) h.objects
      ∙ ground arith

  -- Two changes to one object are one change, and a change is gone with the object.
  pub modify_at-modify_at :
      (ptr : ℕ) (f g : A → A) (h : Heap A) (slot : Slot) (a : A)
      → lookup ptr h.objects ≡ some (slot, a)
      → modify_at ptr g (modify_at ptr f h) ≡ modify_at ptr (λ x. g (f x)) h
  modify_at-modify_at ptr f g h slot a e =
      modify_at-known ptr g (modify_at ptr f h) slot (f a) (lookup-modify_at ptr f h slot a e)
      ∙ rw (modify_at-known ptr f h slot a e, modify_at-known ptr (λ x. g (f x)) h slot a e)
          (ap (λ m. record h { objects = m })
            (insert-insert ptr (slot, g (f a)) (slot, f a) h.objects))

  pub modify_at-same :
      (ptr : ℕ) (h : Heap A) (slot : Slot) (a : A)
      → lookup ptr h.objects ≡ some (slot, a)
      → modify_at ptr (λ x. x) h ≡ h
  modify_at-same ptr h slot a e =
      modify_at-known ptr (λ x. x) h slot a e
      ∙ ap (λ m. record h { objects = m }) (insert_known ptr (slot, a) h.objects e)

  pub free-known :
      (ptr : ℕ) (h : Heap A) (slot : Slot) (a : A)
      → lookup ptr h.objects ≡ some (slot, a)
      → free ptr h ≡ record { pool = free_no_drop slot h.pool; objects = erase ptr h.objects }
  unfolding free
  free-known ptr h slot a e = ground (arith, e)

  pub free-modify_at :
      (ptr : ℕ) (f : A → A) (h : Heap A) (slot : Slot) (a : A)
      → lookup ptr h.objects ≡ some (slot, a)
      → free ptr (modify_at ptr f h) ≡ free ptr h
  free-modify_at ptr f h slot a e =
      free-known ptr (modify_at ptr f h) slot (f a) (lookup-modify_at ptr f h slot a e)
      ∙ rw (modify_at-known ptr f h slot a e, free-known ptr h slot a e)
          (ap (λ m. record { pool = free_no_drop slot h.pool; objects = m })
            (erase-insert ptr (slot, f a) h.objects))

  pub read-known :
      (ptr : ℕ) (h : Heap A) (slot : Slot) (a : A)
      → lookup ptr h.objects ≡ some (slot, a)
      → read ptr h ≡ some a
  unfolding read
  read-known ptr h slot a e = ground (arith, e)

-- ===== src/Group/Imm/Plan.antt =====
-- Which domain sends which immediate, and where to.
use native.Mathlib.Decide.{dec_lt}
use native.Mathlib.Nat.{div-eq_of_lt-le, mod-lt, mul-le-mul_right}
use pplx_garden_cxi.Common.{
  ℕ, zero, suc, ◌+◌, ◌-◌, ◌*◌, ◌/◌, ◌%◌, ◌≤◌, ◌<◌, ◌≡◌, refl, sym, ◌∙◌, ap, none, some, List, [],
  ◌∷◌, ◌++◌, arith, length, take, drop, get_elem?, get_elem?-some, All, length-take, length-drop,
  take-append-drop, All-take, All-drop, drop-short,
}
use pplx_garden_cxi.Api.{ok, MemoryRegionDescriptor, DomainAddress, imm_write}
use pplx_garden_cxi.Provider.{RdmaDomain}
use pplx_garden_cxi.Group.{DomainGroup, for_each}
use pplx_garden_cxi.Group.Posting.{
  Posting, post, post_all, post_all-append, length-post, length-post_all,
}
use pplx_garden_cxi.Group.Run.{bind-ok, for_each-cons}
use pplx_garden_cxi.Group.Imm.{chunks_fuel, send_imm, send_chunks}

-- the address and key that a target has for domain `j`
abbrev pub target_of : MemoryRegionDescriptor → ℕ → DomainAddress × ℕ
target_of mr j = elim (get_elem? mr.addr_rkey_list j) [ none ↦ ([], 0) | some t ↦ t ]

abbrev pub imm_posting : (imm d : ℕ) → MemoryRegionDescriptor → DomainAddress × ℕ → Posting
imm_posting imm d mr target =
    (d, target.0, imm_write (record { imm_data = imm; dst_ptr = mr.ptr; dst_rkey = target.1 }))

-- The targets from position `k` on: the one at position `k` is in chunk `k / per`; it goes by the
-- domain that many places after `first`, to the address of that number.
unfoldable pub imm_plan : (imm n first per k : ℕ) → List MemoryRegionDescriptor → List Posting
imm_plan imm n first per k [] = []
imm_plan imm n first per k (mr ∷ mrs) =
    imm_posting imm ((first + k / per) % n) mr (target_of mr (k / per))
    ∷ imm_plan imm n first per (k + 1) mrs

-- every target has an address for each domain
abbrev pub Addressed : ℕ → List MemoryRegionDescriptor → Type 0
Addressed n = All (λ mr. length mr.addr_rkey_list ≡ n)

imm_plan-append :
    (imm n first per k : ℕ) (xs ys : List MemoryRegionDescriptor)
    → imm_plan imm n first per k (xs ++ ys)
      ≡ imm_plan imm n first per k xs ++ imm_plan imm n first per (k + length xs) ys
unfolding imm_plan
imm_plan-append imm n first per k [] ys = ap (λ j. imm_plan imm n first per j ys) (omega arith)
imm_plan-append imm n first per k (x ∷ xs) ys =
    let p = imm_posting imm ((first + k / per) % n) x (target_of x (k / per)) in
    ap (λ ps. p ∷ ps)
      (imm_plan-append imm n first per (k + 1) xs ys
        ∙ ap (λ j. imm_plan imm n first per (k + 1) xs ++ imm_plan imm n first per j ys)
            (omega arith))

div_at : (i per k : ℕ) → i * per ≤ k → k < i * per + per → k / per ≡ i
div_at i per k lo hi = div-eq_of_lt-le per (omega arith) (omega arith)

module _ {D : Type 0} (R : RdmaDomain D) (id imm n : ℕ) where
  abbrev posted : List Posting → DomainGroup D → DomainGroup D
  posted ps g = record g { domains = post_all R id ps g.domains }

  send_imm-lem :
      (i d : ℕ) (mr : MemoryRegionDescriptor) (g : DomainGroup D)
      → d < length g.domains
      → i < length mr.addr_rkey_list
      → send_imm R id imm i d mr g ≡ (
        ok tt,
        record g { domains = post R id (imm_posting imm d mr (target_of mr i)) g.domains },
      )
  send_imm-lem i d mr g lt in' =
      let (dom, ed) = get_elem?-some g.domains d lt in
      let (t, et) = get_elem?-some mr.addr_rkey_list i in' in ground (arith, et, ed)

  send_chunk-lem :
      (chunk : List MemoryRegionDescriptor) (first per i k : ℕ) (g : DomainGroup D)
      → length g.domains ≡ n
      → Addressed n chunk
      → i < n
      → i * per ≤ k
      → k + length chunk ≤ i * per + per
      → for_each chunk (send_imm R id imm i ((first + i) % n)) g
        ≡ (ok tt, posted (imm_plan imm n first per k chunk) g)
  unfolding for_each imm_plan post_all
  send_chunk-lem [] first per i k g len ad lt lo hi = refl
  send_chunk-lem (mr ∷ chunk) first per i k g len ad lt lo hi =
      let d = (first + i) % n in
      let at = div_at i per k lo (omega arith) in
      let p = imm_posting imm d mr (target_of mr i) in
      let g' = record g { domains = post R id p g.domains } in
      let step =
        send_imm-lem i d mr g (omega (arith, mod-lt (first + i) {m = n} (omega arith)))
          (omega (arith, ad.0)) in
      let len' = length-post R id p g.domains ∙ len in
      let ih =
        send_chunk-lem chunk first per i (k + 1) g' len' ad.1 lt (omega arith) (omega arith) in
      rw at (for_each-cons mr chunk (send_imm R id imm i d) g g' step ∙ ih)

  posted-append :
      (ps qs : List Posting) (g : DomainGroup D) → posted qs (posted ps g) ≡ posted (ps ++ qs) g
  posted-append ps qs g =
      ap (λ ds. record g { domains = ds }) (sym (post_all-append R id ps qs g.domains))

  -- the position after a chunk, where there is another
  next_position :
      (first per i : ℕ) (r : List MemoryRegionDescriptor)
      → imm_plan imm n first per ((i + 1) * per) (drop per r)
        ≡ imm_plan imm n first per (i * per + length (take per r)) (drop per r)
  next_position first per i r = elim (dec_lt per (length r)) [
    | yes more ↦
        ap (λ k. imm_plan imm n first per k (drop per r)) (omega (arith, length-take per r))
    | no last ↦ rw (drop-short per r (omega arith)) (unfold imm_plan in refl)
  ]

  chunk_in_range : (i per len : ℕ) → 0 < len → i * per + len ≤ n * per → i < n
  chunk_in_range i per len pos fits = grind arith

  next_fits :
      (i per len : ℕ) → 0 < len → i * per + len ≤ n * per → (i + 1) * per + (len - per) ≤ n * per
  next_fits i per len pos fits =
      let below : i + 1 ≤ n = omega (arith, chunk_in_range i per len pos fits) in
      let scaled : (i + 1) * per ≤ n * per = mul-le-mul_right per below in omega arith

  pub send_chunks-lem :
      (f first per i : ℕ) (r : List MemoryRegionDescriptor) (g : DomainGroup D)
      → length g.domains ≡ n
      → Addressed n r
      → 0 < per
      → length r ≤ f
      → i * per + length r ≤ n * per
      → send_chunks R id imm first i (chunks_fuel f per r) g
        ≡ (ok tt, posted (imm_plan imm n first per (i * per) r) g)
  unfolding send_chunks chunks_fuel
  send_chunks-lem zero first per i [] g len ad pos short fits = unfold imm_plan post_all in refl
  send_chunks-lem zero first per i (x ∷ r) g len ad pos short fits = absurd (omega arith)
  send_chunks-lem (suc f) first per i [] g len ad pos short fits = unfold imm_plan post_all in refl
  send_chunks-lem (suc f) first per i (x ∷ xs) g len ad pos short fits =
      let r = x ∷ xs in
      let ps = imm_plan imm n first per (i * per) (take per r) in
      let g' = posted ps g in
      let rest = chunks_fuel f per (drop per r) in
      let step =
        send_chunk-lem (take per r) first per i (i * per) g len (All-take _ per r ad)
          (chunk_in_range i per (length r) (omega arith) fits) (omega arith)
          (omega (arith, length-take per r)) in
      let ih =
        send_chunks-lem f first per (i + 1) (drop per r) g'
          (length-post_all R id ps g.domains ∙ len) (All-drop _ per r ad) pos
          (omega (arith, length-drop per r))
          (omega (arith, length-drop per r, next_fits i per (length r) (omega arith) fits)) in
      let whole = imm_plan-append imm n first per (i * per) (take per r) (drop per r) in
      let split = ap (λ l. imm_plan imm n first per (i * per) l) (take-append-drop per r) in
      rw len (
        bind-ok (for_each (take per r) (send_imm R id imm i ((first + i) % n)))
          (λ _. send_chunks R id imm first (i + 1) rest) g g' tt step)
      ∙ ih
      ∙ ap (λ h. (ok tt, h))
          (ap (λ qs. posted qs g') (next_position first per i r)
            ∙ posted-append ps
                (imm_plan imm n first per (i * per + length (take per r)) (drop per r)) g
            ∙ ap (λ qs. posted qs g) (sym whole ∙ split))

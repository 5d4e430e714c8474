-- ===== src/Group/Paged/Placement.antt =====
-- Which domain takes which range of the pages.
use native.Mathlib.Nat.{mod-lt, mod-add-mod}
use pplx_garden_cxi.Common.{
  ℕ, zero, suc, ◌+◌, ◌%◌, ◌<◌, ◌≡◌, refl, ◌∙◌, ap, none, some, List, [], ◌∷◌, arith, length,
  get_elem?, get_elem?-some, set,
}
use pplx_garden_cxi.Api.{ok, DomainAddress, PagedTransferRequest, WriteOp}
use pplx_garden_cxi.Provider.{RdmaDomain}
use pplx_garden_cxi.Group.{DomainGroup, for_each}
use pplx_garden_cxi.Group.Run.{for_each-cons}
use pplx_garden_cxi.Group.Posting.{Posting, post, post_all, post-at, length-post}
use pplx_garden_cxi.Group.Paged.{paged_op, send_pages}

module _ {D : Type 0} (R : RdmaDomain D) (ptr : ℕ) where
  -- `keys` are the local descriptors of the domains for the region at `ptr`.
  abbrev pub HasKeys : List ℕ → List D → Type 0
  HasKeys [] [] = Unit
  HasKeys (key ∷ keys) (d ∷ ds) = (R.get_mem_desc d ptr ≡ ok key) × HasKeys keys ds
  HasKeys _ _ = ⊥

  -- A domain keeps its registered regions when it takes a write.
  abbrev pub KeepsKeys : Type 0
  KeepsKeys =
      (id : ℕ) (addr : DomainAddress) (op : WriteOp) (d : D)
      → R.get_mem_desc (R.submit_write id addr op d) ptr ≡ R.get_mem_desc d ptr

  has_key :
      (keys : List ℕ) (ds : List D) (i : ℕ) (d : D)
      → HasKeys keys ds
      → get_elem? ds i ≡ some d
      → (key : ℕ) × (get_elem? keys i ≡ some key) × (R.get_mem_desc d ptr ≡ ok key)
  has_key [] [] i d h e = absurd (cc e)
  has_key [] (x ∷ ds) i d h e = absurd h
  has_key (k ∷ keys) [] i d h e = absurd h
  has_key (k ∷ keys) (x ∷ ds) zero d h e = (k, refl, moved x d k e h.0)
    where
      moved :
          (x d : D) (k : ℕ)
          → some x ≡ some d
          → R.get_mem_desc x ptr ≡ ok k
          → R.get_mem_desc d ptr ≡ ok k
      moved x d k e h = cc
  has_key (k ∷ keys) (x ∷ ds) (suc i) d h e = has_key keys ds i d h.1 e

  HasKeys-set :
      (keys : List ℕ) (ds : List D) (i : ℕ) (d d' : D)
      → HasKeys keys ds
      → get_elem? ds i ≡ some d
      → R.get_mem_desc d' ptr ≡ R.get_mem_desc d ptr
      → HasKeys keys (set ds i d')
  HasKeys-set [] [] i d d' h e same = tt
  HasKeys-set [] (x ∷ ds) i d d' h e same = absurd h
  HasKeys-set (k ∷ keys) [] i d d' h e same = absurd h
  HasKeys-set (k ∷ keys) (x ∷ ds) zero d d' h e same = (moved e h.0, h.1)
    where
      moved : some x ≡ some d → R.get_mem_desc x ptr ≡ ok k → R.get_mem_desc d' ptr ≡ ok k
      moved q own = cc (same, q, own)
  HasKeys-set (k ∷ keys) (x ∷ ds) (suc i) d d' h e same =
      (h.0, HasKeys-set keys ds i d d' h.1 e same)

module _ {D : Type 0} (R : RdmaDomain D) (id : ℕ) (req : PagedTransferRequest) where
  abbrev pub key_at : List ℕ → ℕ → ℕ
  key_at keys i = elim (get_elem? keys i) [ none ↦ 0 | some k ↦ k ]

  abbrev pub target_at : ℕ → DomainAddress × ℕ
  target_at i = elim (get_elem? req.dst_mr.addr_rkey_list i) [ none ↦ ([], 0) | some t ↦ t ]

  -- the write of a range by domain `i`
  abbrev pub page_posting : List ℕ → ℕ → ℕ × ℕ → Posting
  page_posting keys i range =
      (i, (target_at i).0, paged_op req (key_at keys i) (target_at i).1 range.0 range.1)

  -- The ranges in order, the `j`-th by the domain `j` places after `rr`.
  unfoldable pub page_plan : List ℕ → (n rr j : ℕ) → List (ℕ × ℕ) → List Posting
  page_plan keys n rr j [] = []
  page_plan keys n rr j (range ∷ ranges) =
      page_posting keys ((rr + j) % n) range ∷ page_plan keys n rr (j + 1) ranges

  send_pages-lem :
      (keys : List ℕ) (range : ℕ × ℕ) (i n : ℕ) (g : DomainGroup D)
      → g.rr_next ≡ i
      → length g.domains ≡ n
      → i < n
      → length req.dst_mr.addr_rkey_list ≡ n
      → HasKeys R req.src_mr keys g.domains
      → send_pages R id req range g ≡ (
        ok tt,
        record g {
          domains = post R id (page_posting keys i range) g.domains;
          rr_next = (i + 1) % n;
        },
      )
  unfolding send_pages
  send_pages-lem keys range i n g at len lt addr has =
      let (t, et) = get_elem?-some req.dst_mr.addr_rkey_list i (omega arith) in
      let (d, ed) = get_elem?-some g.domains i (omega arith) in
      let (key, ek, desc) = has_key R req.src_mr keys g.domains i d has ed in
      ground (arith, et, ed, ek, desc)

  post-HasKeys :
      (keys : List ℕ) (range : ℕ × ℕ) (i : ℕ) (ds : List D)
      → KeepsKeys R req.src_mr
      → i < length ds
      → HasKeys R req.src_mr keys ds
      → HasKeys R req.src_mr keys (post R id (page_posting keys i range) ds)
  post-HasKeys keys range i ds keeps lt has =
      let (d, ed) = get_elem?-some ds i lt in
      let (at, addr, op) = page_posting keys i range in
      rw (post-at R id i addr op ds d ed) (
        HasKeys-set R req.src_mr keys ds i d (R.submit_write id addr op d) has ed
          (keeps id addr op d))

  -- The loop over the ranges, from the `j`-th on.
  pub send_all :
      (keys : List ℕ) (n rr j : ℕ) (ranges : List (ℕ × ℕ)) (g : DomainGroup D)
      → KeepsKeys R req.src_mr
      → 0 < n
      → length g.domains ≡ n
      → length req.dst_mr.addr_rkey_list ≡ n
      → HasKeys R req.src_mr keys g.domains
      → g.rr_next ≡ (rr + j) % n
      → for_each ranges (send_pages R id req) g ≡ (
        ok tt,
        record g {
          domains = post_all R id (page_plan keys n rr j ranges) g.domains;
          rr_next = (rr + (j + length ranges)) % n;
        },
      )
  unfolding for_each page_plan post_all
  send_all keys n rr j [] g keeps pos len addr has at =
      ap (λ r. (ok tt, record g { rr_next = r })) (at ∙ ap (λ t. (rr + t) % n) (omega arith))
  send_all keys n rr j (range ∷ ranges) g keeps pos len addr has at =
      let i = (rr + j) % n in
      let p = page_posting keys i range in
      let g' = record g { domains = post R id p g.domains; rr_next = (i + 1) % n } in
      let lt : i < n = mod-lt (rr + j) pos in
      let step = send_pages-lem keys range i n g at len lt addr has in
      let next : (i + 1) % n ≡ (rr + (j + 1)) % n =
        mod-add-mod (rr + j) n 1 ∙ ap (λ t. t % n) (omega arith) in
      let ih =
        send_all keys n rr (j + 1) ranges g' keeps pos (length-post R id p g.domains ∙ len) addr
          (post-HasKeys keys range i g.domains keeps (omega arith) has) next in
      let total : j + 1 + length ranges ≡ j + suc (length ranges) = omega arith in
      for_each-cons range ranges (send_pages R id req) g g' step
      ∙ ih
      ∙ ap
          (λ t. (
            ok tt,
            record g {
              domains = post_all R id (page_plan keys n rr (j + 1) ranges) (post R id p g.domains);
              rr_next = (rr + t) % n;
            },
          ))
          total

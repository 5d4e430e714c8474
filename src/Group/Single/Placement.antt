-- ===== src/Group/Single/Placement.antt =====
-- Which domain a shard is made for, and which domain it is handed to.
use native.Mathlib.Nat.{mod-lt, mod-add-mod}
use pplx_garden_cxi.Common.{
  ℕ, zero, suc, ◌+◌, ◌%◌, ◌<◌, ◌≡◌, refl, ◌∙◌, ap, none, some, List, [], ◌∷◌, arith, length,
  get_elem?, get_elem?-some, All,
}
use pplx_garden_cxi.Api.{
  ok, err, panicked, Action, ◌>>=◌, pure, DomainAddress, DomainGroupRouting, round_robin_sharded,
  pinned, SingleTransferRequest, WriteOp,
}
use pplx_garden_cxi.Provider.{RdmaDomain}
use pplx_garden_cxi.Group.{DomainGroup}
use pplx_garden_cxi.Group.Run.{bind-ok}
use pplx_garden_cxi.Group.Single.{pick, shard_op, build_op, build_ops}

module _ {D : Type 0} (R : RdmaDomain D) where
  -- every domain has registered the source region
  abbrev pub Registered : ℕ → List D → Type 0
  Registered ptr = All (λ d. (desc : ℕ) × (R.get_mem_desc d ptr ≡ ok desc))

  pub Registered-at :
      (ptr : ℕ) (ds : List D) (i : ℕ) (d : D)
      → Registered ptr ds
      → get_elem? ds i ≡ some d
      → (desc : ℕ) × (R.get_mem_desc d ptr ≡ ok desc)
  Registered-at ptr [] i d h e = absurd (cc e)
  Registered-at ptr (x ∷ ds) zero d h e = rw (← some_eq x d e) h.0
    where
      some_eq : (x d : D) → some x ≡ some d → x ≡ d
      some_eq x d e = cc
  Registered-at ptr (x ∷ ds) (suc i) d h e = Registered-at ptr ds i d h.1 e

pick-round_robin :
    {D : Type 0} (routing : DomainGroupRouting) (k i n : ℕ) (g : DomainGroup D)
    → routing ≡ round_robin_sharded k
    → length g.domains ≡ n
    → 0 < n
    → g.rr_next ≡ i
    → pick routing g ≡ (ok i, record g { rr_next = (g.rr_next + 1) % n })
unfolding pick
pick-round_robin routing k i n g e len pos at = ground arith

pub pick-pinned :
    {D : Type 0} (routing : DomainGroupRouting) (idx : ℕ) (g : DomainGroup D)
    → routing ≡ pinned idx
    → pick routing g ≡ (ok idx, g)
unfolding pick
pick-pinned routing idx g e = ground arith

module _ {D : Type 0} (R : RdmaDomain D) (req : SingleTransferRequest) where
  -- the descriptor of the source region on domain `i`
  abbrev pub desc_of : List D → ℕ → ℕ
  desc_of ds i = elim (get_elem? ds i) [
    | none ↦ 0
    | some d ↦ elim (R.get_mem_desc d req.src_mr) [ ok desc ↦ desc | err e ↦ 0 | panicked ↦ 0 ]
  ]

  abbrev pub target_at : ℕ → DomainAddress × ℕ
  target_at i = elim (get_elem? req.dst_mr.addr_rkey_list i) [ none ↦ ([], 0) | some t ↦ t ]

  -- the write of a range made for domain `i`: its local descriptor, its remote address and key
  abbrev pub made_for : List D → ℕ → ℕ × ℕ → WriteOp × DomainAddress
  made_for ds i range =
      (shard_op req (desc_of ds i) (target_at i).1 range.0 range.1, (target_at i).0)

  -- The ranges in order, the `j`-th made for domain `at j`.
  unfoldable pub single_plan : List D → (ℕ → ℕ) → ℕ → List (ℕ × ℕ) → List (WriteOp × DomainAddress)
  single_plan ds at j [] = []
  single_plan ds at j (range ∷ ranges) = made_for ds (at j) range ∷ single_plan ds at (j + 1) ranges

  pub length-single_plan :
      (ds : List D) (at : ℕ → ℕ) (j : ℕ) (ranges : List (ℕ × ℕ))
      → length (single_plan ds at j ranges) ≡ length ranges
  unfolding single_plan
  length-single_plan ds at j [] = refl
  length-single_plan ds at j (r ∷ rs) = ap suc (length-single_plan ds at (j + 1) rs)

  -- the domain that the routing picks at `g`, and the group after it
  build_op-lem :
      (range : ℕ × ℕ) (i : ℕ) (g g' : DomainGroup D)
      → pick req.routing g ≡ (ok i, g')
      → g'.domains ≡ g.domains
      → i < length g.domains
      → length req.dst_mr.addr_rkey_list ≡ length g.domains
      → Registered R req.src_mr g.domains
      → build_op R req range g ≡ (ok (made_for g.domains i range), g')
  unfolding build_op
  build_op-lem range i g g' picked same lt len reg =
      let (t, et) = get_elem?-some req.dst_mr.addr_rkey_list i (omega arith) in
      let (d, ed) = get_elem?-some g.domains i lt in
      let (desc, ek) = Registered-at R req.src_mr g.domains i d reg ed in
      ground (arith, picked, same, et, ed, ek)

  build_ops-cons :
      (range : ℕ × ℕ) (ranges : List (ℕ × ℕ)) (op : WriteOp × DomainAddress)
      (ops : List (WriteOp × DomainAddress)) (g g' g'' : DomainGroup D)
      → build_op R req range g ≡ (ok op, g')
      → build_ops R req ranges g' ≡ (ok ops, g'')
      → build_ops R req (range ∷ ranges) g ≡ (ok (op ∷ ops), g'')
  unfolding build_ops
  build_ops-cons range ranges op ops g g' g'' head tail =
      let rest : WriteOp × DomainAddress → Action (DomainGroup D) (List (WriteOp × DomainAddress)) =
        λ o. build_ops R req ranges >>= λ os. pure (o ∷ os) in
      bind-ok (build_op R req range) rest g g' op head
      ∙ bind-ok (build_ops R req ranges) (λ os. pure (op ∷ os)) g' g'' ops tail

  -- In a round-robin request the `j`-th range is made for the domain `j` places on.
  pub build_round_robin :
      (ranges : List (ℕ × ℕ)) (k rr j n : ℕ) (g : DomainGroup D)
      → req.routing ≡ round_robin_sharded k
      → 0 < n
      → length g.domains ≡ n
      → length req.dst_mr.addr_rkey_list ≡ length g.domains
      → Registered R req.src_mr g.domains
      → g.rr_next ≡ (rr + j) % n
      → build_ops R req ranges g ≡ (
        ok (single_plan g.domains (λ i. (rr + i) % n) j ranges),
        record g { rr_next = (rr + (j + length ranges)) % n },
      )
  unfolding build_ops single_plan
  build_round_robin [] k rr j n g routing pos len addr reg at =
      ap (λ r. (ok [], record g { rr_next = r })) (at ∙ ap (λ t. (rr + t) % n) (omega arith))
  build_round_robin (range ∷ ranges) k rr j n g routing pos len addr reg at =
      let g' = record g { rr_next = (g.rr_next + 1) % n } in
      let picked : pick req.routing g ≡ (ok ((rr + j) % n), g') =
        pick-round_robin req.routing k ((rr + j) % n) n g routing len pos at in
      let next : (g.rr_next + 1) % n ≡ (rr + (j + 1)) % n =
        rw at (mod-add-mod (rr + j) n 1 ∙ ap (λ t. t % n) (omega arith)) in
      let tail = build_round_robin ranges k rr (j + 1) n g' routing pos len addr reg next in
      let head =
        build_op-lem range ((rr + j) % n) g g' picked refl (omega (arith, mod-lt (rr + j) pos)) addr
          reg in
      build_ops-cons range ranges (made_for g.domains ((rr + j) % n) range)
        (single_plan g.domains (λ i. (rr + i) % n) (j + 1) ranges) g g'
        (record g { rr_next = (rr + (j + 1 + length ranges)) % n }) head tail
      ∙ ap
          (λ t. (
            ok (single_plan g.domains (λ i. (rr + i) % n) j (range ∷ ranges)),
            record g { rr_next = (rr + t) % n },
          ))
          (omega arith)

  -- In a pinned request every range is made for the one domain.
  pub build_pinned :
      (ranges : List (ℕ × ℕ)) (idx j : ℕ) (g : DomainGroup D)
      → req.routing ≡ pinned idx
      → idx < length g.domains
      → length req.dst_mr.addr_rkey_list ≡ length g.domains
      → Registered R req.src_mr g.domains
      → build_ops R req ranges g ≡ (ok (single_plan g.domains (λ _. idx) j ranges), g)
  unfolding build_ops single_plan
  build_pinned [] idx j g routing lt addr reg = refl
  build_pinned (range ∷ ranges) idx j g routing lt addr reg =
      build_ops-cons range ranges (made_for g.domains idx range)
        (single_plan g.domains (λ _. idx) (j + 1) ranges) g g g
        (build_op-lem range idx g g (pick-pinned req.routing idx g routing) refl lt addr reg)
        (build_pinned ranges idx (j + 1) g routing lt addr reg)

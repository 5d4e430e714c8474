-- ===== src/Group/Scatter/Cover.antt =====
-- Which domain writes to which targets of a scatter.
use mathlib.Core.Path.{subst}
use pplx_garden_cxi.Common.{
  ℕ, suc, ◌+◌, ◌%◌, ◌^◌, ◌≤◌, ◌<◌, ◌≡◌, refl, sym, ◌∙◌, ap, none, some, List, [], ◌∷◌, arith,
  length, get_elem?, get_elem?-some, set, length-set, map,
}
use pplx_garden_cxi.Api.{ok, ScatterTransferRequest, ScatterGroupWriteOp}
use pplx_garden_cxi.Provider.{RdmaDomain}
use pplx_garden_cxi.Group.{DomainGroup, for_each, on_domain}
use pplx_garden_cxi.Group.Run.{for_each-cons, on_domain-ok}
use pplx_garden_cxi.Group.Paged.Placement.{HasKeys}
use pplx_garden_cxi.Group.Scatter.{Ops, scatter_op, peer_ops, byte_ops}

module _ {D : Type 0} (R : RdmaDomain D) (req : ScatterTransferRequest) where
  -- Domain `i` and those after it take one range of the targets each, whole.
  unfoldable pub peer_plan : ℕ → List ℕ → List (ℕ × ℕ) → Ops
  peer_plan i (key ∷ keys) ((beg, end) ∷ ranges) =
      (i, scatter_op req i key beg end 1 0) ∷ peer_plan (i + 1) keys ranges
  peer_plan i _ _ = []

  -- Domain `i` and those after it take every target, and one of `n` parts of its bytes each.
  unfoldable pub byte_plan : ℕ → ℕ → List ℕ → Ops
  byte_plan n i [] = []
  byte_plan n i (key ∷ keys) =
      (i, scatter_op req i key 0 (length req.dsts) (n % 2 ^ 32) (i % 2 ^ 32))
      ∷ byte_plan n (i + 1) keys

  pub peer_ops-lem :
      (i : ℕ) (keys : List ℕ) (ds : List D) (ranges : List (ℕ × ℕ)) (g : DomainGroup D)
      → HasKeys R req.src_mr keys ds
      → peer_ops R req i ds ranges g ≡ (ok (peer_plan i keys ranges), g)
  unfolding peer_ops peer_plan
  peer_ops-lem i [] [] ranges g has = refl
  peer_ops-lem i [] (d ∷ ds) ranges g has = absurd has
  peer_ops-lem i (key ∷ keys) [] ranges g has = absurd has
  peer_ops-lem i (key ∷ keys) (d ∷ ds) [] g has = refl
  peer_ops-lem i (key ∷ keys) (d ∷ ds) ((beg, end) ∷ ranges) g has =
      ground (arith, has.0, peer_ops-lem (i + 1) keys ds ranges g has.1)

  pub byte_ops-lem :
      (n i : ℕ) (keys : List ℕ) (ds : List D) (g : DomainGroup D)
      → HasKeys R req.src_mr keys ds
      → byte_ops R req n i ds g ≡ (ok (byte_plan n i keys), g)
  unfolding byte_ops byte_plan
  byte_ops-lem n i [] [] g has = refl
  byte_ops-lem n i [] (d ∷ ds) g has = absurd has
  byte_ops-lem n i (key ∷ keys) [] g has = absurd has
  byte_ops-lem n i (key ∷ keys) (d ∷ ds) g has =
      ground (arith, has.0, byte_ops-lem n (i + 1) keys ds g has.1)

  -- With no more ranges than domains, the operations have exactly the ranges.
  pub ranges-peer_plan :
      (i : ℕ) (keys : List ℕ) (ranges : List (ℕ × ℕ))
      → length ranges ≤ length keys
      → map
          (λ (op : ℕ × ScatterGroupWriteOp). (op.1.dst_beg, op.1.dst_end))
          (peer_plan i keys ranges)
        ≡ ranges
  unfolding peer_plan
  ranges-peer_plan i [] [] h = refl
  ranges-peer_plan i [] (r ∷ ranges) h = absurd (omega arith)
  ranges-peer_plan i (key ∷ keys) [] h = refl
  ranges-peer_plan i (key ∷ keys) ((beg, end) ∷ ranges) h =
      ap (λ rs. (beg, end) ∷ rs) (ranges-peer_plan (i + 1) keys ranges (omega arith))

  pub HasKeys-length :
      (keys : List ℕ) (ds : List D) → HasKeys R req.src_mr keys ds → length ds ≡ length keys
  HasKeys-length [] [] has = refl
  HasKeys-length [] (d ∷ ds) has = absurd has
  HasKeys-length (key ∷ keys) [] has = absurd has
  HasKeys-length (key ∷ keys) (d ∷ ds) has = ap suc (HasKeys-length keys ds has.1)

  -- `Fits i n ops`: the domains of the operations are `i`, `i + 1`, … in order, below `n`.
  abbrev pub Fits : ℕ → ℕ → Ops → Type 0
  Fits i n [] = Unit
  Fits i n (op ∷ ops) = (op.0 ≡ i) × (op.0 < n) × (op.1.domain_idx ≡ i) × Fits (i + 1) n ops

  pub peer_plan-Fits :
      (i n : ℕ) (keys : List ℕ) (ranges : List (ℕ × ℕ))
      → i + length keys ≤ n
      → Fits i n (peer_plan i keys ranges)
  unfolding peer_plan
  peer_plan-Fits i n [] ranges h = tt
  peer_plan-Fits i n (key ∷ keys) [] h = tt
  peer_plan-Fits i n (key ∷ keys) (r ∷ ranges) h =
      (refl, omega arith, refl, peer_plan-Fits (i + 1) n keys ranges (omega arith))

  pub byte_plan-Fits :
      (k i n : ℕ) (keys : List ℕ) → i + length keys ≤ n → Fits i n (byte_plan k i keys)
  unfolding byte_plan
  byte_plan-Fits k i n [] h = tt
  byte_plan-Fits k i n (key ∷ keys) h =
      (refl, omega arith, refl, byte_plan-Fits k (i + 1) n keys (omega arith))

  pub byte_plan-length : (n i : ℕ) (keys : List ℕ) → length (byte_plan n i keys) ≡ length keys
  unfolding byte_plan
  byte_plan-length n i [] = refl
  byte_plan-length n i (key ∷ keys) = ap suc (byte_plan-length n (i + 1) keys)

  -- the writes handed to the domains
  module _ (id : ℕ) where
    unfoldable pub hand_out : Ops → List D → List D
    hand_out [] ds = ds
    hand_out (op ∷ ops) ds = hand_out ops (elim (get_elem? ds op.0) [
      | none ↦ ds
      | some d ↦ set ds op.0 (R.submit_group_write id req.dst_handle op.1 d)
    ])

    pub send_ops :
        (i : ℕ) (ops : Ops) (g : DomainGroup D)
        → Fits i (length g.domains) ops
        → for_each ops (λ op. on_domain op.0 (R.submit_group_write id req.dst_handle op.1)) g
          ≡ (ok tt, record g { domains = hand_out ops g.domains })
    unfolding hand_out for_each
    send_ops i [] g fits = refl
    send_ops i (op ∷ ops) g fits =
        let (d, ed) = get_elem?-some g.domains op.0 fits.1 in
        let f = R.submit_group_write id req.dst_handle op.1 in
        let g' = record g { domains = set g.domains op.0 (f d) } in
        let len = length-set g.domains op.0 (f d) in
        for_each-cons op ops (λ o. on_domain o.0 (R.submit_group_write id req.dst_handle o.1)) g g'
          (on_domain-ok op.0 f g d ed)
        ∙ send_ops (i + 1) ops g' (subst (λ n. Fits (i + 1) n ops) (sym len) fits.3)
        ∙ rw ed refl

-- ===== src/Group/Single/Submit.antt =====
-- `submit_single_transfer_request` as a whole.
use native.Mathlib.Nat.{mod-eq_of_lt}
use pplx_garden_cxi.Common.{
  ℕ, zero, suc, ◌+◌, ◌/◌, ◌%◌, ◌≤◌, ◌<◌, ◌≡◌, refl, sym, ◌∙◌, ap, Option, some, List, [], ◌∷◌,
  arith, length, get_elem?,
}
use pplx_garden_cxi.Shard.{shard_single_transfer, shard_loop, round_up, min_size}
use pplx_garden_cxi.Shard.Bytes.{shard_single_transfer_lem, round_up_bounds}
use pplx_garden_cxi.Api.{
  ok, Result, Action, modify, ◌>>=◌, ◌>>◌, DomainAddress, round_robin_sharded, pinned,
  SingleTransferRequest, TransferCounter, WriteOp,
}
use pplx_garden_cxi.Provider.{RdmaDomain}
use pplx_garden_cxi.Group.{DomainGroup, track, check_addresses}
use pplx_garden_cxi.Group.Run.{bind-ok, check_addresses-ok}
use pplx_garden_cxi.Group.Single.{num_shards, build_ops, submit_zip, submit_single_transfer_request}
use pplx_garden_cxi.Group.Single.Placement.{
  Registered, made_for, single_plan, length-single_plan, build_round_robin, build_pinned,
}

some_eq : (x y : ℕ × ℕ) → some x ≡ some y → x ≡ y
some_eq x y e = cc

one_loop : (base total : ℕ) → total ≤ base → shard_loop 1 base total 0 ≡ (0, total) ∷ []
unfolding shard_loop
one_loop base zero fits = ground arith
one_loop base (suc total) fits = ground arith

-- one shard is the whole transfer
one_shard : (total : ℕ) → shard_single_transfer total 1 ≡ (0, total) ∷ []
unfolding shard_single_transfer
one_shard total =
    one_loop (round_up (total / 1) min_size) total (omega (arith, (round_up_bounds (total / 1)).0))

mod_start : (r n : ℕ) → r < n → r ≡ (r + 0) % n
mod_start r n lt = sym (ap (λ t. t % n) same ∙ mod-eq_of_lt lt)
  where
    same : r + 0 ≡ r
    same = omega arith

module _ {D : Type 0} (R : RdmaDomain D) (id : ℕ) (req : SingleTransferRequest) where
  -- The request, once its shards are built.
  submit_built :
      (k : ℕ) (ops : List (WriteOp × DomainAddress)) (tx : Option TransferCounter)
      (g g' : DomainGroup D)
      → length req.dst_mr.addr_rkey_list ≡ length g.domains
      → num_shards req.routing g ≡ (ok k, g)
      → build_ops R req (shard_single_transfer req.length k) g ≡ (ok ops, g')
      → submit_single_transfer_request R id req tx g
        ≡ (ok tt, record (track id (length ops) tx g') { domains = submit_zip R id g'.domains ops })
  unfolding submit_single_transfer_request
  submit_built k ops tx g g' addr shards built =
      let finish : List (WriteOp × DomainAddress) → Action (DomainGroup D) (Unit {0}) = λ os.
        modify (track id (length os) tx)
        >> modify (λ h. record h { domains = submit_zip R id h.domains os }) in
      let build : ℕ → Action (DomainGroup D) (Unit {0}) =
        λ n. build_ops R req (shard_single_transfer req.length n) >>= finish in
      bind-ok (check_addresses req.dst_mr) (λ _. num_shards req.routing >>= build) g g tt
        (check_addresses-ok req.dst_mr g addr)
      ∙ bind-ok (num_shards req.routing) build g g k shards
      ∙ bind-ok (build_ops R req (shard_single_transfer req.length k)) finish g g' ops built

  shards-round_robin :
      (k : ℕ) (g : DomainGroup D)
      → req.routing ≡ round_robin_sharded k
      → k ≤ length g.domains
      → num_shards req.routing g ≡ (ok k, g)
  unfolding num_shards
  shards-round_robin k g routing fits = ground arith

  shards-pinned :
      (idx : ℕ) (g : DomainGroup D)
      → req.routing ≡ pinned idx
      → idx < length g.domains
      → num_shards req.routing g ≡ (ok 1, g)
  unfolding num_shards
  shards-pinned idx g routing lt = ground arith

  -- Domain `j` takes the `j`-th operation.
  get_elem?-submit_zip :
      (ds : List D) (ops : List (WriteOp × DomainAddress)) (j : ℕ) (d : D)
      (op : WriteOp × DomainAddress)
      → get_elem? ds j ≡ some d
      → get_elem? ops j ≡ some op
      → get_elem? (submit_zip R id ds ops) j ≡ some (R.submit_write id op.1 op.0 d)
  unfolding submit_zip
  get_elem?-submit_zip [] ops j d op ed eo = cc
  get_elem?-submit_zip (x ∷ ds) [] j d op ed eo = cc
  get_elem?-submit_zip (x ∷ ds) (o ∷ ops) zero d op ed eo = ground arith
  get_elem?-submit_zip (x ∷ ds) (o ∷ ops) (suc j) d op ed eo =
      get_elem?-submit_zip ds ops j d op ed eo

  submit_zip-nil : (ds : List D) → submit_zip R id ds [] ≡ ds
  submit_zip-nil [] = unfold submit_zip in refl
  submit_zip-nil (d ∷ ds) = unfold submit_zip in refl

  get_elem?-single_plan :
      (ds : List D) (at : ℕ → ℕ) (j i : ℕ) (ranges : List (ℕ × ℕ)) (range : ℕ × ℕ)
      → get_elem? ranges i ≡ some range
      → get_elem? (single_plan R req ds at j ranges) i ≡ some (made_for R req ds (at (j + i)) range)
  unfolding single_plan
  get_elem?-single_plan ds at j i [] range e = cc
  get_elem?-single_plan ds at j zero (r ∷ ranges) range e =
      let same : j ≡ j + 0 = omega arith in
      ap (λ t. some (made_for R req ds (at t) r)) same
      ∙ ap (λ x. some (made_for R req ds (at (j + 0)) x)) (some_eq r range e)
  get_elem?-single_plan ds at j (suc i) (r ∷ ranges) range e =
      get_elem?-single_plan ds at (j + 1) i ranges range e
      ∙ ap (λ t. some (made_for R req ds (at t) range)) (omega arith)

  -- A round-robin request over `k` of the domains, with an address for each domain and the source
  -- registered on each: it returns no error, tracks `k` completions, and moves the round robin on
  -- by `k`. Its `j`-th shard is made for the domain `j` places after the round robin, with that
  -- domain's local descriptor and remote address, and is handed to domain `j`.
  pub submit_single_round_robin :
      (k j : ℕ) (d : D) (range : ℕ × ℕ) (tx : Option TransferCounter) (g : DomainGroup D)
      → req.routing ≡ round_robin_sharded k
      → k ≤ length g.domains
      → g.rr_next < length g.domains
      → length req.dst_mr.addr_rkey_list ≡ length g.domains
      → Registered R req.src_mr g.domains
      → get_elem? g.domains j ≡ some d
      → get_elem? (shard_single_transfer req.length k) j ≡ some range
      → let n = length g.domains in
        let (r, g') = submit_single_transfer_request R id req tx g in
        let (op, addr) = made_for R req g.domains ((g.rr_next + j) % n) range in
        (r ≡ ok tt)
        × (g'.rr_next ≡ (g.rr_next + k) % n)
        × (g'.write_ops ≡ (track id k tx g).write_ops)
        × (get_elem? g'.domains j ≡ some (R.submit_write id addr op d))
  submit_single_round_robin k j d range tx g routing fits rr addr reg ed er =
      let n = length g.domains in
      let ranges = shard_single_transfer req.length k in
      let count : length ranges ≡ k = (shard_single_transfer_lem req.length k).1 in
      let at : ℕ → ℕ = λ i. (g.rr_next + i) % n in
      let ops = single_plan R req g.domains at 0 ranges in
      let built =
        build_round_robin R req ranges k g.rr_next 0 n g routing (omega arith) refl addr reg
          (mod_start g.rr_next n rr) in
      let whole =
        submit_built k ops tx g (record g { rr_next = (g.rr_next + (0 + length ranges)) % n }) addr
          (shards-round_robin k g routing fits) built in
      let size : length ops ≡ k = length-single_plan R req g.domains at 0 ranges ∙ count in
      let total : 0 + length ranges ≡ k = omega arith in
      let plan = get_elem?-single_plan g.domains at 0 j ranges range er in
      rw whole (
        refl,
        ap (λ t. (g.rr_next + t) % n) total,
        ap (λ u. (track id u tx g).write_ops) size,
        get_elem?-submit_zip g.domains ops j d
            (made_for R req g.domains ((g.rr_next + j) % n) range) ed
            (plan ∙ ap (λ t. some (made_for R req g.domains (at t) range)) (omega arith)),
      )

  -- A pinned request makes one write of the whole transfer with the local descriptor, the remote
  -- address and the remote key of the domain that it names, and hands it to the first domain,
  -- whichever it names; the other domains get nothing.
  pub submit_single_pinned :
      (idx : ℕ) (d : D) (ds : List D) (tx : Option TransferCounter) (g : DomainGroup D)
      → req.routing ≡ pinned idx
      → idx < length g.domains
      → length req.dst_mr.addr_rkey_list ≡ length g.domains
      → Registered R req.src_mr g.domains
      → g.domains ≡ d ∷ ds
      → let (op, addr) = made_for R req g.domains idx (0, req.length) in
        submit_single_transfer_request R id req tx g
        ≡ (ok tt, record (track id 1 tx g) { domains = R.submit_write id addr op d ∷ ds })
  unfolding submit_zip single_plan
  submit_single_pinned idx d ds tx g routing lt addr reg split =
      let at : ℕ → ℕ = λ _. idx in
      let (op, to) = made_for R req g.domains idx (0, req.length) in
      let result : List D → List (WriteOp × DomainAddress) → Result (Unit {0}) × DomainGroup D =
        λ l ops. (ok tt, record (track id (length ops) tx g) { domains = submit_zip R id l ops }) in
      submit_built 1 (single_plan R req g.domains at 0 (shard_single_transfer req.length 1)) tx g g
        addr (shards-pinned idx g routing lt)
        (build_pinned R req (shard_single_transfer req.length 1) idx 0 g routing lt addr reg)
      ∙ ap (λ rs. result g.domains (single_plan R req g.domains at 0 rs)) (one_shard req.length)
      ∙ ap (λ l. result l ((op, to) ∷ [])) split
      ∙ ap (λ l. (ok tt, record (track id 1 tx g) { domains = R.submit_write id to op d ∷ l }))
          (submit_zip-nil ds)

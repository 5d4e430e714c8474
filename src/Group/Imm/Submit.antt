-- ===== src/Group/Imm/Submit.antt =====
-- `submit_imm_transfer_request` as a whole.
use pplx_garden_cxi.Common.{
  ℕ, zero, suc, ◌+◌, ◌*◌, ◌%◌, ◌≤◌, ◌<◌, ◌≡◌, refl, ◌∙◌, ap, min, Option, List, arith, ◌==◌, false,
  length, ltb, if◌then◌else◌, Bool-cases, inl, inr,
}
use pplx_garden_cxi.Shard.{div_ceil}
use pplx_garden_cxi.Shard.Pages.{div_ceil_bounds}
use pplx_garden_cxi.Api.{
  ok, err, custom, Action, modify, panic_if, ◌>>=◌, ◌>>◌, MemoryRegionDescriptor,
  DomainGroupRouting, round_robin_sharded, pinned, TransferCounter,
}
use pplx_garden_cxi.Provider.{RdmaDomain}
use pplx_garden_cxi.Group.{DomainGroup, for_each, track, check_addresses}
use pplx_garden_cxi.Group.Posting.{post_all}
use pplx_garden_cxi.Group.Run.{bind-ok, check-All}
use pplx_garden_cxi.Group.Imm.{chunks, imm_route, send_chunks, submit_imm_transfer_request}
use pplx_garden_cxi.Group.Imm.Plan.{imm_plan, Addressed, send_chunks-lem}

module _ {D : Type 0} where
  route-round_robin :
      (count : ℕ) (g : DomainGroup D)
      → 0 < length g.domains
      → imm_route (round_robin_sharded 1) count g ≡ (
        ok (g.rr_next, div_ceil count (length g.domains)),
        record g { rr_next = (g.rr_next + min (length g.domains) count) % length g.domains },
      )
  unfolding imm_route
  route-round_robin count g pos = ground arith

  route-pinned :
      (idx count : ℕ) (g : DomainGroup D)
      → idx < length g.domains
      → imm_route (pinned idx) count g ≡ (ok (idx, count), g)
  unfolding imm_route
  route-pinned idx count g lt = ground arith

zero_times : (per : ℕ) → 0 * per ≡ 0
zero_times per = omega arith

times_pos : (n len : ℕ) → 0 < n → len ≤ n * len
times_pos n len pos = grind arith

pos_factor : (len n per : ℕ) → 0 < len → len ≤ n * per → 0 < per
pos_factor len n zero pos fits = absurd (omega arith)
pos_factor len n (suc per) pos fits = omega arith

module _ {D : Type 0} (R : RdmaDomain D) (id imm : ℕ) where
  -- The request, once its route is known.
  submit_routed :
      (mrs : List MemoryRegionDescriptor) (routing : DomainGroupRouting)
      (tx : Option TransferCounter) (g g' : DomainGroup D) (first per : ℕ)
      → Addressed (length g.domains) mrs
      → imm_route routing (length mrs) (track id (length mrs) tx g) ≡ (ok (first, per), g')
      → g'.domains ≡ g.domains
      → 0 < per
      → length mrs ≤ length g.domains * per
      → submit_imm_transfer_request R id imm mrs routing tx g ≡ (
        ok tt,
        record g' {
          domains = post_all R id (imm_plan imm (length g.domains) first per 0 mrs) g'.domains;
        },
      )
  unfolding submit_imm_transfer_request chunks
  submit_routed mrs routing tx g g' first per ad route same pos fits =
      let cont : ℕ × ℕ → Action (DomainGroup D) (Unit {0}) =
        λ r. panic_if (r.1 == 0) >> send_chunks R id imm r.0 0 (chunks r.1 mrs) in
      let g₁ = track id (length mrs) tx g in
      let go : Action (DomainGroup D) (Unit {0}) = imm_route routing (length mrs) >>= cont in
      let some' : (per == 0) ≡ false = ground arith in
      bind-ok (for_each mrs check_addresses) (λ _. modify (track id (length mrs) tx) >> go) g g tt
        (check-All mrs g ad)
      ∙ bind-ok (imm_route routing (length mrs)) cont g₁ g' (first, per) route
      ∙ rw some' (
          rw (zero_times per) at (
            send_chunks-lem R id imm (length g.domains) (length mrs) first per 0 mrs g'
              (ap length same) ad pos (omega arith) (omega arith)))

  -- With an address for each domain in every target and at least one target, a round-robin
  -- request returns no error, posts the immediates of `imm_plan` from the next domain on, as many
  -- to each as the ceiling of the targets over the domains, tracks as many completions as there
  -- are targets, and moves the round robin on by the number of domains or of targets, whichever is
  -- less.
  pub submit_round_robin :
      (mrs : List MemoryRegionDescriptor) (tx : Option TransferCounter) (g : DomainGroup D)
      → 0 < length mrs
      → 0 < length g.domains
      → Addressed (length g.domains) mrs
      → let n = length g.domains in
        let plan = imm_plan imm n g.rr_next (div_ceil (length mrs) n) 0 mrs in
        submit_imm_transfer_request R id imm mrs (round_robin_sharded 1) tx g ≡ (
          ok tt,
          record (track id (length mrs) tx g) {
            domains = post_all R id plan g.domains;
            rr_next = (g.rr_next + min n (length mrs)) % n;
          },
        )
  submit_round_robin mrs tx g some' pos ad =
      let n = length g.domains in
      let g₁ = track id (length mrs) tx g in
      let bounds = div_ceil_bounds (length mrs) n pos in
      submit_routed mrs (round_robin_sharded 1) tx g
        (record g₁ { rr_next = (g.rr_next + min n (length mrs)) % n }) g.rr_next
        (div_ceil (length mrs) n) ad (route-round_robin (length mrs) g₁ pos) refl
        (pos_factor (length mrs) n (div_ceil (length mrs) n) some' bounds.0) bounds.0

  submit_pinned_inside :
      (mrs : List MemoryRegionDescriptor) (idx : ℕ) (tx : Option TransferCounter)
      (g : DomainGroup D)
      → 0 < length mrs
      → idx < length g.domains
      → Addressed (length g.domains) mrs
      → let n = length g.domains in
        submit_imm_transfer_request R id imm mrs (pinned idx) tx g ≡ (
          ok tt,
          record (track id (length mrs) tx g) {
            domains = post_all R id (imm_plan imm n idx (length mrs) 0 mrs) g.domains;
          },
        )
  submit_pinned_inside mrs idx tx g some' lt ad =
      let n = length g.domains in
      let g₁ = track id (length mrs) tx g in
      let fits : length mrs ≤ n * length mrs = times_pos n (length mrs) (omega arith) in
      submit_routed mrs (pinned idx) tx g g₁ idx (length mrs) ad
        (route-pinned idx (length mrs) g₁ lt) refl some' (omega arith)

  submit_pinned_out_of_bounds :
      (mrs : List MemoryRegionDescriptor) (idx : ℕ) (tx : Option TransferCounter)
      (g : DomainGroup D)
      → length g.domains ≤ idx
      → Addressed (length g.domains) mrs
      → submit_imm_transfer_request R id imm mrs (pinned idx) tx g ≡ (
        err (custom "DomainGroupRouting::Pinned.domain_idx is out of bounds"),
        track id (length mrs) tx g,
      )
  unfolding submit_imm_transfer_request imm_route
  submit_pinned_out_of_bounds mrs idx tx g out ad = ground (arith, check-All mrs g ad)

  -- A pinned request with at least one target and an address for each domain in every target posts
  -- every immediate by the one domain, in order, and tracks as many completions as there are
  -- targets. If there is no such domain it fails and posts nothing, but leaves the context of the
  -- transfer behind, which has been tracked before the check.
  pub submit_pinned :
      (mrs : List MemoryRegionDescriptor) (idx : ℕ) (tx : Option TransferCounter)
      (g : DomainGroup D)
      → 0 < length mrs
      → Addressed (length g.domains) mrs
      → let n = length g.domains in
        let tracked = track id (length mrs) tx g in
        submit_imm_transfer_request R id imm mrs (pinned idx) tx g ≡ (
          if ltb idx n
          then (
            ok tt,
            record tracked {
              domains = post_all R id (imm_plan imm n idx (length mrs) 0 mrs) g.domains;
            },
          )
          else (err (custom "DomainGroupRouting::Pinned.domain_idx is out of bounds"), tracked))
  submit_pinned mrs idx tx g some' ad = elim (Bool-cases (ltb idx (length g.domains))) [
    | inl inside ↦ rw inside (submit_pinned_inside mrs idx tx g some' (ground arith) ad)
    | inr outside ↦ rw outside (submit_pinned_out_of_bounds mrs idx tx g (ground arith) ad)
  ]

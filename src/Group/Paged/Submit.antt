-- ===== src/Group/Paged/Submit.antt =====
-- `submit_paged_transfer_request` as a whole.
use native.Mathlib.Nat.{mod-eq_of_lt}
use pplx_garden_cxi.Common.{
  ℕ, ◌+◌, ◌%◌, ◌<◌, ◌≡◌, refl, sym, ◌∙◌, ap, not, Option, List, arith, ◌==◌, true, false, length,
}
use pplx_garden_cxi.Shard.{divide_evenly}
use pplx_garden_cxi.Api.{
  ok, Action, ◌>>=◌, ◌>>◌, pure, modify, raise_if, panic_if, custom, PagedTransferRequest,
  TransferCounter,
}
use pplx_garden_cxi.Provider.{RdmaDomain}
use pplx_garden_cxi.Group.{DomainGroup, for_each, track, check_addresses, num_domains}
use pplx_garden_cxi.Group.Run.{bind-ok, check_addresses-ok}
use pplx_garden_cxi.Group.Posting.{post_all}
use pplx_garden_cxi.Group.Paged.{send_pages, submit_paged_transfer_request}
use pplx_garden_cxi.Group.Paged.Placement.{HasKeys, KeepsKeys, page_plan, send_all}

module _ {D : Type 0} (R : RdmaDomain D) (id : ℕ) (req : PagedTransferRequest) where
  mod_start : (r n : ℕ) → r < n → r ≡ (r + 0) % n
  mod_start r n lt = sym (ap (λ t. t % n) same ∙ mod-eq_of_lt lt)
    where
      same : r + 0 ≡ r
      same = omega arith

  -- With as many source as destination pages, an address and a local descriptor for each domain,
  -- and domains that keep their descriptors when they take a write: the request returns no error,
  -- cuts the pages by `divide_evenly`, posts each range by the next domain of the round robin with
  -- that domain's own descriptor, address and key, tracks as many completions as there are
  -- ranges, and moves the round robin on by as many.
  pub submit_paged_lem :
      (keys : List ℕ) (tx : Option TransferCounter) (g : DomainGroup D)
      → KeepsKeys R req.src_mr
      → g.rr_next < length g.domains
      → length req.dst_mr.addr_rkey_list ≡ length g.domains
      → length req.src_page_indices ≡ length req.dst_page_indices
      → HasKeys R req.src_mr keys g.domains
      → let n = length g.domains in
        let ranges = divide_evenly (length req.src_page_indices) n in
        submit_paged_transfer_request R id req tx g ≡ (
          ok tt,
          record (track id (length ranges) tx g) {
            domains = post_all R id (page_plan R id req keys n g.rr_next 0 ranges) g.domains;
            rr_next = (g.rr_next + length ranges) % n;
          },
        )
  unfolding submit_paged_transfer_request
  submit_paged_lem keys tx g keeps rr addr pages has =
      let n = length g.domains in
      let ranges = divide_evenly (length req.src_page_indices) n in
      let g₁ = track id (length ranges) tx g in
      let paired : (length req.src_page_indices == length req.dst_page_indices) ≡ true =
        ground arith in
      let some' : (n == 0) ≡ false = ground arith in
      let total : 0 + length ranges ≡ length ranges = omega arith in
      let sent =
        send_all R id req keys n g.rr_next 0 ranges g₁ keeps (omega arith) refl addr has
          (mod_start g.rr_next n rr) in
      let go : List (ℕ × ℕ) → Action (DomainGroup D) (Unit {0}) =
        λ rs. modify (track id (length rs) tx) >> for_each rs (send_pages R id req) in
      let cut : ℕ → Action (DomainGroup D) (Unit {0}) =
        λ k. panic_if (k == 0) >> (pure (divide_evenly (length req.src_page_indices) k) >>= go) in
      let rest : Action (DomainGroup D) (Unit {0}) =
        raise_if (not (length req.src_page_indices == length req.dst_page_indices))
          (custom "Length of source and destination page indices must match")
        >> (num_domains >>= cut) in
      bind-ok (check_addresses req.dst_mr) (λ _. rest) g g tt (check_addresses-ok req.dst_mr g addr)
      ∙ rw (paired, some')
          (sent
            ∙ ap
                (λ t. (
                  ok tt,
                  record g₁ {
                    domains =
                        post_all R id (page_plan R id req keys n g.rr_next 0 ranges) g.domains;
                    rr_next = (g.rr_next + t) % n;
                  },
                ))
                total)

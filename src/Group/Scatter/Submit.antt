-- ===== src/Group/Scatter/Submit.antt =====
-- `submit_scatter_transfer_request` as a whole.
use mathlib.Core.Path.{subst}
use pplx_garden_cxi.Common.{
  ℕ, ◌<◌, ◌≡◌, refl, sym, ◌∙◌, ap, Option, none, some, List, arith, ◌==◌, false, length, map,
  lookup, Map,
}
use pplx_garden_cxi.Shard.{div_ceil, divide_evenly}
use pplx_garden_cxi.Shard.Pages.{Tiles, divide_evenly_lem}
use pplx_garden_cxi.Api.{
  ok, Action, ◌>>=◌, ◌>>◌, modify, DomainAddress, ScatterTransferRequest, ScatterGroupWriteOp,
  all_domains_shard_peers, all_domains_shard_bytes, TransferCounter,
}
use pplx_garden_cxi.Provider.{RdmaDomain}
use pplx_garden_cxi.Group.{DomainGroup, for_each, on_domain, track}
use pplx_garden_cxi.Group.Run.{bind-ok}
use pplx_garden_cxi.Group.Paged.Placement.{HasKeys}
use pplx_garden_cxi.Group.Scatter.{Ops, check_scatter, scatter_ops, submit_scatter_transfer_request}
use pplx_garden_cxi.Group.Scatter.Cover.{
  peer_plan, byte_plan, peer_ops-lem, byte_ops-lem, ranges-peer_plan, HasKeys-length, Fits,
  peer_plan-Fits, byte_plan-Fits, byte_plan-length, hand_out, send_ops,
}

-- The peer group of a request, if it names one, is there and has as many peers as targets.
abbrev pub MatchesGroup : ℕ → Map (List (List DomainAddress)) → Option ℕ → Type 0
MatchesGroup count groups none = Unit
MatchesGroup count groups (some handle) =
    (addrs : List (List DomainAddress)) × (lookup handle groups ≡ some addrs)
    × (count ≡ length addrs)

module _ {D : Type 0} (R : RdmaDomain D) (req : ScatterTransferRequest) where
  check-ok :
      (g : DomainGroup D)
      → 0 < length req.dsts
      → MatchesGroup (length req.dsts) g.peer_groups req.dst_handle
      → check_scatter req g ≡ (ok tt, g)
  unfolding check_scatter
  check-ok g some' matches = go req.dst_handle refl matches
    where
      go :
          (h : Option ℕ)
          → req.dst_handle ≡ h
          → MatchesGroup (length req.dsts) g.peer_groups h
          → check_scatter req g ≡ (ok tt, g)
      go none e m = ground arith
      go (some handle) e (addrs, found, count) = ground arith

  submit_planned :
      (id : ℕ) (ops : Ops) (tx : Option TransferCounter) (g : DomainGroup D)
      → 0 < length req.dsts
      → MatchesGroup (length req.dsts) g.peer_groups req.dst_handle
      → scatter_ops R req req.routing g ≡ (ok ops, g)
      → Fits R req 0 (length g.domains) ops
      → submit_scatter_transfer_request R req id tx g
        ≡ (ok tt, record (track id (length ops) tx g) { domains = hand_out R req id ops g.domains })
  unfolding submit_scatter_transfer_request
  submit_planned id ops tx g some' matches planned fits =
      let send : ℕ × ScatterGroupWriteOp → Action (DomainGroup D) (Unit {0}) =
        λ op. on_domain op.0 (R.submit_group_write id req.dst_handle op.1) in
      let go : Ops → Action (DomainGroup D) (Unit {0}) =
        λ os. modify (track id (length os) tx) >> for_each os send in
      bind-ok (check_scatter req) (λ _. scatter_ops R req req.routing >>= go) g g tt
        (check-ok g some' matches)
      ∙ bind-ok (scatter_ops R req req.routing) go g g ops planned
      ∙ send_ops R req id 0 ops (track id (length ops) tx g) fits

  plan-peers :
      (keys : List ℕ) (g : DomainGroup D)
      → 0 < length g.domains
      → HasKeys R req.src_mr keys g.domains
      → scatter_ops R req all_domains_shard_peers g
        ≡ (ok (peer_plan R req 0 keys (divide_evenly (length req.dsts) (length g.domains))), g)
  unfolding scatter_ops
  plan-peers keys g pos has =
      let some' : (length g.domains == 0) ≡ false = ground arith in
      rw some' (
        peer_ops-lem R req 0 keys g.domains (divide_evenly (length req.dsts) (length g.domains)) g
          has)

  plan-bytes :
      (keys : List ℕ) (g : DomainGroup D)
      → HasKeys R req.src_mr keys g.domains
      → scatter_ops R req all_domains_shard_bytes g
        ≡ (ok (byte_plan R req (length g.domains) 0 keys), g)
  unfolding scatter_ops
  plan-bytes keys g has = byte_ops-lem R req (length g.domains) 0 keys g.domains g has

  -- A scatter that shards the peers, with at least one target, a fitting peer group if it names
  -- one, and the source registered on each domain: it returns no error, hands one write to each
  -- domain that gets peers, from the first domain on, and tracks as many completions. The peers
  -- of the writes are consecutive ranges that cover every target once.
  pub submit_scatter_peers :
      (keys : List ℕ) (id : ℕ) (tx : Option TransferCounter) (g : DomainGroup D)
      → req.routing ≡ all_domains_shard_peers
      → 0 < length req.dsts
      → 0 < length g.domains
      → MatchesGroup (length req.dsts) g.peer_groups req.dst_handle
      → HasKeys R req.src_mr keys g.domains
      → let count = length req.dsts in
        let n = length g.domains in
        let ops = peer_plan R req 0 keys (divide_evenly count n) in
        (submit_scatter_transfer_request R req id tx g ≡ (
          ok tt,
          record (track id (length ops) tx g) { domains = hand_out R req id ops g.domains },
        ))
        × Fits R req 0 n ops
        × Tiles
            (div_ceil count n)
            0
            count
            (map (λ (op : ℕ × ScatterGroupWriteOp). (op.1.dst_beg, op.1.dst_end)) ops)
  submit_scatter_peers keys id tx g routing some' pos matches has =
      let n = length g.domains in
      let count = length req.dsts in
      let ranges = divide_evenly count n in
      let ops = peer_plan R req 0 keys ranges in
      let cover = divide_evenly_lem count n pos in
      let len = HasKeys-length R req keys g.domains has in
      let fits = peer_plan-Fits R req 0 n keys ranges (omega arith) in
      let planned =
        subst (λ r. scatter_ops R req r g ≡ (ok ops, g)) (sym routing)
          (plan-peers keys g pos has) in
      (
        submit_planned id ops tx g some' matches planned fits,
        fits,
        subst (Tiles (div_ceil count n) 0 count)
            (sym (ranges-peer_plan R req 0 keys ranges (omega arith))) cover.0,
      )

  -- A scatter that shards the bytes hands one write to every domain: each has all targets, the
  -- number of domains as the number of its byte shards, and its own index as its shard.
  pub submit_scatter_bytes :
      (keys : List ℕ) (id : ℕ) (tx : Option TransferCounter) (g : DomainGroup D)
      → req.routing ≡ all_domains_shard_bytes
      → 0 < length req.dsts
      → MatchesGroup (length req.dsts) g.peer_groups req.dst_handle
      → HasKeys R req.src_mr keys g.domains
      → let n = length g.domains in
        let ops = byte_plan R req n 0 keys in
        (submit_scatter_transfer_request R req id tx g
          ≡ (ok tt, record (track id n tx g) { domains = hand_out R req id ops g.domains }))
        × Fits R req 0 n ops
  submit_scatter_bytes keys id tx g routing some' matches has =
      let n = length g.domains in
      let ops = byte_plan R req n 0 keys in
      let len = HasKeys-length R req keys g.domains has in
      let fits = byte_plan-Fits R req n 0 n keys (omega arith) in
      let planned =
        subst (λ r. scatter_ops R req r g ≡ (ok ops, g)) (sym routing) (plan-bytes keys g has) in
      let size : length ops ≡ n = byte_plan-length R req n 0 keys ∙ sym len in
      (
        submit_planned id ops tx g some' matches planned fits
            ∙ ap
                (λ u.
                  (ok tt, record (track id u tx g) { domains = hand_out R req id ops g.domains }))
                size,
        fits,
      )

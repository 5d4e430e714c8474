-- ===== src/Verbs/Domain/Peers/Groups.antt =====
-- Groups of peers that are known, in `add_peer_group` and `submit_group_write` of
-- fabric-lib/src/verbs/verbs_domain.rs.
use pplx_garden_cxi.Common.{
  ℕ, ◌≡◌, sym, ap, ◌∙◌, none, some, List, [], ◌∷◌, ◌++◌, append_assoc, append-nil, arith, lookup,
  insert, lookup-insert,
}
use pplx_garden_cxi.Api.{ok, DomainAddress, ScatterGroupWriteOp}
use pplx_garden_cxi.Verbs.Domain.Host.{Host}
use pplx_garden_cxi.Verbs.Domain.State.{VerbsDomain, Peer, find_peer}
use pplx_garden_cxi.Verbs.Domain.Submit.{do_submit_group_write}
use pplx_garden_cxi.Verbs.Domain.Peers.Grouped.{reach_peers, add_peer_group, submit_group_write}

-- The queue pairs of peers that are known, in whatever state.
pub data Known (peers : List (DomainAddress × Peer)) : List DomainAddress → List ℕ → Type 0 where
  no_peer : Known peers [] []
  one_more :
      (addr : DomainAddress) (peer : Peer) (addrs : List DomainAddress) (qps : List ℕ)
      → find_peer addr peers ≡ some peer
      → Known peers addrs qps
      → Known peers (addr ∷ addrs) (peer.rma_rc.qp ∷ qps)

module _ {N : Type 0} (H : Host N) where
  reach_lem :
      (d : VerbsDomain N) (addrs : List DomainAddress) (qps before pending : List ℕ)
      → Known d.peers addrs qps
      → reach_peers H addrs before pending d ≡ (ok (before ++ qps, pending), d)
  unfolding reach_peers
  reach_lem d _ _ before pending no_peer =
      ap (λ qs. (ok (qs, pending), d)) (sym (append-nil before))
  reach_lem d _ _ before pending (one_more addr peer addrs qps known rest) =
      let tail = reach_lem d addrs qps (before ++ (peer.rma_rc.qp ∷ [])) pending rest in
      ground (arith, known, tail, append_assoc before (peer.rma_rc.qp ∷ []) qps)

  -- A group, not there yet, of peers that are all known, connected or still connecting: it is
  -- stored as ready, with their queue pairs in order, and nothing else of the domain changes. So
  -- a write to the group waits for none of them: it is submitted to their queue pairs at once.
  pub known_lem :
      (handle id : ℕ) (addrs : List DomainAddress) (qps : List ℕ) (op : ScatterGroupWriteOp)
      (d : VerbsDomain N)
      → lookup handle d.connecting_peer_groups ≡ none
      → lookup handle d.peer_groups ≡ none
      → Known d.peers addrs qps
      → let d' = record d { peer_groups = insert handle qps d.peer_groups } in
        (add_peer_group H handle addrs d ≡ (ok tt, d'))
        × (submit_group_write H id (some handle) op d' ≡ do_submit_group_write H id qps op d')
  unfolding add_peer_group submit_group_write
  known_lem handle id addrs qps op d new new' known =
      let reached = reach_lem d addrs qps [] [] known in
      let stored : lookup handle (insert handle qps d.peer_groups) ≡ some qps =
        lookup-insert handle handle qps d.peer_groups ∙ ground arith in
      (ground (arith, new, new', reached), ground (arith, new, stored))

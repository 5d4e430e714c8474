-- ===== src/Group/Peers/Tests.antt =====
-- A peer group with one peer that has two NICs.
use pplx_garden_cxi.Common.{ℕ, arith, lookup, ◌≡◌, List, [], ◌∷◌}
use pplx_garden_cxi.Api.{ok, DomainAddress}
use pplx_garden_cxi.Testbed.{Nic, recorder, nic}
use pplx_garden_cxi.Group.{DomainGroup, add_peer_group, new}
use pplx_garden_cxi.Group.Peers.{
  add_peer_group_again, add_peer_group-HandlesBelow, HandlesBelow, Keeps,
}

abbrev group : DomainGroup Nic
group = new (nic 0 ∷ nic 1 ∷ [])

abbrev peers : List (List DomainAddress)
peers = ((3 ∷ []) ∷ (4 ∷ []) ∷ []) ∷ []

add_peer_group_again_example :
    let (r, g') = add_peer_group recorder peers group in
    (h : ℕ) × (add_peer_group recorder peers g' ≡ (ok h, g')) × ((k : ℕ) → r ≡ ok k → k ≡ h)
add_peer_group_again_example = add_peer_group_again recorder peers group

none-HandlesBelow : HandlesBelow group
unfolding new lookup
none-HandlesBelow k addrs e = absurd (cc e)

add_peer_group-HandlesBelow_example :
    HandlesBelow (add_peer_group recorder peers group).1
    × Keeps group (add_peer_group recorder peers group).1
unfolding new
add_peer_group-HandlesBelow_example =
    add_peer_group-HandlesBelow recorder peers group none-HandlesBelow (omega arith)

-- ===== src/Group/Peers.antt =====
-- `add_peer_group` of fabric-lib/src/domain_group.rs: the handles of the peer groups.
mod Tests
use mathlib.Core.Path.{subst}
use pplx_garden_cxi.Common.{
  ℕ, zero, suc, ◌+◌, ◌^◌, ◌%◌, ◌<◌, ◌≡◌, ◌⊎◌, inl, inr, refl, sym, ◌∙◌, ap, Option, none, some,
  List, [], ◌∷◌, arith, Map, lookup, Option-cases, insert, lookup-insert, insert-cases, Bool-cases,
  ◌==◌, true, false,
}
use pplx_garden_cxi.Api.{
  Result, Action, pure, ◌>>=◌, ok, err, panicked, DomainAddress, addrs_beq, addrs_beq_iff,
}
use pplx_garden_cxi.Provider.{RdmaDomain}
use pplx_garden_cxi.Group.{DomainGroup, lift, on_domains, column, find_group, add_peer_group}

find_group-insert :
    (k : ℕ) (addrs : List (List DomainAddress)) (m : Map (List (List DomainAddress)))
    → find_group addrs m ≡ none
    → find_group addrs (insert k addrs m) ≡ some k
unfolding find_group insert
find_group-insert k addrs [] e =
    let same : addrs_beq addrs addrs ≡ true = (addrs_beq_iff addrs addrs).1 refl in rw same refl
find_group-insert k addrs ((j, group) ∷ m) e =
    let same : addrs_beq addrs addrs ≡ true = (addrs_beq_iff addrs addrs).1 refl in
    ground (arith, same, find_group-insert k addrs m)

abbrev with_group :
    {D : Type 0} → List (List DomainAddress) → List D → DomainGroup D → DomainGroup D
with_group addrs ds g = record g {
  domains = ds;
  next_peer_group_handle = (g.next_peer_group_handle + 1) % 2 ^ 32;
  peer_groups = insert g.next_peer_group_handle addrs g.peer_groups;
}

-- An action whose result is replaced by `k` returns `k` if it returns at all.
then_pure :
    {S A : Type 0} (m : Action S A) (k : ℕ) (s : S)
    → (r : Result ℕ) × ((m >>= λ _. pure k) s ≡ (r, (m s).1)) × ((j : ℕ) → r ≡ ok j → j ≡ k)
then_pure {A = A} m k s = go (m s).0 refl
  where
    go :
        (q : Result A)
        → (m s).0 ≡ q
        → (r : Result ℕ) × ((m >>= λ _. pure k) s ≡ (r, (m s).1)) × ((j : ℕ) → r ≡ ok j → j ≡ k)
    go (ok a) e = (ok k, ground arith, λ j q. cc)
    go (err x) e = (err x, ground arith, λ j q. absurd (cc q))
    go panicked e = (panicked, ground arith, λ j q. absurd (cc q))

module _ {D : Type 0} (R : RdmaDomain D) where
  add-known :
      (addrs : List (List DomainAddress)) (h : ℕ) (g : DomainGroup D)
      → find_group addrs g.peer_groups ≡ some h
      → add_peer_group R addrs g ≡ (ok h, g)
  unfolding add_peer_group
  add-known addrs h g found = ground arith

  add-fresh :
      (addrs : List (List DomainAddress)) (g : DomainGroup D)
      → find_group addrs g.peer_groups ≡ none
      → (r : Result ℕ) × (ds : List D) × (add_peer_group R addrs g ≡ (r, with_group addrs ds g))
        × ((k : ℕ) → r ≡ ok k → k ≡ g.next_peer_group_handle)
  unfolding add_peer_group
  add-fresh addrs g fresh =
      let next = g.next_peer_group_handle in
      let each = on_domains (λ i d. ◌>>=◌ (lift (column i addrs)) (R.add_peer_group next) d) in
      let (r, run, own) = then_pure each next (with_group addrs g.domains g) in
      (r, (each (with_group addrs g.domains g)).1.domains, ground (arith, run), own)

  -- A group that is added a second time gets a handle, whatever became of the first call, and
  -- nothing changes. If the first call returned a handle, it is the same one.
  pub add_peer_group_again :
      (addrs : List (List DomainAddress)) (g : DomainGroup D)
      → let (r, g') = add_peer_group R addrs g in
        (h : ℕ) × (add_peer_group R addrs g' ≡ (ok h, g')) × ((k : ℕ) → r ≡ ok k → k ≡ h)
  add_peer_group_again addrs g = elim (Option-cases (find_group addrs g.peer_groups)) [
    | inl fresh ↦
        let (r, ds, once, own) = add-fresh addrs g fresh in
        let next = g.next_peer_group_handle in
        let again =
          add-known addrs next (with_group addrs ds g)
            (find_group-insert next addrs g.peer_groups fresh) in
        (
          next,
          subst (λ q. add_peer_group R addrs q.1 ≡ (ok next, q.1)) (sym once) again,
          λ k e. own k (sym (ap (λ q. q.0) once) ∙ e),
        )
    | inr (h, found) ↦
        let once = add-known addrs h g found in
        (
          h,
          subst (λ q. add_peer_group R addrs q.1 ≡ (ok h, q.1)) (sym once) once,
          λ k e. same k (sym e ∙ ap (λ q. q.0) once),
        )
  ]
    where
      same : {h : ℕ} (k : ℕ) → ok k ≡ ok h → k ≡ h
      same k e = cc

-- Every handle that was given out is below the next one.
abbrev pub HandlesBelow : {D : Type 0} → DomainGroup D → Type 0
HandlesBelow g =
    (k : ℕ) (addrs : List (List DomainAddress))
    → lookup k g.peer_groups ≡ some addrs
    → k < g.next_peer_group_handle

abbrev pub Keeps : {D : Type 0} → DomainGroup D → DomainGroup D → Type 0
Keeps g g' =
    (k : ℕ) (addrs : List (List DomainAddress))
    → lookup k g.peer_groups ≡ some addrs
    → lookup k g'.peer_groups ≡ some addrs

module _ {D : Type 0} where
  with_group-HandlesBelow :
      (addrs : List (List DomainAddress)) (ds : List D) (g : DomainGroup D)
      → HandlesBelow g
      → g.next_peer_group_handle + 1 < 2 ^ 32
      → HandlesBelow (with_group addrs ds g)
  with_group-HandlesBelow addrs ds g below fits k a found =
      let next = g.next_peer_group_handle in
      elim (insert-cases next k addrs a g.peer_groups found) [
        | inl (same, _) ↦ omega arith
        | inr (_, old) ↦ let before = below k a old in omega arith
      ]

  with_group-Keeps :
      (addrs : List (List DomainAddress)) (ds : List D) (g : DomainGroup D)
      → HandlesBelow g
      → Keeps g (with_group addrs ds g)
  with_group-Keeps addrs ds g below k a found =
      let before = below k a found in
      let other : (g.next_peer_group_handle == k) ≡ false = ground arith in
      lookup-insert g.next_peer_group_handle k addrs g.peer_groups ∙ rw other found

module _ {D : Type 0} (R : RdmaDomain D) where
  -- With the given handles below the next one, and one more handle in 32 bits, adding a peer
  -- group keeps the handles below the next one, and every group that was there keeps its
  -- addresses, whether the call succeeds or not.
  pub add_peer_group-HandlesBelow :
      (addrs : List (List DomainAddress)) (g : DomainGroup D)
      → HandlesBelow g
      → g.next_peer_group_handle + 1 < 2 ^ 32
      → HandlesBelow (add_peer_group R addrs g).1 × Keeps g (add_peer_group R addrs g).1
  add_peer_group-HandlesBelow addrs g below fits =
      elim (Option-cases (find_group addrs g.peer_groups)) [
        | inl fresh ↦
            let (r, ds, once, own) = add-fresh R addrs g fresh in
            subst (λ q. HandlesBelow q.1 × Keeps g q.1) (sym once)
              (with_group-HandlesBelow addrs ds g below fits, with_group-Keeps addrs ds g below)
        | inr (h, found) ↦
            subst (λ q. HandlesBelow q.1 × Keeps g q.1) (sym (add-known R addrs h g found))
              (below, λ k a e. e)
      ]

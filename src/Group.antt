-- ===== src/Group.antt =====
-- fabric-lib/src/domain_group.rs: a group of domains (the NICs of one GPU). This file has the
-- state, the bookkeeping that the requests share, and the operations that are not transfers; the
-- requests stand in the children.
pub mod Posting
pub mod Run
pub mod Imm
pub mod Single
pub mod Paged
pub mod Scatter
pub mod Completion
pub mod Dispatch
pub mod Peers
pub use pplx_garden_cxi.Api.{item, lift}
unfoldable pub use pplx_garden_cxi.Api.{for_each}
use pplx_garden_cxi.Common.{
  ℕ, zero, suc, ◌+◌, ◌%◌, ◌^◌, Bool, true, false, not, Option, none, some, List, [], ◌∷◌, map, ◌==◌,
  if◌then◌else◌, length, get_elem?, set, Map, lookup, insert,
}
use pplx_garden_cxi.Api.{
  Result, ok, err, panicked, Action, pure, raise, panic, gets, modify, ◌>>=◌, ◌>>◌, raise_if,
  panic_if, custom, DomainAddress, MemoryRegionDescriptor, TransferCounter, addrs_beq, add_u64,
  SendOp, RecvOp,
}
use pplx_garden_cxi.Provider.{MemoryRegion, RdmaDomain}

pub record WriteOpContext : Type 0 where
  pub num_used_domains : ℕ
  pub cnt_domain_completion : ℕ
  pub tx_counter : Option TransferCounter

-- A `PeerGroup` is its addresses. The array of `N` domains is a list.
pub record DomainGroup (D : Type 0) : Type 0 where
  pub domains : List D
  pub write_ops : Map WriteOpContext
  pub rr_next : ℕ
  pub next_peer_group_handle : ℕ
  pub peer_groups : Map (List (List DomainAddress))

module _ {D : Type 0} where
  unfoldable pub new : List D → DomainGroup D
  new ds = record {
    domains = ds;
    write_ops = [];
    rr_next = 0;
    next_peer_group_handle = 0;
    peer_groups = [];
  }

  abbrev pub num_domains : Action (DomainGroup D) ℕ
  num_domains = gets (λ g. length g.domains)

  -- a call on `&mut self.domains[i]` that cannot fail
  abbrev pub on_domain : ℕ → (D → D) → Action (DomainGroup D) (Unit {0})
  on_domain i f g = elim (get_elem? g.domains i) [
    | none ↦ (panicked, g)
    | some d ↦ (ok tt, record g { domains = set g.domains i (f d) })
  ]

  -- `write_ops.insert(transfer_id, WriteOpContext { … })`
  abbrev pub track : ℕ → ℕ → Option TransferCounter → DomainGroup D → DomainGroup D
  track id used tx g = record g {
    write_ops =
        insert id (record { num_used_domains = used; cnt_domain_completion = 0; tx_counter = tx })
          g.write_ops;
  }

  -- `rr_next`, which then moves on by `step`
  abbrev pub round_robin : ℕ → Action (DomainGroup D) ℕ
  round_robin step = do
    n ← num_domains
    panic_if (n == 0)
    first ← gets (λ g. g.rr_next)
    modify (λ g. record g { rr_next = (g.rr_next + step) % n })
    pure first

  -- the check of a descriptor that opens every request
  abbrev pub check_addresses : MemoryRegionDescriptor → Action (DomainGroup D) (Unit {0})
  check_addresses mr = do
    n ← num_domains
    raise_if (not (length mr.addr_rkey_list == n))
        (custom "Number of target addresses must match the number of domains")

-- A call on each domain in turn that stops at the first failure; `i` counts the domains.
unfoldable pub each_domain {ℓ κ} :
    {D : Type ℓ} {A : Type κ} → (ℕ → Action D A) → ℕ → List D → Result (List A) × List D
each_domain f i [] = (ok [], [])
each_domain f i (d ∷ ds) =
    let (r, d') = f i d in
    let (rs, ds') = each_domain f (i + 1) ds in
    elim r [
      | ok a ↦ (elim rs [ ok as' ↦ ok (a ∷ as') | err e ↦ err e | panicked ↦ panicked ], d' ∷ ds')
      | err e ↦ (err e, d' ∷ ds)
      | panicked ↦ (panicked, d' ∷ ds)
    ]

module _ {D : Type 0} where
  abbrev pub on_domains {κ} : {A : Type κ} → (ℕ → Action D A) → Action (DomainGroup D) (List A)
  on_domains f g = let (r, ds) = each_domain f 0 g.domains in (r, record g { domains = ds })

-- the search of `add_peer_group` for a group with these addresses
unfoldable pub find_group : List (List DomainAddress) → Map (List (List DomainAddress)) → Option ℕ
find_group addrs [] = none
find_group addrs ((handle, group) ∷ m) =
    if addrs_beq group addrs then some handle else find_group addrs m

-- `addrs.iter().map(|addr| addr[i].clone())`
unfoldable pub column : ℕ → List (List DomainAddress) → Result (List DomainAddress)
column i [] = ok []
column i (row ∷ rows) =
    let rest = column i rows in
    elim (get_elem? row i) [
      | none ↦ panicked
      | some a ↦ elim rest [ ok as' ↦ ok (a ∷ as') | err e ↦ err e | panicked ↦ panicked ]
    ]

-- The sum of a `u64` iterator wraps.
unfoldable pub sum_u64 : List ℕ → ℕ
sum_u64 [] = 0
sum_u64 (x ∷ xs) = add_u64 x (sum_u64 xs)

module _ {D : Type 0} (R : RdmaDomain D) where
  abbrev pub mem_desc : ℕ → ℕ → Action (DomainGroup D) ℕ
  mem_desc i ptr = do d ← gets (λ g. g.domains) >>= λ ds. item ds i; lift (R.get_mem_desc d ptr)

  pub aggregate_link_speed : DomainGroup D → ℕ
  aggregate_link_speed g = sum_u64 (map R.link_speed g.domains)

  -- The handle is the pointer of the region.
  pub register_mr_allow_remote : MemoryRegion → Action (DomainGroup D) (ℕ × MemoryRegionDescriptor)
  register_mr_allow_remote region = do
    keys ←
        on_domains
          (λ _. do rkey ← R.register_mr_allow_remote region; addr ← gets R.addr; pure (addr, rkey))
    pure (region.ptr, record { ptr = region.ptr; addr_rkey_list = keys })

  pub register_mr_local : MemoryRegion → Action (DomainGroup D) ℕ
  register_mr_local region = do
    on_domains (λ _. R.register_mr_local region) >>= λ _. pure region.ptr

  pub unregister_mr : ℕ → DomainGroup D → DomainGroup D
  unregister_mr ptr g = record g { domains = map (R.unregister_mr ptr) g.domains }

  abbrev pub fresh_group : List (List DomainAddress) → Action (DomainGroup D) ℕ
  fresh_group addrs = do
    handle ← gets (λ g. g.next_peer_group_handle)
    modify (λ g. record g {
      next_peer_group_handle = (handle + 1) % 2 ^ 32;
      peer_groups = insert handle addrs g.peer_groups;
    })
    pure handle

  unfoldable pub add_peer_group : List (List DomainAddress) → Action (DomainGroup D) ℕ
  add_peer_group addrs = do
    groups ← gets (λ g. g.peer_groups)
    elim (find_group addrs groups) [
      | some handle ↦ pure handle
      | none ↦ do
        handle ← fresh_group addrs
        on_domains (λ i d. ◌>>=◌ (lift (column i addrs)) (R.add_peer_group handle) d) >>= λ _.
            pure handle
    ]

  unfoldable pub submit_send :
      (id mr ptr len : ℕ) → DomainAddress → Action (DomainGroup D) (Unit {0})
  submit_send id mr ptr len addr = do
    desc ← mem_desc 0 mr
    on_domain 0 (R.submit_send id addr (record { ptr = ptr; len = len; desc = desc }))

  pub submit_recv : (id mr ptr len : ℕ) → Action (DomainGroup D) (Unit {0})
  submit_recv id mr ptr len = do
    desc ← mem_desc 0 mr
    on_domain 0 (R.submit_recv id (record { ptr = ptr; len = len; desc = desc }))

  unfoldable pub poll_progress : DomainGroup D → DomainGroup D
  poll_progress g = record g { domains = map R.poll_progress g.domains }

-- ===== src/Testbed.antt =====
-- A NIC that records what it is asked, for the tests of the components over `RdmaDomain`.
use pplx_garden_cxi.Common.{ℕ, Option, none, some, List, [], ◌∷◌, ◌++◌}
use pplx_garden_cxi.Api.{
  ok, DomainAddress, WriteOp, ScatterGroupWriteOp, DomainCompletionEntry, MemoryRegionDescriptor,
}
use pplx_garden_cxi.Provider.{RdmaDomain}

pub record Nic : Type 0 where
  pub number : ℕ
  pub writes : List (ℕ × DomainAddress × WriteOp)
  pub group_writes : List (ℕ × Option ℕ × ScatterGroupWriteOp)
  pub queue : List DomainCompletionEntry

abbrev pub pop_queue : Nic → List DomainCompletionEntry → Option DomainCompletionEntry × Nic
pop_queue d [] = (none, d)
pop_queue d (e ∷ es) = (some e, record d { queue = es })

-- The local descriptor of every region is the NIC's number: descriptors of different NICs differ.
abbrev pub recorder : RdmaDomain Nic
recorder = record {
  link_speed = λ d. 400;
  addr = λ d. d.number ∷ [];
  register_mr_local = λ region d. (ok tt, d);
  register_mr_allow_remote = λ region d. (ok d.number, d);
  unregister_mr = λ ptr d. d;
  get_mem_desc = λ d ptr. ok d.number;
  submit_recv = λ id op d. d;
  submit_send = λ id addr op d. d;
  submit_write = λ id addr op d. record d { writes = d.writes ++ (id, addr, op) ∷ [] };
  add_peer_group = λ handle addrs d. (ok tt, d);
  submit_group_write =
      λ id handle op d. record d { group_writes = d.group_writes ++ (id, handle, op) ∷ [] };
  poll_progress = λ d. d;
  get_completion = λ d. pop_queue d d.queue;
}

abbrev pub nic : ℕ → Nic
nic k = record { number = k; writes = []; group_writes = []; queue = [] }

-- a target with an address on each of two NICs
abbrev pub remote : ℕ → MemoryRegionDescriptor
remote ptr = record { ptr = ptr; addr_rkey_list = (0 ∷ [], 50) ∷ (1 ∷ [], 51) ∷ [] }

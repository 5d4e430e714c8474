-- ===== src/Group/Completion/Tests.antt =====
-- Completions of two transfers over three domains.
use pplx_garden_cxi.Common.{
  ◌≡◌, refl, false, none, some, List, [], ◌∷◌, arith, lookup, insert, erase, Map,
}
use pplx_garden_cxi.Memory.{Memory, fetch_add}
use pplx_garden_cxi.Api.{
  DomainCompletionEntry, transfer, imm_data, failed, custom, done, TransferCounter,
}
use pplx_garden_cxi.Testbed.{Nic, recorder, nic}
use pplx_garden_cxi.Group.{WriteOpContext, DomainGroup}
use pplx_garden_cxi.Group.Completion.{on_completion, get_completion}
use pplx_garden_cxi.Group.Completion.Reports.{Polled, get_completion_lem}
use pplx_garden_cxi.Group.Completion.Steps.{IsSole}
use pplx_garden_cxi.Group.Completion.Settling.{
  handle_all, settle, completed, errored, pending, Waits, IsSettled,
}
use pplx_garden_cxi.Group.Completion.Once.{settles_once}
use pplx_garden_cxi.Group.Completion.Never.{never_completes}

abbrev zeroed : Memory
zeroed = record { next_cell = 9; cell = λ _. 0; flag = λ _. false }

abbrev tx : TransferCounter
tx = record { counter = 1; err_counter = 2 }

-- transfer 7 over two domains with a counter, transfer 8 over one without
abbrev tracked : Map WriteOpContext
tracked =
    (7, record { num_used_domains = 2; cnt_domain_completion = 0; tx_counter = some tx })
    ∷ (8, record { num_used_domains = 1; cnt_domain_completion = 0; tx_counter = none })
    ∷ []

abbrev events : List DomainCompletionEntry
events = transfer 7 ∷ imm_data 3 ∷ transfer 8 ∷ transfer 7 ∷ transfer 7 ∷ []

abbrev empty_transfer : Map WriteOpContext
empty_transfer =
    (5, record { num_used_domains = 0; cnt_domain_completion = 0; tx_counter = none }) ∷ []

handled_run :
    let (ops, m) = handle_all events tracked zeroed in (ops ≡ []) × (m.cell 1 ≡ 1) × (m.cell 2 ≡ 0)
unfolding handle_all on_completion lookup insert erase done fetch_add
handled_run = (refl, refl, refl)

settlements :
    (settle 2 7 events ≡ completed)
    × (settle 3 7 (failed 7 (custom "nic") ∷ events) ≡ errored)
    × (settle 4 7 events ≡ pending)
unfolding settle
settlements = (refl, refl, refl)

waits : Waits 7 2 tx tracked
unfolding lookup
waits = record {
  ctx = record { num_used_domains = 2; cnt_domain_completion = 0; tx_counter = some tx };
  found = refl;
  has_counter = refl;
  waits = refl;
}

sole : IsSole 7 tx tracked
unfolding lookup
sole j c s ne found has = absurd (ground arith)

settles_once_example : IsSettled 7 tx completed zeroed (handle_all events tracked zeroed)
unfolding settle
settles_once_example =
    settles_once 7 2 tx events tracked zeroed (omega arith) (omega arith) waits sole

abbrev nics : DomainGroup Nic
nics = record {
  domains =
      record (nic 0) { queue = transfer 7 ∷ [] }
      ∷ nic 1
      ∷ record (nic 2) { queue = transfer 8 ∷ imm_data 3 ∷ [] }
      ∷ [];
  write_ops = tracked;
  rr_next = 0;
  next_peer_group_handle = 0;
  peer_groups = [];
}

polled_run : (get_completion recorder nics zeroed).0 ≡ some (transfer 8)
unfolding get_completion lookup insert erase done fetch_add
polled_run = refl

get_completion_lem_example :
    let (r, g', m') = get_completion recorder nics zeroed in
    Polled recorder nics.domains g'.domains tracked g'.write_ops zeroed m' r
get_completion_lem_example = get_completion_lem recorder nics zeroed

never_completes_example :
    (b : WriteOpContext) × (lookup 5 (handle_all events empty_transfer zeroed).0 ≡ some b)
    × (b.num_used_domains ≡ 0)
unfolding lookup
never_completes_example =
    never_completes 5 events empty_transfer zeroed
      (record { num_used_domains = 0; cnt_domain_completion = 0; tx_counter = none }) refl refl
      (ground arith)

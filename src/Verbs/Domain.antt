-- ===== src/Verbs/Domain.antt =====
-- fabric-lib/src/verbs/verbs_domain.rs: one NIC driven through libibverbs. Host has what the domain
-- asks of foreign code, State its fields; the other children have its operations and their
-- properties.
pub mod Heap
pub mod Host
pub mod Writes
pub mod State
pub mod Submit
pub mod Peers
pub mod Completions
pub mod Interface
pub mod Testbed
mod Tests

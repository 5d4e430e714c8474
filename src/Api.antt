-- ===== src/Api.antt =====
-- The types that the components of fabric-lib exchange: the public API (fabric-lib/src/api.rs),
-- the operations on a domain (fabric-lib/src/rdma_op.rs) and the errors
-- (fabric-lib/src/error.rs). Pointers, keys, ids and lengths are numbers; an `Arc` of a vector is
-- the vector, which nothing changes.
mod Error
mod Transfers
mod Ops
unfoldable pub use Error.*
unfoldable pub use Transfers.*
unfoldable pub use Ops.*

-- ===== src/Rpc.antt =====
-- async_grpc/rpc.cc and rpc.h: one RPC of a server, with the handler that serves it.
-- `Types` holds the data, `Events`, `Construct`, `Calls` and `Sending` the methods; the other children prove.
pub mod Types
pub mod Events
pub mod Construct
pub mod Calls
pub mod Sending
pub mod Contract
pub mod Actions
pub mod Invariant
pub mod Lifecycle
pub mod Preserve
pub mod Serve
pub mod Order
pub mod Drain
pub mod Kept
pub mod Keeps
pub mod Waiting
mod Tests

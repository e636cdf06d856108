-- ===== src/Service.antt =====
-- Service (async_grpc/service.h, service.cc): the RPCs of one gRPC service. `Defs` holds the
-- operations; the other children prove.
pub mod Defs
pub mod Invariant
pub mod Adding
pub mod Handlers
pub mod Events
pub mod Reach
pub mod Safety
pub mod Contexts
pub mod Sharing
pub mod Removal
pub mod Effects
pub mod Growth
pub mod Frame
pub mod Serving
pub mod Starting
pub mod Waiting
pub mod Drain
pub mod Example
mod Tests
mod LiveTests
mod ContextTests

-- ===== src/Server.antt =====
-- Server and Server::Builder (async_grpc/server.h, server.cc). Names parses the full name of a
-- method, Maps is the std::map by name, Builder collects the options
-- and the handlers, Threads has the threads of the queues, Lifecycle the Server itself, and Context
-- its access to the ExecutionContext.
pub mod Names
pub mod Maps
pub mod Builder
pub mod Threads
pub mod Lifecycle
pub mod Context
pub mod Shutdown
pub mod Building
pub mod EventLoop
pub mod CompletionLoop
mod Tests

-- ===== src/Client.antt =====
-- Client (async_grpc/client.h): the synchronous client, one class for each type of call. A client
-- keeps what it has had gRPC do; Calls proves about whole sequences of the calls of its methods.
pub mod Unary
pub mod ClientStreaming
pub mod ServerStreaming
pub mod Bidi
pub mod Calls
mod Tests

-- ===== src/AsyncClient/Tests.antt =====
-- The asynchronous clients (async_grpc/async_client.h) on concrete calls.
use async_grpc.Base.{true, [], ◌∷◌, Returns, ◌>>=◌}
use async_grpc.Rpc.Types.{Status, message}
use async_grpc.AsyncClient.{construct, write_streaming}
use async_grpc.AsyncClient.Streaming.{
  Streamed, started, arrived, no_more, concluded, deliver_all, rest_of_stream, reading, OneLast,
  stream_call_backs, deliver_all-OneLast,
}

-- ::grpc::NOT_FOUND.
abbrev not_found : Status
not_found = record { error_code = 5; error_message = "no such map" }

stream_call_backs_example :
    Returns (Streamed true (message 4 ∷ message 5 ∷ []) true (reading true)) (
      write_streaming (construct true)
      >>= deliver_all (started true ∷ rest_of_stream (message 4 ∷ message 5 ∷ []) true not_found))
stream_call_backs_example = stream_call_backs true (message 4 ∷ message 5 ∷ []) true not_found

deliver_all-OneLast_example :
    Returns
      (λ c. OneLast c.callback c.calls)
      (write_streaming (construct true)
        >>= deliver_all (arrived (message 4) ∷ concluded true not_found ∷ no_more ∷ []))
deliver_all-OneLast_example =
    deliver_all-OneLast true (arrived (message 4) ∷ concluded true not_found ∷ no_more ∷ [])

-- ===== src/Rpc/Lifecycle.antt =====
-- Rpc::CompletionQueueRpcEvent::Handle (async_grpc/rpc.cc), as far as the event itself goes.
use async_grpc.Base.{Bool, false, Outcome, ok, ◌>>=◌}
use async_grpc.Rpc.Types.{Event, Entry, Rpc}
use async_grpc.Rpc.Events.{get_rpc_event, put_rpc_event, append_log}

-- The event comes back: its flag is cleared.
unfoldable pub complete : Event → Rpc → Outcome Rpc
unfolding get_rpc_event put_rpc_event
complete event r = do
  e ← get_rpc_event event r
  r1 ← put_rpc_event event (record e { pending = false }) r
  ok (append_log (Entry.completed event) r1)

-- Server::RunCompletionQueue stores whether the operation succeeded.
unfoldable pub store_ok : Event → Bool → Rpc → Outcome Rpc
unfolding get_rpc_event put_rpc_event
store_ok event success r = do
  e ← get_rpc_event event r
  put_rpc_event event (record e { ok = success }) r

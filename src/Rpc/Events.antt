-- ===== src/Rpc/Events.antt =====
-- Rpc's events and their pending flags (async_grpc/rpc.cc, from GetRpcEvent on).
use async_grpc.Base.{Bool, ◌||◌, ◌∷◌, Outcome, ok, fault, ◌>>=◌, log_fatal}
use async_grpc.Rpc.Types.{Event, CompletionQueueRpcEvent, Entry, Rpc}

-- Rpc::GetRpcEvent, for a read.
unfoldable pub get_rpc_event : Event → Rpc → Outcome CompletionQueueRpcEvent
get_rpc_event Event.new_connection r = ok r.new_connection_event
get_rpc_event Event.read r = ok r.read_event
get_rpc_event Event.write_needed r = fault log_fatal
get_rpc_event Event.write r = ok r.write_event
get_rpc_event Event.finish r = ok r.finish_event
get_rpc_event Event.done r = ok r.done_event

-- Rpc::GetRpcEvent, for a write through the pointer that it returns.
unfoldable pub put_rpc_event : Event → CompletionQueueRpcEvent → Rpc → Outcome Rpc
put_rpc_event Event.new_connection e r = ok (record r { new_connection_event = e })
put_rpc_event Event.read e r = ok (record r { read_event = e })
put_rpc_event Event.write_needed e r = fault log_fatal
put_rpc_event Event.write e r = ok (record r { write_event = e })
put_rpc_event Event.finish e r = ok (record r { finish_event = e })
put_rpc_event Event.done e r = ok (record r { done_event = e })

-- Rpc::SetRpcEventState, through Rpc::GetRpcEventState.
unfoldable pub set_rpc_event_state : Event → Bool → Rpc → Outcome Rpc
unfolding get_rpc_event put_rpc_event
set_rpc_event_state event pending r = do
  e ← get_rpc_event event r
  put_rpc_event event (record e { pending = pending }) r

unfoldable pub is_rpc_event_pending : Event → Rpc → Outcome Bool
unfolding get_rpc_event
is_rpc_event_pending event r = do e ← get_rpc_event event r; ok e.pending

-- Rpc::IsAnyEventPending.
unfoldable pub is_any_event_pending : Rpc → Outcome Bool
unfolding is_rpc_event_pending
is_any_event_pending r = do
  done ← is_rpc_event_pending Event.done r
  read ← is_rpc_event_pending Event.read r
  write ← is_rpc_event_pending Event.write r
  finish ← is_rpc_event_pending Event.finish r
  ok (done || (read || (write || finish)))

abbrev pub append_log : Entry → Rpc → Rpc
append_log e r = record r { log = e ∷ r.log }

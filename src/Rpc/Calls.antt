-- ===== src/Rpc/Calls.antt =====
-- The calls between an Rpc and its handler (async_grpc/rpc.cc), and reading requests.
use async_grpc.Base.{
  ℕ, ◌+◌, true, Option, none, some, List, [], ◌∷◌, ◌++◌, Outcome, ok, ◌>>=◌, or_fault,
  null_dereference,
}
use async_grpc.Rpc.Types.{
  RpcType, normal_rpc, client_streaming, server_streaming, bidi_streaming, Event, Message, Status,
  status_ok, Callback, Action, send, finish_rpc, SendItem, Entry, Rpc,
}
use async_grpc.Rpc.Events.{set_rpc_event_state, append_log}
use async_grpc.Rpc.Construct.{async_reader_interface}

-- Rpc::EnqueueMessage.
unfoldable pub enqueue_message : SendItem → Rpc → Rpc
enqueue_message item r = record r { send_queue = r.send_queue ++ item ∷ [] }

-- The event queue takes one more InternalRpcEvent of the kind WRITE_NEEDED.
abbrev pub push_write_needed : Rpc → Rpc
push_write_needed r = record r { write_needed_events = r.write_needed_events + 1 }

-- SetRpcEventState(READ) and the call of Read, for the request-streaming types.
unfoldable pub start_read : Rpc → Outcome Rpc
unfolding set_rpc_event_state async_reader_interface
start_read r = do
  r1 ← set_rpc_event_state Event.read true r
  i ← async_reader_interface r.rpc_type r.interfaces
  ok (append_log (Entry.start_read i) r1)

-- `weak_ptr_factory` is the Rpc's member of that name, Rpc::WeakPtrFactory.
module _ (weak_ptr_factory : ℕ → Outcome ℕ) where
  -- Rpc::Write.
  unfoldable pub write : Message → Rpc → Outcome Rpc
  unfolding enqueue_message
  write m r = do
    let r1 = enqueue_message (record { msg = some m; status = status_ok }) r
    weak ← weak_ptr_factory r.this
    ok (push_write_needed r1)

  -- Rpc::Finish.
  unfoldable pub finish : Status → Rpc → Outcome Rpc
  unfolding enqueue_message
  finish status r = do
    let r1 = enqueue_message (record { msg = none; status = status }) r
    weak ← weak_ptr_factory r.this
    ok (push_write_needed r1)

  -- RpcHandler::Send and RpcHandler::Finish, in the order in which the handler calls them.
  unfoldable pub perform_actions : List Action → Rpc → Outcome Rpc
  unfolding write finish
  perform_actions [] r = ok r
  perform_actions (send m ∷ next) r = do r1 ← write m r; perform_actions next r1
  perform_actions (finish_rpc s ∷ next) r = do r1 ← finish s r; perform_actions next r1

  -- A call of the handler, which may call back.
  unfoldable pub call_handler : Callback → Rpc → Outcome Rpc
  unfolding perform_actions
  call_handler c r = do
    past ← or_fault null_dereference r.handler
    perform_actions (r.rpc_handler_factory (c ∷ past)) (record r { handler = some (c ∷ past) })

  -- Rpc::OnRequest, Rpc::OnReadsDone and Rpc::OnFinish.
  unfoldable pub on_request : Rpc → Outcome Rpc
  unfolding call_handler
  on_request r = call_handler (Callback.on_request r.request) r

  unfoldable pub on_reads_done : Rpc → Outcome Rpc
  unfolding call_handler
  on_reads_done r = call_handler Callback.on_reads_done r

  unfoldable pub on_finish : Rpc → Outcome Rpc
  unfolding call_handler
  on_finish r = call_handler Callback.on_finish r

  -- The switch of Rpc::RequestStreamingReadIfNeeded.
  unfoldable pub streaming_read_if_needed : RpcType → Rpc → Outcome Rpc
  unfolding start_read on_request on_reads_done
  streaming_read_if_needed bidi_streaming r = start_read r
  streaming_read_if_needed client_streaming r = start_read r
  streaming_read_if_needed normal_rpc r = do r1 ← on_request r; on_reads_done r1
  streaming_read_if_needed server_streaming r = do r1 ← on_request r; on_reads_done r1

  unfoldable pub request_streaming_read_if_needed : Rpc → Outcome Rpc
  unfolding streaming_read_if_needed
  request_streaming_read_if_needed r = streaming_read_if_needed r.rpc_type r

  -- The test of Rpc::OnConnection, and the factory, which also calls Initialize.
  unfoldable pub instantiate_handler : Option (List Callback) → Rpc → Outcome Rpc
  unfolding perform_actions
  instantiate_handler (some past) r = ok r
  instantiate_handler none r = do
    r1 ← perform_actions (r.rpc_handler_factory (Callback.initialize ∷ [])) r
    ok (record r1 { handler = some (Callback.initialize ∷ []) })

  -- Rpc::OnConnection.
  unfoldable pub on_connection : Rpc → Outcome Rpc
  unfolding instantiate_handler request_streaming_read_if_needed
  on_connection r = do r1 ← instantiate_handler r.handler r; request_streaming_read_if_needed r1

-- ===== src/Rpc/Sending.antt =====
-- The send queue of an Rpc (async_grpc/rpc.cc): HandleSendQueue, PerformWrite, PerformFinish.
use async_grpc.Base.{
  Bool, true, false, not, ◌||◌, Option, none, some, List, [], ◌∷◌, Outcome, ok, fault, ◌>>=◌, ◌>>◌,
  check, check_failed, if◌then◌else◌,
}
use async_grpc.Rpc.Types.{
  RpcType, normal_rpc, client_streaming, server_streaming, bidi_streaming, Event, Message, Status,
  SendItem, Interface, response_writer, reader, reader_writer, writer, Entry, Rpc,
}
use async_grpc.Rpc.Events.{set_rpc_event_state, is_rpc_event_pending, append_log}
use async_grpc.Rpc.Construct.{async_writer_interface, deref_interface}

-- SendUnaryFinish.
unfoldable send_unary_finish : Interface → Status → Option Message → Entry
send_unary_finish i status (some m) = Entry.finish_unary i m status
send_unary_finish i status none = Entry.finish_with_error i status

abbrev pub is_null : Option Message → Bool
is_null none = true
is_null (some m) = false

-- The switch of Rpc::PerformFinish.
unfoldable finish_by_type : RpcType → Option Message → Status → Rpc → Outcome Rpc
unfolding send_unary_finish
finish_by_type bidi_streaming m status r = do
  check (is_null m)
  i ← deref_interface reader_writer r.interfaces.server_async_reader_writer
  ok (append_log (Entry.finish i status) r)
finish_by_type client_streaming m status r = do
  let r1 = record r { response = m }
  i ← deref_interface reader r.interfaces.server_async_reader
  ok (append_log (send_unary_finish i status m) r1)
finish_by_type normal_rpc m status r = do
  let r1 = record r { response = m }
  i ← deref_interface response_writer r.interfaces.server_async_response_writer
  ok (append_log (send_unary_finish i status m) r1)
finish_by_type server_streaming m status r = do
  check (is_null m)
  i ← deref_interface writer r.interfaces.server_async_writer
  ok (append_log (Entry.finish i status) r)

-- Rpc::PerformFinish.
unfoldable perform_finish : Option Message → Status → Rpc → Outcome Rpc
unfolding set_rpc_event_state finish_by_type
perform_finish m status r = do
  r1 ← set_rpc_event_state Event.finish true r
  finish_by_type r.rpc_type m status r1

-- The test for a type whose response is not a stream.
abbrev pub has_unary_response : RpcType → Bool
has_unary_response normal_rpc = true
has_unary_response client_streaming = true
has_unary_response server_streaming = false
has_unary_response bidi_streaming = false

-- Rpc::PerformWrite.
unfoldable perform_write : Option Message → Status → Rpc → Outcome Rpc
unfolding set_rpc_event_state async_writer_interface
perform_write none status r = fault check_failed
perform_write (some m) status r = do
  check (not (has_unary_response r.rpc_type))
  r1 ← set_rpc_event_state Event.write true r
  i ← async_writer_interface r.rpc_type r.interfaces
  ok (append_log (Entry.start_write i m) (record r1 { response = some m }))

-- The part of Rpc::HandleSendQueue after the front item is taken off.
unfoldable pub send_item : SendItem → Rpc → Outcome Rpc
unfolding perform_finish perform_write
send_item item r =
    if is_null item.msg || has_unary_response r.rpc_type
    then perform_finish item.msg item.status r
    else perform_write item.msg item.status r

-- Rpc::HandleSendQueue, given the queue and whether a WRITE or a FINISH is pending.
unfoldable pub send_front : List SendItem → Bool → Rpc → Outcome Rpc
unfolding send_item
send_front [] busy r = ok r
send_front (item ∷ rest) true r = ok r
send_front (item ∷ rest) false r = send_item item (record r { send_queue = rest })

unfoldable pub handle_send_queue : Rpc → Outcome Rpc
unfolding is_rpc_event_pending send_front
handle_send_queue r = do
  write_pending ← is_rpc_event_pending Event.write r
  finish_pending ← is_rpc_event_pending Event.finish r
  send_front r.send_queue (write_pending || finish_pending) r

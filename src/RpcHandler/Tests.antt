-- ===== src/RpcHandler/Tests.antt =====
-- A Writer (async_grpc/rpc_handler.h) of the object of a concrete service.
use async_grpc.Base.{◌≡◌, true, some, arith}
use async_grpc.Base.Assoc.{lookup}
use async_grpc.Rpc.Types.{status_ok}
use async_grpc.Rpc.Lifecycle.{store_ok, complete}
use async_grpc.Rpc.Events.{set_rpc_event_state, get_rpc_event, put_rpc_event}
use async_grpc.Rpc.Construct.{
  construct, streaming_interface, async_writer_interface, async_reader_interface,
  request_next_method_invocation,
}
use async_grpc.Rpc.Calls.{
  on_connection, instantiate_handler, streaming_read_if_needed, start_read, perform_actions, write,
  finish, on_reads_done, on_finish, call_handler,
}
use async_grpc.Rpc.Sending.{handle_send_queue, send_item}
use async_grpc.Service.Defs.{
  init, start_serving, call_method, await_next, handle_completion, handle_internal,
}
use async_grpc.Service.Reach.{act}
use async_grpc.Service.Example.{
  one_queue-HasQueues, serving_service, accepted_service, connected_service, sending_service,
  connected-Reach, sending-Reach, failed_read_service, reads_done_service, finishing_service,
  finished_service,
}
use async_grpc.Rpc.Types.{Rpc}
use async_grpc.Rpc.Invariant.{is_connected}
use async_grpc.RpcHandler.{finishes, call_writer, after_writer, call_writer_lem}

the_object-is_connected :
    (r : Rpc) → lookup 0 sending_service.active_rpcs ≡ some r → is_connected r.log ≡ true
unfolding start_serving init request_next_method_invocation set_rpc_event_state get_rpc_event
    put_rpc_event streaming_interface call_method store_ok complete handle_completion await_next
    on_connection instantiate_handler streaming_read_if_needed start_read async_reader_interface act
    perform_actions write handle_internal handle_send_queue send_item on_reads_done call_handler
    finish on_finish async_writer_interface serving_service accepted_service connected_service
    sending_service failed_read_service reads_done_service finishing_service finished_service
    construct lookup
the_object-is_connected r e = ground arith

-- The object is locked once it is connected, and used after it has sent.
call_writer_lem_example :
    call_writer (finishes status_ok) 0 connected_service sending_service
    ≡ after_writer (finishes status_ok) 0 connected_service sending_service
call_writer_lem_example =
    call_writer_lem one_queue-HasQueues connected-Reach sending-Reach 0 the_object-is_connected
      (finishes status_ok)

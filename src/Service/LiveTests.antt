-- ===== src/Service/LiveTests.antt =====
-- What a service like that of Example (async_grpc/service.cc) goes on to do.
use async_grpc.Base.{inl, refl, [], ◌∷◌, Returns, arith}
use async_grpc.Base.Assoc.{lookup}
use async_grpc.Rpc.Lifecycle.{store_ok, complete}
use async_grpc.Rpc.Events.{set_rpc_event_state, get_rpc_event, put_rpc_event}
use async_grpc.Rpc.Construct.{
  construct, streaming_interface, async_writer_interface, async_reader_interface,
  request_next_method_invocation,
}
use async_grpc.Rpc.Calls.{
  on_connection, instantiate_handler, streaming_read_if_needed, start_read, perform_actions, write,
  finish, on_reads_done, on_finish, call_handler,
}
use async_grpc.Rpc.Sending.{handle_send_queue, send_item}
use async_grpc.Service.Defs.{
  init, start_serving, call_method, await_next, handle_completion, handle_internal,
}
use async_grpc.Service.Reach.{act}
use async_grpc.Service.Serving.{HasWaiting}
use async_grpc.Service.Waiting.{reachable-HasWaiting}
use async_grpc.Service.Drain.{Drained, rounds, reachable-Drained}
use async_grpc.Service.Example.{
  echo_info, one_queue-HasQueues, the_rpc, serving_service, accepted_service, connected_service,
  connected-Reach, sending_service, sending-Reach, failed_read_service, reads_done_service,
  finishing_service, finished_service,
}

reachable-HasWaiting_example : HasWaiting 0 0 echo_info connected_service
unfolding start_serving init request_next_method_invocation set_rpc_event_state get_rpc_event
    put_rpc_event streaming_interface call_method store_ok complete handle_completion await_next
    on_connection instantiate_handler streaming_read_if_needed start_read async_reader_interface act
    perform_actions write handle_internal handle_send_queue send_item on_reads_done call_handler
    finish on_finish async_writer_interface serving_service accepted_service connected_service
    sending_service failed_read_service reads_done_service finishing_service finished_service
    construct lookup
reachable-HasWaiting_example =
    reachable-HasWaiting one_queue-HasQueues connected-Reach 0 0 0 (69 ∷ []) echo_info refl refl
      refl

reachable-Drained_example :
    Returns (Drained 0 (the_rpc sending_service)) (rounds 1 0 sending_service)
unfolding start_serving init request_next_method_invocation set_rpc_event_state get_rpc_event
    put_rpc_event streaming_interface call_method store_ok complete handle_completion await_next
    on_connection instantiate_handler streaming_read_if_needed start_read async_reader_interface act
    perform_actions write handle_internal handle_send_queue send_item on_reads_done call_handler
    finish on_finish async_writer_interface serving_service accepted_service connected_service
    sending_service failed_read_service reads_done_service finishing_service finished_service
    construct lookup
reachable-Drained_example =
    reachable-Drained one_queue-HasQueues sending-Reach 1 0 (the_rpc sending_service) refl refl refl
      refl refl (inl refl, tt) (omega arith)

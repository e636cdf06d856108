-- ===== src/Service/Tests.antt =====
-- What holds of the service of Example (async_grpc/service.cc), step by step.
use async_grpc.Base.{
  ◌≡◌, refl, ◌↔◌, ◌≢◌, true, false, ◌&&◌, none, some, [], ◌∷◌, fault, use_after_free, check_failed,
  Returns, arith,
}
use async_grpc.Base.Assoc.{lookup}
use async_grpc.Rpc.Types.{Event, message, finish_rpc, status_ok}
use async_grpc.Rpc.Lifecycle.{store_ok, complete}
use async_grpc.Rpc.Events.{set_rpc_event_state, get_rpc_event, put_rpc_event}
use async_grpc.Rpc.Construct.{
  construct, streaming_interface, async_writer_interface, async_reader_interface,
  request_next_method_invocation,
}
use async_grpc.Rpc.Calls.{
  on_connection, instantiate_handler, streaming_read_if_needed, start_read, perform_actions, write,
  finish, on_reads_done, on_finish, call_handler,
}
use async_grpc.Rpc.Sending.{handle_send_queue, send_item}
use async_grpc.ActiveRpcs
use async_grpc.Rpc.Contract.{replay, allows, ends_once}
use async_grpc.Rpc.Invariant.{view}
use async_grpc.Service.Defs.{
  Service, init, start_serving, stop_serving, call_method, await_next, handle_completion,
  handle_internal, handle_new_connection, remove_if_not_pending, weak_ptr_factory,
}
use async_grpc.Service.Invariant.{Sound}
use async_grpc.Service.Reach.{Reach, act, Reach-Sound, init-Sound, later, stops}
use async_grpc.Service.Adding.{start_serving-Sound}
use async_grpc.Service.Safety.{reachable-act, reachable-follows_contract}
use async_grpc.Service.Removal.{
  Settled, remove_if_not_pending-Settled, failed_connection_faults, shutdown_drops_done,
  late_write_faults, after_done,
}
use async_grpc.Service.Example.{
  infos, one_queue, one_queue-HasQueues, or_else, the_rpc, serving_service, serving-Reach,
  accepted_service, accepted-Reach, connected_service, connected-Reach, sending_service,
  sending-Reach, failed_read_service, reads_done_service, finishing_service, finished_service,
  finished-Reach,
}

start_serving-Sound_example :
    Returns (Sound none) (start_serving (0 ∷ []) none (init infos one_queue))
start_serving-Sound_example =
    start_serving-Sound (0 ∷ []) none (init infos one_queue)
      (init-Sound infos one_queue one_queue-HasQueues)

reachable-act_example : Returns (Sound none) (act (finish_rpc status_ok) 0 sending_service)
unfolding start_serving init request_next_method_invocation set_rpc_event_state get_rpc_event
    put_rpc_event streaming_interface call_method store_ok complete handle_completion await_next
    on_connection instantiate_handler streaming_read_if_needed start_read async_reader_interface act
    perform_actions write handle_internal handle_send_queue send_item on_reads_done call_handler
    finish on_finish async_writer_interface serving_service accepted_service connected_service
    sending_service failed_read_service reads_done_service finishing_service finished_service
    construct lookup
reachable-act_example =
    reachable-act one_queue-HasQueues sending-Reach 0 (the_rpc sending_service) refl
      (finish_rpc status_ok) refl

reachable-follows_contract_example :
    (allows (the_rpc finished_service).log ≡ ends_once (the_rpc finished_service).log)
    × (replay (the_rpc finished_service).log ≡ some (view (the_rpc finished_service)))
    × (((the_rpc finished_service).write_event.pending
          && (the_rpc finished_service).finish_event.pending)
        ≡ false)
unfolding start_serving init request_next_method_invocation set_rpc_event_state get_rpc_event
    put_rpc_event streaming_interface call_method store_ok complete handle_completion await_next
    on_connection instantiate_handler streaming_read_if_needed start_read async_reader_interface act
    perform_actions write handle_internal handle_send_queue send_item on_reads_done call_handler
    finish on_finish async_writer_interface serving_service accepted_service connected_service
    sending_service failed_read_service reads_done_service finishing_service finished_service
    construct lookup
reachable-follows_contract_example =
    reachable-follows_contract one_queue-HasQueues finished-Reach 0 (the_rpc finished_service) refl

sending-waits : (the_rpc sending_service).send_queue ≢ []
unfolding start_serving init request_next_method_invocation set_rpc_event_state get_rpc_event
    put_rpc_event streaming_interface call_method store_ok complete handle_completion await_next
    on_connection instantiate_handler streaming_read_if_needed start_read async_reader_interface act
    perform_actions write handle_internal handle_send_queue send_item on_reads_done call_handler
    finish on_finish async_writer_interface serving_service accepted_service connected_service
    sending_service failed_read_service reads_done_service finishing_service finished_service
    construct lookup
sending-waits e = ground arith

remove_if_not_pending-Settled_example :
    (lookup 0 connected_service.active_rpcs ≡ none) ↔ Settled (the_rpc connected_service)
unfolding start_serving init request_next_method_invocation set_rpc_event_state get_rpc_event
    put_rpc_event streaming_interface call_method store_ok complete handle_completion await_next
    on_connection instantiate_handler streaming_read_if_needed start_read async_reader_interface act
    perform_actions write handle_internal handle_send_queue send_item on_reads_done call_handler
    finish on_finish async_writer_interface serving_service accepted_service connected_service
    sending_service failed_read_service reads_done_service finishing_service finished_service
    construct lookup remove_if_not_pending
remove_if_not_pending-Settled_example =
    remove_if_not_pending-Settled 0 connected_service connected_service (the_rpc connected_service)
      refl (Reach-Sound one_queue-HasQueues connected-Reach) refl

failed_connection_faults_example :
    handle_new_connection 0 false serving_service ≡ fault use_after_free
unfolding start_serving init request_next_method_invocation set_rpc_event_state get_rpc_event
    put_rpc_event streaming_interface call_method store_ok complete handle_completion await_next
    on_connection instantiate_handler streaming_read_if_needed start_read async_reader_interface act
    perform_actions write handle_internal handle_send_queue send_item on_reads_done call_handler
    finish on_finish async_writer_interface serving_service accepted_service connected_service
    sending_service failed_read_service reads_done_service finishing_service finished_service
    construct lookup
failed_connection_faults_example =
    failed_connection_faults 0 serving_service (the_rpc serving_service) refl
      (Reach-Sound one_queue-HasQueues serving-Reach) refl

stopping-Reach : Reach infos one_queue (0 ∷ []) (stop_serving accepted_service)
stopping-Reach = later accepted-Reach stops

unfoldable dropped_service : Service
unfolding handle_completion
dropped_service =
    or_else accepted_service
      (handle_completion Event.new_connection 0 (stop_serving accepted_service))

shutdown_drops_done_example :
    ((the_rpc accepted_service).done_event.pending ≡ true)
    × (lookup 0 dropped_service.active_rpcs ≡ none)
    × (handle_completion Event.done 0 dropped_service ≡ fault use_after_free)
unfolding start_serving init request_next_method_invocation set_rpc_event_state get_rpc_event
    put_rpc_event streaming_interface call_method store_ok complete handle_completion await_next
    on_connection instantiate_handler streaming_read_if_needed start_read async_reader_interface act
    perform_actions write handle_internal handle_send_queue send_item on_reads_done call_handler
    finish on_finish async_writer_interface serving_service accepted_service connected_service
    sending_service failed_read_service reads_done_service finishing_service finished_service
    construct lookup stop_serving dropped_service
shutdown_drops_done_example =
    shutdown_drops_done 0 (stop_serving accepted_service) dropped_service (the_rpc accepted_service)
      refl (Reach-Sound one_queue-HasQueues stopping-Reach) refl refl refl

unfoldable done_service : Service
unfolding handle_completion
done_service = or_else finished_service (handle_completion Event.done 0 finished_service)

finished-Settled : Settled (after_done (the_rpc finished_service))
unfolding start_serving init request_next_method_invocation set_rpc_event_state get_rpc_event
    put_rpc_event streaming_interface call_method store_ok complete handle_completion await_next
    on_connection instantiate_handler streaming_read_if_needed start_read async_reader_interface act
    perform_actions write handle_internal handle_send_queue send_item on_reads_done call_handler
    finish on_finish async_writer_interface serving_service accepted_service connected_service
    sending_service failed_read_service reads_done_service finishing_service finished_service
    construct lookup
finished-Settled Event.new_connection = refl
finished-Settled Event.read = refl
finished-Settled Event.write_needed = refl
finished-Settled Event.write = refl
finished-Settled Event.finish = refl
finished-Settled Event.done = refl

late_write_faults_example :
    write (weak_ptr_factory done_service) (message 9) (after_done (the_rpc finished_service))
    ≡ fault check_failed
unfolding start_serving init request_next_method_invocation set_rpc_event_state get_rpc_event
    put_rpc_event streaming_interface call_method store_ok complete handle_completion await_next
    on_connection instantiate_handler streaming_read_if_needed start_read async_reader_interface act
    perform_actions write handle_internal handle_send_queue send_item on_reads_done call_handler
    finish on_finish async_writer_interface serving_service accepted_service connected_service
    sending_service failed_read_service reads_done_service finishing_service finished_service
    construct lookup done_service ActiveRpcs.lock
late_write_faults_example =
    late_write_faults 0 finished_service done_service (the_rpc finished_service) (message 9) refl
      (Reach-Sound one_queue-HasQueues finished-Reach) finished-Settled refl

-- ===== src/Running/Tests.antt =====
-- What holds of the running server of Example (async_grpc/server.cc).
use async_grpc.Base.{false, ◌≡◌, ◌≢◌, refl, ◌⊎◌, true, none, [], ◌∷◌, Returns, All}
use async_grpc.Rpc.Types.{Event}
use async_grpc.Rpc.Lifecycle.{store_ok, complete}
use async_grpc.Rpc.Events.{set_rpc_event_state, get_rpc_event, put_rpc_event}
use async_grpc.Rpc.Construct.{
  construct, streaming_interface, async_reader_interface, request_next_method_invocation,
}
use async_grpc.Rpc.Calls.{
  on_connection, instantiate_handler, streaming_read_if_needed, start_read, perform_actions, write,
}
use async_grpc.Rpc.Invariant.{is_finished}
use async_grpc.Service.Defs.{init, start_serving, call_method, handle_completion, await_next}
use async_grpc.Service.Invariant.{Sound}
use async_grpc.Service.Reach.{act, Reach}
use async_grpc.Service.Example.{
  infos, one_queue, one_queue-HasQueues, the_rpc, serving_service, accepted_service,
  connected_service, sending_service,
}
use async_grpc.Running.{
  member_event, new_event, internal_rpc_event, handle, push_events, pop_event, run_completion,
}
use async_grpc.Running.Owned.{IsOwned}
use async_grpc.Running.Alive.{IsAlive, Stands}
use async_grpc.Running.Safety.{running-Reach, running-IsAlive, running-woken, running-handle}
use async_grpc.Running.Progress.{Advances, running-Advances}
use async_grpc.Running.Example.{accepting, connected, sending, reading, reading-Runs}

reading_up : reading.service.shutting_down ≡ false
unfolding start_serving init request_next_method_invocation set_rpc_event_state get_rpc_event
    put_rpc_event streaming_interface call_method store_ok complete handle_completion await_next
    on_connection instantiate_handler streaming_read_if_needed start_read async_reader_interface act
    perform_actions write serving_service accepted_service connected_service sending_service
    construct accepting connected sending reading run_completion push_events pop_event
reading_up = refl

running-Reach_example : Reach infos one_queue (0 ∷ []) reading.service
running-Reach_example = running-Reach one_queue-HasQueues reading-Runs reading_up

running-IsAlive_example :
    All (λ x. IsOwned x × IsAlive reading.service 0 x.event) (reading.event_queues 0)
running-IsAlive_example = running-IsAlive one_queue-HasQueues reading-Runs reading_up 0

one_item : (the_rpc reading.service).send_queue ≢ []
unfolding start_serving init request_next_method_invocation set_rpc_event_state get_rpc_event
    put_rpc_event streaming_interface call_method store_ok complete handle_completion await_next
    on_connection instantiate_handler streaming_read_if_needed start_read async_reader_interface act
    perform_actions write serving_service accepted_service connected_service sending_service
    construct accepting connected sending reading run_completion push_events pop_event
one_item e = cc

running-woken_example :
    ((the_rpc reading.service).write_event.pending ≡ true)
    ⊎ ((is_finished (the_rpc reading.service).log ≡ true)
        ⊎ Stands
            (internal_rpc_event 0)
            (reading.event_queues (the_rpc reading.service).event_queue))
unfolding start_serving init request_next_method_invocation set_rpc_event_state get_rpc_event
    put_rpc_event streaming_interface call_method store_ok complete handle_completion await_next
    on_connection instantiate_handler streaming_read_if_needed start_read async_reader_interface act
    perform_actions write serving_service accepted_service connected_service sending_service
    construct accepting connected sending reading run_completion push_events pop_event
running-woken_example =
    running-woken one_queue-HasQueues reading-Runs reading_up 0 (the_rpc reading.service) refl
      one_item

running-handle_example : Returns (Sound none) (handle (internal_rpc_event 0) reading.service)
unfolding start_serving init request_next_method_invocation set_rpc_event_state get_rpc_event
    put_rpc_event streaming_interface call_method store_ok complete handle_completion await_next
    on_connection instantiate_handler streaming_read_if_needed start_read async_reader_interface act
    perform_actions write serving_service accepted_service connected_service sending_service
    construct accepting connected sending reading run_completion push_events pop_event
running-handle_example =
    running-handle one_queue-HasQueues reading-Runs reading_up 0 (new_event 0)
      (member_event Event.read 0 ∷ []) refl

running-Advances_example : Advances reading 0 (new_event 0) (member_event Event.read 0 ∷ [])
unfolding start_serving init request_next_method_invocation set_rpc_event_state get_rpc_event
    put_rpc_event streaming_interface call_method store_ok complete handle_completion await_next
    on_connection instantiate_handler streaming_read_if_needed start_read async_reader_interface act
    perform_actions write serving_service accepted_service connected_service sending_service
    construct accepting connected sending reading run_completion push_events pop_event
running-Advances_example =
    running-Advances one_queue-HasQueues reading-Runs reading_up 0 (new_event 0)
      (member_event Event.read 0 ∷ []) refl

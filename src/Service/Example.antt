-- ===== src/Service/Example.antt =====
-- A service with one bidirectional method (async_grpc/service.cc) on a concrete run: a
-- connection, a message, the end of the stream and of the call.
use async_grpc.Base.{refl, inr, true, false, none, some, List, [], ◌∷◌, Outcome, ok, fault, arith}
use async_grpc.Base.Assoc.{lookup}
use async_grpc.Rpc.Types.{
  Name, Rpc, RpcHandlerInfo, bidi_streaming, Event, message, Callback, Action, send, finish_rpc,
  status_ok,
}
use async_grpc.EventQueueSelector.{Selector}
use async_grpc.Rpc.Lifecycle.{store_ok, complete}
use async_grpc.Rpc.Events.{set_rpc_event_state, get_rpc_event, put_rpc_event}
use async_grpc.Rpc.Construct.{
  construct, streaming_interface, async_writer_interface, async_reader_interface,
  request_next_method_invocation,
}
use async_grpc.Rpc.Calls.{
  on_connection, instantiate_handler, streaming_read_if_needed, start_read, perform_actions, write,
  finish, on_reads_done, on_finish, call_handler,
}
use async_grpc.Rpc.Sending.{handle_send_queue, send_item}
use async_grpc.Service.Defs.{
  Service, init, start_serving, call_method, handle_completion, handle_internal, await_next,
}
use async_grpc.Service.Invariant.{HasQueues}
use async_grpc.Service.Reach.{Reach, act, serving, later, stores, completes, acts, wakes}

-- A handler that sends back every request, and finishes with the stream.
abbrev echo : List Callback → List Action
echo (Callback.on_request m ∷ past) = send m ∷ []
echo (Callback.on_reads_done ∷ past) = finish_rpc status_ok ∷ []
echo _ = []

abbrev pub echo_info : RpcHandlerInfo
echo_info = record {
  request_descriptor = 0;
  response_descriptor = 1;
  rpc_handler_factory = echo;
  rpc_type = bidi_streaming;
  fully_qualified_name = 47 ∷ 84 ∷ 47 ∷ 69 ∷ [];
}

abbrev pub infos : List (Name × RpcHandlerInfo)
infos = (69 ∷ [], echo_info) ∷ []

abbrev pub one_queue : Selector
one_queue = record { num_event_threads = 1; event_queue_threads = 1; current_event_queue_id = 0 }

pub one_queue-HasQueues : HasQueues one_queue
one_queue-HasQueues = record { some_thread = omega arith; enough = omega arith }

abbrev pub or_else : Service → Outcome Service → Service
or_else s (ok t) = t
or_else s (fault e) = s

unfoldable pub serving_service : Service
unfolding start_serving init
serving_service =
    or_else (init infos one_queue) (start_serving (0 ∷ []) none (init infos one_queue))

-- The object in flight of the service.
abbrev pub the_rpc : Service → Rpc
the_rpc s = elim (lookup 0 s.active_rpcs) [ none ↦ construct 0 0 0 0 none echo_info | some r ↦ r ]

unfoldable pub accepted_service : Service
unfolding call_method store_ok
accepted_service =
    or_else serving_service (call_method 0 (store_ok Event.new_connection true) serving_service)

unfoldable pub connected_service : Service
unfolding handle_completion
connected_service =
    or_else accepted_service (handle_completion Event.new_connection 0 accepted_service)

unfoldable pub sending_service : Service
unfolding act
sending_service = or_else connected_service (act (send (message 7)) 0 connected_service)

-- The client ends its stream, so that the handler finishes, and only DONE is left.
unfoldable pub failed_read_service : Service
unfolding call_method store_ok
failed_read_service =
    or_else connected_service (call_method 0 (store_ok Event.read false) connected_service)

unfoldable pub reads_done_service : Service
unfolding handle_completion
reads_done_service =
    or_else failed_read_service (handle_completion Event.read 0 failed_read_service)

unfoldable pub finishing_service : Service
unfolding handle_internal
finishing_service = or_else reads_done_service (handle_internal 0 reads_done_service)

unfoldable pub finished_service : Service
unfolding handle_completion
finished_service = or_else finishing_service (handle_completion Event.finish 0 finishing_service)

pub serving-Reach : Reach infos one_queue (0 ∷ []) serving_service
unfolding start_serving init request_next_method_invocation set_rpc_event_state get_rpc_event
    put_rpc_event streaming_interface call_method store_ok complete handle_completion await_next
    on_connection instantiate_handler streaming_read_if_needed start_read async_reader_interface act
    perform_actions write handle_internal handle_send_queue send_item on_reads_done call_handler
    finish on_finish async_writer_interface serving_service accepted_service connected_service
    sending_service failed_read_service reads_done_service finishing_service finished_service
    construct
serving-Reach = serving none refl

pub accepted-Reach : Reach infos one_queue (0 ∷ []) accepted_service
unfolding start_serving init request_next_method_invocation set_rpc_event_state get_rpc_event
    put_rpc_event streaming_interface call_method store_ok complete handle_completion await_next
    on_connection instantiate_handler streaming_read_if_needed start_read async_reader_interface act
    perform_actions write handle_internal handle_send_queue send_item on_reads_done call_handler
    finish on_finish async_writer_interface serving_service accepted_service connected_service
    sending_service failed_read_service reads_done_service finishing_service finished_service
    construct
accepted-Reach = later serving-Reach (stores Event.new_connection true 0 refl refl)

pub connected-Reach : Reach infos one_queue (0 ∷ []) connected_service
unfolding start_serving init request_next_method_invocation set_rpc_event_state get_rpc_event
    put_rpc_event streaming_interface call_method store_ok complete handle_completion await_next
    on_connection instantiate_handler streaming_read_if_needed start_read async_reader_interface act
    perform_actions write handle_internal handle_send_queue send_item on_reads_done call_handler
    finish on_finish async_writer_interface serving_service accepted_service connected_service
    sending_service failed_read_service reads_done_service finishing_service finished_service
    construct
connected-Reach = later accepted-Reach (completes Event.new_connection 0 refl refl (inr refl) refl)

pub sending-Reach : Reach infos one_queue (0 ∷ []) sending_service
unfolding start_serving init request_next_method_invocation set_rpc_event_state get_rpc_event
    put_rpc_event streaming_interface call_method store_ok complete handle_completion await_next
    on_connection instantiate_handler streaming_read_if_needed start_read async_reader_interface act
    perform_actions write handle_internal handle_send_queue send_item on_reads_done call_handler
    finish on_finish async_writer_interface serving_service accepted_service connected_service
    sending_service failed_read_service reads_done_service finishing_service finished_service
    construct
sending-Reach = later connected-Reach (acts (send (message 7)) 0 refl refl refl)

failed_read-Reach : Reach infos one_queue (0 ∷ []) failed_read_service
unfolding start_serving init request_next_method_invocation set_rpc_event_state get_rpc_event
    put_rpc_event streaming_interface call_method store_ok complete handle_completion await_next
    on_connection instantiate_handler streaming_read_if_needed start_read async_reader_interface act
    perform_actions write handle_internal handle_send_queue send_item on_reads_done call_handler
    finish on_finish async_writer_interface serving_service accepted_service connected_service
    sending_service failed_read_service reads_done_service finishing_service finished_service
    construct
failed_read-Reach = later connected-Reach (stores Event.read false 0 refl refl)

reads_done-Reach : Reach infos one_queue (0 ∷ []) reads_done_service
unfolding start_serving init request_next_method_invocation set_rpc_event_state get_rpc_event
    put_rpc_event streaming_interface call_method store_ok complete handle_completion await_next
    on_connection instantiate_handler streaming_read_if_needed start_read async_reader_interface act
    perform_actions write handle_internal handle_send_queue send_item on_reads_done call_handler
    finish on_finish async_writer_interface serving_service accepted_service connected_service
    sending_service failed_read_service reads_done_service finishing_service finished_service
    construct
reads_done-Reach = later failed_read-Reach (completes Event.read 0 refl refl tt refl)

finishing-Reach : Reach infos one_queue (0 ∷ []) finishing_service
unfolding start_serving init request_next_method_invocation set_rpc_event_state get_rpc_event
    put_rpc_event streaming_interface call_method store_ok complete handle_completion await_next
    on_connection instantiate_handler streaming_read_if_needed start_read async_reader_interface act
    perform_actions write handle_internal handle_send_queue send_item on_reads_done call_handler
    finish on_finish async_writer_interface serving_service accepted_service connected_service
    sending_service failed_read_service reads_done_service finishing_service finished_service
    construct
finishing-Reach = later reads_done-Reach (wakes 0 refl)

pub finished-Reach : Reach infos one_queue (0 ∷ []) finished_service
unfolding start_serving init request_next_method_invocation set_rpc_event_state get_rpc_event
    put_rpc_event streaming_interface call_method store_ok complete handle_completion await_next
    on_connection instantiate_handler streaming_read_if_needed start_read async_reader_interface act
    perform_actions write handle_internal handle_send_queue send_item on_reads_done call_handler
    finish on_finish async_writer_interface serving_service accepted_service connected_service
    sending_service failed_read_service reads_done_service finishing_service finished_service
    construct
finished-Reach = later finishing-Reach (completes Event.finish 0 refl refl tt refl)

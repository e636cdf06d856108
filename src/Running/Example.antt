-- ===== src/Running/Example.antt =====
-- The service with one bidirectional method (async_grpc/service.cc) on a run through its event queue:
-- a connection comes in, the handler's writer sends a message, and a request comes in.
use async_grpc.Base.{
  ℕ, ◌≢◌, refl, sym, ap, inr, true, Option, none, some, [], ◌∷◌, Outcome, ok, fault,
}
use async_grpc.Rpc.Types.{Rpc, Event, message, send}
use async_grpc.Rpc.Lifecycle.{store_ok, complete}
use async_grpc.Rpc.Events.{set_rpc_event_state, get_rpc_event, put_rpc_event}
use async_grpc.Rpc.Construct.{
  construct, streaming_interface, async_reader_interface, request_next_method_invocation,
}
use async_grpc.Rpc.Calls.{
  on_connection, instantiate_handler, streaming_read_if_needed, start_read, perform_actions, write,
}
use async_grpc.Service.Defs.{init, start_serving, call_method, handle_completion, await_next}
use async_grpc.Service.Reach.{act}
use async_grpc.Service.Example.{
  infos, one_queue, serving_service, accepted_service, connected_service, sending_service,
}
use async_grpc.Running.{
  Running, member_event, new_event, handle, push_events, pop_event, run_completion, events_of,
  count, Turn, Runs, start,
}

abbrev or_stay : Running → Outcome Running → Running
or_stay w (ok w1) = w1
or_stay w (fault e) = w

new_connection_is_not_done : Event.new_connection ≢ Event.done
new_connection_is_not_done e = cc

read_is_not_done : Event.read ≢ Event.done
read_is_not_done e = cc

abbrev pushed_by : Option Rpc → ℕ
pushed_by none = 0
pushed_by (some r) = r.write_needed_events

unfoldable pub accepting : Running
unfolding run_completion
accepting =
    or_stay (start serving_service)
      (run_completion Event.new_connection true 0 (start serving_service))

unfoldable pub connected : Running
unfolding push_events pop_event accepting
connected = record {
  service = connected_service;
  event_queues = push_events 0 [] (pop_event 0 [] accepting.event_queues);
}

unfoldable pub sending : Running
unfolding push_events connected
sending = record {
  service = sending_service;
  event_queues = push_events 0 (new_event 0 ∷ []) connected.event_queues;
}

unfoldable pub reading : Running
unfolding run_completion sending
reading = or_stay sending (run_completion Event.read true 0 sending)

pub reading-Runs : Runs infos one_queue (0 ∷ []) reading
unfolding start_serving init request_next_method_invocation set_rpc_event_state get_rpc_event
    put_rpc_event streaming_interface call_method store_ok complete handle_completion await_next
    on_connection instantiate_handler streaming_read_if_needed start_read async_reader_interface act
    perform_actions write serving_service accepted_service connected_service sending_service
    construct accepting connected sending reading run_completion push_events pop_event events_of
    count handle
reading-Runs =
    Runs.goes_on
      (Runs.goes_on
        (Runs.goes_on
          (Runs.goes_on (Runs.starts {s = serving_service} none refl) (
            Turn.returns {w1 = accepting} Event.new_connection true 0 refl
              (record {
                outstanding = refl;
                once = refl;
                connection = λ e. inr refl;
                called = λ e. absurd (new_connection_is_not_done e);
              })
              refl))
          (Turn.handles {t = connected_service} 0 0 (member_event Event.new_connection 0) [] refl
            refl refl (λ r1 e. ap pushed_by (sym e))))
        (Turn.acts {t = sending_service} (send (message 7)) 0 refl refl refl))
      (Turn.returns {w1 = reading} Event.read true 0 refl
        (record {
          outstanding = refl;
          once = refl;
          connection = λ e. inr refl;
          called = λ e. absurd (read_is_not_done e);
        })
        refl)

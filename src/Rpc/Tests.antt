-- ===== src/Rpc/Tests.antt =====
-- One object of a bidirectional method (async_grpc/rpc.cc) on a concrete run.
use async_grpc.Base.{none, ℕ, ◌≡◌, refl, List, [], ◌∷◌, ◌++◌, map, Outcome, ok}
use async_grpc.Base.Assoc.{lookup}
use async_grpc.ActiveRpcs
use async_grpc.Rpc.Types.{
  Callback, Action, RpcHandlerInfo, bidi_streaming, Rpc, message, send, finish_rpc, status_ok,
}
use async_grpc.Rpc.Events.{get_rpc_event, put_rpc_event, set_rpc_event_state}
use async_grpc.Rpc.Construct.{construct, streaming_interface, async_writer_interface}
use async_grpc.Rpc.Calls.{perform_actions, write, finish}
use async_grpc.Rpc.Sending.{handle_send_queue, send_item}
use async_grpc.Rpc.Actions.{item_of}
use async_grpc.Rpc.Order.{sent, outgoing, as_wire, Moves, outgoing-Moves}

abbrev quiet : List Callback → List Action
quiet past = []

abbrev quiet_info : RpcHandlerInfo
quiet_info = record {
  request_descriptor = 0;
  response_descriptor = 1;
  rpc_handler_factory = quiet;
  rpc_type = bidi_streaming;
  fully_qualified_name = 47 ∷ 84 ∷ 47 ∷ 81 ∷ [];
}

-- The map that the object stands in.
unfoldable in_map : ℕ → Outcome ℕ
unfolding ActiveRpcs.get_weak_ptr
in_map = ActiveRpcs.get_weak_ptr {A = ℕ} ((0, 0) ∷ [])

unfoldable new_rpc : Rpc
unfolding construct
new_rpc = construct 0 0 0 0 none quiet_info

-- Two messages and the end are asked for, and the first message is sent.
abbrev wishes : List Action
wishes = send (message 1) ∷ send (message 2) ∷ finish_rpc status_ok ∷ []

unfoldable or_else : Rpc → Outcome Rpc → Rpc
or_else r (ok r1) = r1
or_else r _ = r

unfoldable asked_rpc : Rpc
unfolding new_rpc perform_actions or_else in_map
asked_rpc = or_else new_rpc (perform_actions in_map wishes new_rpc)

unfoldable sent_rpc : Rpc
unfolding asked_rpc handle_send_queue or_else
sent_rpc = or_else asked_rpc (handle_send_queue asked_rpc)

a_run : Moves in_map new_rpc wishes sent_rpc
unfolding new_rpc asked_rpc sent_rpc construct perform_actions write finish or_else
    handle_send_queue send_item streaming_interface async_writer_interface get_rpc_event
    put_rpc_event set_rpc_event_state in_map lookup
a_run = Moves.sends (Moves.acts wishes Moves.starts refl) refl

outgoing-Moves_example :
    sent sent_rpc.log ++ map (as_wire new_rpc.rpc_type) sent_rpc.send_queue
    ≡ outgoing new_rpc ++ map (as_wire new_rpc.rpc_type) (map item_of wishes)
outgoing-Moves_example = outgoing-Moves in_map a_run

-- ===== src/Service/ContextTests.antt =====
-- Two objects of a service that was started with a context at the address 7
-- (async_grpc/service.cc).
use async_grpc.Base.{◌≡◌, refl, true, false, some, none, [], ◌∷◌, ok}
use async_grpc.Base.Assoc.{lookup, update}
use async_grpc.Rpc.Events.{set_rpc_event_state, get_rpc_event, put_rpc_event}
use async_grpc.Rpc.Construct.{construct, streaming_interface, request_next_method_invocation}
use async_grpc.RpcHandler.Context.{
  make_handler, set_execution_context, set_rpc, get_context, synchronize, release,
}
use async_grpc.Service.Defs.{Service, init, start_serving, call_method}
use async_grpc.Service.Reach.{Reach}
use async_grpc.Service.Sharing.{context_of, reachable-shares_context}
use async_grpc.Service.Example.{infos, one_queue, one_queue-HasQueues, or_else}

unfoldable shared_service : Service
unfolding start_serving init
shared_service =
    or_else (init infos one_queue) (start_serving (0 ∷ 1 ∷ []) (some 7) (init infos one_queue))

shared-Reach : Reach infos one_queue (0 ∷ 1 ∷ []) shared_service
unfolding start_serving init request_next_method_invocation set_rpc_event_state get_rpc_event
    put_rpc_event streaming_interface call_method construct lookup shared_service
shared-Reach = Reach.serving (some 7) refl

reachable-shares_context_example :
    (context_of shared-Reach ≡ some 7)
    × (get_context (make_handler 1 (some 7)) (update 7 true ((7, false) ∷ [])) ≡ ok none)
    × (get_context (make_handler 1 (some 7)) (release 7 (update 7 true ((7, false) ∷ [])))
        ≡ ok (some (7, update 7 true (release 7 (update 7 true ((7, false) ∷ []))))))
unfolding start_serving init request_next_method_invocation set_rpc_event_state get_rpc_event
    put_rpc_event streaming_interface call_method construct lookup shared_service shared-Reach
    make_handler set_execution_context set_rpc get_context synchronize update
reachable-shares_context_example =
    reachable-shares_context one_queue-HasQueues shared-Reach 0 1 _ _ refl refl 7 ((7, false) ∷ [])
      _ refl

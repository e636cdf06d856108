-- ===== src/Service/Defs.antt =====
-- The operations of Service (async_grpc/service.cc), and the events that are handed to it.
use async_grpc.Base.{
  Option, ℕ, suc, ◌-◌, Bool, true, false, none, some, List, [], ◌∷◌, Outcome, ok, ◌>>=◌, or_fault,
  use_after_free, if◌then◌else◌,
}
use async_grpc.Base.Assoc.{lookup, update}
use async_grpc.Rpc.Types.{Name, Event, RpcHandlerInfo, Rpc}
use async_grpc.Rpc.Events.{get_rpc_event, is_any_event_pending}
use async_grpc.Rpc.Construct.{construct, clone, set_event_queue, request_next_method_invocation}
use async_grpc.Rpc.Calls.{
  on_connection, on_request, on_reads_done, on_finish, request_streaming_read_if_needed,
}
use async_grpc.Rpc.Sending.{handle_send_queue}
use async_grpc.Rpc.Lifecycle.{complete}
use async_grpc.ActiveRpcs
use async_grpc.EventQueueSelector.{Selector, select_next}

-- Service. `rpc_handler_infos` is the map by method name, in its order; `event_queue_selector` is
-- the state behind the function of that name; `next_address` is the allocator's next new address.
pub record Service : Type 0 where
  pub rpc_handler_infos : List (Name × RpcHandlerInfo)
  pub event_queue_selector : Selector
  pub active_rpcs : List (ℕ × Rpc)
  pub shutting_down : Bool
  pub next_address : ℕ

-- The object behind a raw pointer.
unfoldable pub deref : ℕ → Service → Outcome Rpc
unfolding lookup
deref p s = or_fault use_after_free (lookup p s.active_rpcs)

-- A method of the object behind a raw pointer.
unfoldable pub call_method : ℕ → (Rpc → Outcome Rpc) → Service → Outcome Service
unfolding deref update
call_method p method s = do
  r ← deref p s
  r1 ← method r
  ok (record s { active_rpcs = update p r1 s.active_rpcs })

-- active_rpcs_.Remove(rpc).
unfoldable pub remove : ℕ → Service → Service
unfolding ActiveRpcs.remove
remove p s = record s { active_rpcs = (ActiveRpcs.remove p s.active_rpcs).0 }

-- active_rpcs_.Add of a new object, and RequestNextMethodInvocation on it.
unfoldable pub add_and_request : Rpc → Service → Outcome Service
unfolding ActiveRpcs.add call_method
add_and_request rpc s = do
  rpcs ← ActiveRpcs.add rpc.this rpc s.active_rpcs
  call_method rpc.this request_next_method_invocation
      (record s { active_rpcs = rpcs; next_address = suc s.next_address })

-- Service::Service.
unfoldable pub init : List (Name × RpcHandlerInfo) → Selector → Service
init infos selector = record {
  rpc_handler_infos = infos;
  event_queue_selector = selector;
  active_rpcs = [];
  shutting_down = false;
  next_address = 0;
}

-- One round of the inner loop of Service::StartServing.
unfoldable pub start_rpc : ℕ → ℕ → Option ℕ → RpcHandlerInfo → Service → Outcome Service
unfolding select_next construct add_and_request
start_rpc i completion_queue execution_context info s = do
  selected ← select_next s.event_queue_selector
  add_and_request (construct s.next_address i completion_queue selected.0 execution_context info)
      (record s { event_queue_selector = selected.1 })

-- The inner loop of Service::StartServing, over the completion queues.
unfoldable pub start_method : ℕ → RpcHandlerInfo → List ℕ → Option ℕ → Service → Outcome Service
unfolding start_rpc
start_method i info [] execution_context s = ok s
start_method i info (c ∷ cs) execution_context s = do
  s1 ← start_rpc i c execution_context info s
  start_method i info cs execution_context s1

-- The outer loop, over the methods.
unfoldable pub start_methods :
    ℕ → List (Name × RpcHandlerInfo) → List ℕ → Option ℕ → Service → Outcome Service
unfolding start_method
start_methods i [] cs execution_context s = ok s
start_methods i ((name, info) ∷ infos) cs execution_context s = do
  s1 ← start_method i info cs execution_context s
  start_methods (suc i) infos cs execution_context s1

-- Service::StartServing.
unfoldable pub start_serving : List ℕ → Option ℕ → Service → Outcome Service
unfolding start_methods
start_serving completion_queues execution_context s =
    start_methods 0 s.rpc_handler_infos completion_queues execution_context s

-- Service::StopServing.
unfoldable pub stop_serving : Service → Service
stop_serving s = record s { shutting_down = true }

-- Service::RemoveIfNotPending.
unfoldable pub remove_if_not_pending : ℕ → Service → Outcome Service
unfolding deref is_any_event_pending remove
remove_if_not_pending p s = do
  r ← deref p s
  pending ← is_any_event_pending r
  ok (if pending then s else remove p s)

-- The end of Service::HandleNewConnection: the object for the next call.
unfoldable pub await_next : ℕ → Service → Outcome Service
unfolding deref clone set_event_queue select_next add_and_request
await_next p s = do
  r ← deref p s
  let new_rpc = clone s.next_address r
  selected ← select_next s.event_queue_selector
  add_and_request (set_event_queue selected.0 new_rpc)
      (record s { event_queue_selector = selected.1 })

-- The factory that an Rpc of this service was given.
abbrev pub weak_ptr_factory : Service → ℕ → Outcome ℕ
weak_ptr_factory s = ActiveRpcs.get_weak_ptr s.active_rpcs

-- The two tests of `ok` in Service::HandleNewConnection.
unfoldable pub connect : Bool → ℕ → Service → Outcome Service
unfolding remove call_method on_connection ActiveRpcs.get_weak_ptr
connect false p s = ok (remove p s)
connect true p s = call_method p (on_connection (weak_ptr_factory s)) s

-- Service::HandleNewConnection.
unfoldable pub handle_new_connection : ℕ → Bool → Service → Outcome Service
unfolding connect await_next
handle_new_connection p success s =
    if s.shutting_down then ok (remove p s) else (connect success p s >>= await_next p)

-- Service::HandleRead.
unfoldable pub handle_read : ℕ → Bool → Service → Outcome Service
unfolding call_method on_request on_reads_done request_streaming_read_if_needed
    remove_if_not_pending ActiveRpcs.get_weak_ptr
handle_read p true s = do
  s1 ← call_method p (on_request (weak_ptr_factory s)) s
  call_method p (request_streaming_read_if_needed (weak_ptr_factory s1)) s1
handle_read p false s = do
  s1 ← call_method p (on_reads_done (weak_ptr_factory s)) s
  remove_if_not_pending p s1

-- Service::HandleWrite. A failure is only logged.
unfoldable pub handle_write : ℕ → Bool → Service → Outcome Service
unfolding call_method handle_send_queue remove_if_not_pending
handle_write p success s = do s1 ← call_method p handle_send_queue s; remove_if_not_pending p s1

-- Service::HandleFinish. A failure is only logged.
unfoldable pub handle_finish : ℕ → Bool → Service → Outcome Service
unfolding call_method on_finish remove_if_not_pending ActiveRpcs.get_weak_ptr
handle_finish p success s = do
  s1 ← call_method p (on_finish (weak_ptr_factory s)) s
  remove_if_not_pending p s1

-- Service::HandleDone.
unfoldable pub handle_done : ℕ → Bool → Service → Outcome Service
unfolding remove_if_not_pending
handle_done p success s = remove_if_not_pending p s

-- Service::HandleEvent.
unfoldable pub handle_event : Event → ℕ → Bool → Service → Outcome Service
unfolding handle_new_connection handle_read handle_write handle_finish handle_done
handle_event Event.new_connection p success s = handle_new_connection p success s
handle_event Event.read p success s = handle_read p success s
handle_event Event.write_needed p success s = handle_write p success s
handle_event Event.write p success s = handle_write p success s
handle_event Event.finish p success s = handle_finish p success s
handle_event Event.done p success s = handle_done p success s

-- Rpc::CompletionQueueRpcEvent::Handle: the event is a member of the object.
unfoldable pub handle_completion : Event → ℕ → Service → Outcome Service
unfolding deref get_rpc_event call_method complete handle_event
handle_completion event p s = do
  s1 ← call_method p (complete event) s
  r ← deref p s1
  e ← get_rpc_event event r
  handle_event event p e.ok s1

-- The event queue gives up one InternalRpcEvent of the object.
abbrev pub pop_write_needed : Rpc → Rpc
pop_write_needed r = record r { write_needed_events = r.write_needed_events - 1 }

-- Rpc::InternalRpcEvent::Handle, for an event of the kind WRITE_NEEDED. The lock keeps the object
-- alive until the handler returns, and nothing is done with it after a removal.
unfoldable pub handle_internal : ℕ → Service → Outcome Service
unfolding ActiveRpcs.lock update handle_event
handle_internal p s = elim (ActiveRpcs.lock s.active_rpcs p) [
  | none ↦ ok s
  | some r ↦
      handle_event Event.write_needed p true
        (record s { active_rpcs = update p (pop_write_needed r) s.active_rpcs })
]

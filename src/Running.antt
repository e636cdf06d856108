-- ===== src/Running.antt =====
-- A running server (async_grpc/server.cc, rpc.h, rpc.cc): a service together with the event queues
-- through which the completion queue threads, the handlers and the writers reach its event threads.
pub mod Events
pub mod Held
pub mod Fronts
pub mod Tidy
pub mod Returning
pub mod Connecting
pub mod Serving
pub mod Steps
pub mod Owned
pub mod Alive
pub mod Safety
pub mod Progress
pub mod Example
mod Tests
use async_grpc.Base.{
  Option, ℕ, ◌+◌, ◌-◌, ◌<◌, ◌≡◌, ◌⊎◌, Bool, true, false, none, some, List, [], ◌∷◌, ◌++◌, Outcome,
  ok, ◌>>=◌, ◌==◌, if◌then◌else◌, replicate,
}
use async_grpc.Base.Assoc.{lookup}
use async_grpc.Rpc.Types.{Name, Event, Rpc, RpcHandlerInfo, Message, Action}
use async_grpc.Rpc.Invariant.{is_connected}
use async_grpc.Rpc.Lifecycle.{store_ok}
use async_grpc.Rpc.Preserve.{is_pending}
use async_grpc.EventQueueSelector.{Selector}
use async_grpc.Service.Defs.{
  Service, init, start_serving, stop_serving, deref, call_method, handle_completion,
  handle_internal,
}
use async_grpc.Service.Invariant.{put}
use async_grpc.Service.Reach.{act, fill}

-- Rpc::CompletionQueueRpcEvent, a member of its Rpc, and Rpc::InternalRpcEvent of the kind
-- WRITE_NEEDED, which holds a weak_ptr.
pub data EventBase : Type 0 where
  completion_queue_rpc_event : Event → ℕ → EventBase
  internal_rpc_event : ℕ → EventBase

-- Rpc::EventDeleter::Action.
pub data DeleterAction : Type 0 where
  delete do_not_delete : DeleterAction

-- Rpc::UniqueEventPtr, less the null pointer.
pub record UniqueEventPtr : Type 0 where
  pub event : EventBase
  pub action : DeleterAction

-- Rpc::EventDeleter: whether the event is deleted with its pointer.
unfoldable deletes : UniqueEventPtr → Bool
deletes x = elim x.action [ delete ↦ true | do_not_delete ↦ false ]

-- What PushToEventQueue pushes, and what Rpc::Write and Rpc::Finish push.
abbrev member_event : Event → ℕ → UniqueEventPtr
member_event event p = record { event = completion_queue_rpc_event event p; action = do_not_delete }

abbrev new_event : ℕ → UniqueEventPtr
new_event p = record { event = internal_rpc_event p; action = delete }

-- EventBase::event, and the object that the event is of.
abbrev event_of : EventBase → Event
event_of (completion_queue_rpc_event event p) = event
event_of (internal_rpc_event p) = Event.write_needed

abbrev rpc_of : EventBase → ℕ
rpc_of (completion_queue_rpc_event event p) = p
rpc_of (internal_rpc_event p) = p

-- EventBase::Handle.
unfoldable pub handle : EventBase → Service → Outcome Service
unfolding handle_completion handle_internal
handle (completion_queue_rpc_event event p) s = handle_completion event p s
handle (internal_rpc_event p) s = handle_internal p s

-- The service, and what each event queue holds. The queues are unbounded: a push appends.
pub record Running : Type 0 where
  pub service : Service
  pub event_queues : ℕ → List UniqueEventPtr

unfoldable pub push_events :
    ℕ → List UniqueEventPtr → (ℕ → List UniqueEventPtr) → ℕ → List UniqueEventPtr
push_events k xs queues j = if j == k then queues j ++ xs else queues j

-- What a queue holds after its front has been taken.
unfoldable pub pop_event :
    ℕ → List UniqueEventPtr → (ℕ → List UniqueEventPtr) → ℕ → List UniqueEventPtr
pop_event k rest queues j = if j == k then rest else queues j

-- One round of Server::RunCompletionQueue, with PushToEventQueue.
unfoldable pub run_completion : Event → Bool → ℕ → Running → Outcome Running
unfolding call_method store_ok deref push_events
run_completion event success p w = do
  s ← call_method p (store_ok event success) w.service
  r ← deref p s
  ok (record {
    service = s;
    event_queues = push_events r.event_queue (member_event event p ∷ []) w.event_queues;
  })

-- The events of one object in a queue.
unfoldable pub events_of : ℕ → List UniqueEventPtr → List Event
events_of p [] = []
events_of p (x ∷ xs) =
    let rest = events_of p xs in if rpc_of x.event == p then event_of x.event ∷ rest else rest

abbrev pub index : Event → ℕ
index Event.new_connection = 0
index Event.read = 1
index Event.write_needed = 2
index Event.write = 3
index Event.finish = 4
index Event.done = 5

unfoldable pub count : Event → List Event → ℕ
count e [] = 0
count e (x ∷ xs) = let rest = count e xs in if index x == index e then rest + 1 else rest

-- When gRPC may return a tag of an object whose events in its queue are given: the operation is
-- outstanding, and has not been returned yet; a call fails to come in only while the service shuts
-- down; and DONE comes only for a call that has come in, whether or not its NEW_CONNECTION has been
-- handled, so that during a shutdown DONE may stand behind a connection that is about to be dropped.
pub record MayReturn (event : Event) (success : Bool) (s : Service) (r : Rpc) (queued : List Event)
    : Type 0 where
  pub outstanding : is_pending event r ≡ true
  pub once : count event queued ≡ 0
  pub connection : event ≡ Event.new_connection → (s.shutting_down ≡ true) ⊎ (success ≡ true)
  pub called :
      event ≡ Event.done → (is_connected r.log ≡ true) ⊎ (0 < count Event.new_connection queued)

-- The object's count of its own events, before the pushes of the handler.
abbrev remaining : EventBase → Rpc → ℕ
remaining (completion_queue_rpc_event event p) r = r.write_needed_events
remaining (internal_rpc_event p) r = r.write_needed_events - 1

pub data Turn (w : Running) : Running → Type 0 where
  -- A completion queue thread takes a tag.
  returns :
      {w1 : Running} {r : Rpc} (event : Event) (success : Bool) (p : ℕ)
      → lookup p w.service.active_rpcs ≡ some r
      → MayReturn event success w.service r (events_of p (w.event_queues r.event_queue))
      → run_completion event success p w ≡ ok w1
      → Turn w w1
  -- gRPC fills the buffer of a request.
  fills :
      {r : Rpc} (m : Message) (p : ℕ)
      → lookup p w.service.active_rpcs ≡ some r
      → Turn w (record w { service = put p (fill m r) w.service })
  -- The thread of an event queue handles its front, the event of an object in flight, whose handler
  -- pushes n events. If the object stays in flight, its count of them tells n; if the event was its
  -- last one, n is left open.
  handles :
      {t : Service} {r : Rpc} (k n : ℕ) (x : UniqueEventPtr) (rest : List UniqueEventPtr)
      → w.event_queues k ≡ x ∷ rest
      → lookup (rpc_of x.event) w.service.active_rpcs ≡ some r
      → handle x.event w.service ≡ ok t
      → ((r1 : Rpc)
          → lookup (rpc_of x.event) t.active_rpcs ≡ some r1
          → r1.write_needed_events ≡ remaining x.event r + n)
      → Turn w (record {
        service = t;
        event_queues =
            push_events r.event_queue
              (replicate n (new_event (rpc_of x.event)))
              (pop_event k rest w.event_queues);
      })
  -- It ignores a stale event.
  ignores :
      {t : Service} (k : ℕ) (x : UniqueEventPtr) (rest : List UniqueEventPtr)
      → w.event_queues k ≡ x ∷ rest
      → lookup (rpc_of x.event) w.service.active_rpcs ≡ none
      → handle x.event w.service ≡ ok t
      → Turn w (record { service = t; event_queues = pop_event k rest w.event_queues })
  -- A handler's object or writer is used, after the connection.
  acts :
      {t : Service} {r : Rpc} (a : Action) (p : ℕ)
      → lookup p w.service.active_rpcs ≡ some r
      → is_connected r.log ≡ true
      → act a p w.service ≡ ok t
      → Turn w (record {
        service = t;
        event_queues = push_events r.event_queue (new_event p ∷ []) w.event_queues;
      })
  -- Service::StopServing, at any time.
  stops : Turn w (record w { service = stop_serving w.service })

abbrev pub start : Service → Running
start s = record { service = s; event_queues = λ k. [] }

-- The running servers that StartServing and any such turns lead to.
pub data Runs (infos : List (Name × RpcHandlerInfo)) (selector : Selector) (queues : List ℕ)
    : Running → Type 0 where
  starts :
      {s : Service} (execution_context : Option ℕ)
      → start_serving queues execution_context (init infos selector) ≡ ok s
      → Runs infos selector queues (start s)
  goes_on :
      {w w1 : Running} → Runs infos selector queues w → Turn w w1 → Runs infos selector queues w1

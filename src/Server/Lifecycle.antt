-- ===== src/Server/Lifecycle.antt =====
-- Server (async_grpc/server.h, server.cc) from Build to Shutdown. gRPC's BuildAndStart is taken to
-- succeed; the tracing exporter that Start registers is left out.
use async_grpc.Base.{
  ℕ, suc, Bool, true, false, not, Option, none, some, List, [], ◌∷◌, ◌++◌, map, String, Outcome, ok,
  fault, ◌>>=◌, ◌>>◌, check, or_fault, null_dereference, uninitialized, if◌then◌else◌, replicate,
}
use async_grpc.Base.Integers.{ℤ}
use async_grpc.Rpc.Types.{Name}
use async_grpc.EventQueueSelector.{Selector}
use async_grpc.Service.Defs.{Service, init, start_serving, stop_serving}
use async_grpc.Server.Maps.{emplace}
use async_grpc.Server.Builder.{Options, Builder, ServiceInfo}
use async_grpc.Server.Threads.{
  Thread, no_thread, start_thread, join, CompletionQueueThread, new_completion_queue_thread,
  start_completion_queue_thread, shutdown_completion_queue_thread, for_each,
}

-- ::grpc::ServerBuilder, by what it has been told.
pub record ServerBuilder : Type 0 where
  pub listening_port : String
  pub max_receive_message_size : ℤ
  pub max_send_message_size : ℤ
  pub registered_services : List Name

-- Server. `server` says whether server_ is set. The services share one selector, `selector`, which
-- is handed from one to the next while they start.
pub record Server (D : Type 0) : Type 0 where
  pub options : Options D
  pub shutting_down : Bool
  pub server_builder : ServerBuilder
  pub server : Bool
  pub completion_queue_threads : List CompletionQueueThread
  pub event_queue_threads : List Thread
  pub selector : Selector
  pub services : List (Name × Service)
  pub execution_context : Option ℕ

-- The completion queues, by their indices.
abbrev pub indices {ℓ} : {A : Type ℓ} → ℕ → List A → List ℕ
indices i [] = []
indices i (a ∷ l) = i ∷ indices (suc i) l

-- server_builder_.RegisterService.
abbrev register_service : Name → ServerBuilder → ServerBuilder
register_service name b = record b { registered_services = b.registered_services ++ name ∷ [] }

-- The loop of Server::Start over the services.
unfoldable pub start_services :
    List ℕ
    → Option ℕ
    → List (Name × Service)
    → Selector
    → Outcome (List (Name × Service) × Selector)
unfolding start_serving
start_services queues execution_context [] selector = ok ([], selector)
start_services queues execution_context ((name, service) ∷ m) selector = do
  service1 ←
      start_serving queues execution_context (record service { event_queue_selector = selector })
  (m1, selector1) ← start_services queues execution_context m service1.event_queue_selector
  ok ((name, service1) ∷ m1, selector1)

-- StopServing of a service in the map.
abbrev pub stop_service : Name × Service → Name × Service
stop_service (name, service) = (name, stop_serving service)

module _ {D : Type 0} where
  -- Server::Server.
  unfoldable pub new_server : Options D → Outcome (Server D)
  new_server options = do
    event_threads ← or_fault uninitialized options.num_event_threads
    grpc_threads ← or_fault uninitialized options.num_grpc_threads
    ok (record {
      options = options;
      shutting_down = false;
      server_builder = record {
        listening_port = options.server_address;
        max_receive_message_size = options.max_receive_message_size;
        max_send_message_size = options.max_send_message_size;
        registered_services = [];
      };
      server = false;
      completion_queue_threads = replicate grpc_threads new_completion_queue_thread;
      event_queue_threads = replicate event_threads no_thread;
      selector = record {
        num_event_threads = event_threads;
        event_queue_threads = event_threads;
        current_event_queue_id = 0;
      };
      services = [];
      execution_context = none;
    })

  -- Server::AddService.
  unfoldable pub add_service : Name → ServiceInfo → Server D → Outcome (Server D)
  unfolding emplace init
  add_service service_name rpc_handler_infos s = do
    let result = emplace service_name (init rpc_handler_infos s.selector) s.services
    check result.1
    ok (record s {
      services = result.0;
      server_builder = register_service service_name s.server_builder;
    })

  -- The loop of Builder::Build.
  unfoldable pub add_services : List (Name × ServiceInfo) → Server D → Outcome (Server D)
  unfolding add_service
  add_services [] s = ok s
  add_services ((name, infos) ∷ m) s = do s1 ← add_service name infos s; add_services m s1

  -- Builder::Build.
  unfoldable pub build : Builder D → Outcome (Server D)
  unfolding new_server add_services
  build b = do s ← new_server b.options; add_services b.rpc_handlers s

  -- Server::Start.
  unfoldable pub start : Server D → Outcome (Server D)
  unfolding start_services for_each start_thread start_completion_queue_thread
  start s = do
    (services, selector) ←
        start_services (indices 0 s.completion_queue_threads) s.execution_context s.services
          s.selector
    event_queue_threads ← for_each start_thread s.event_queue_threads
    completion_queue_threads ← for_each start_completion_queue_thread s.completion_queue_threads
    ok (record s {
      server = true;
      services = services;
      selector = selector;
      event_queue_threads = event_queue_threads;
      completion_queue_threads = completion_queue_threads;
    })

  -- Server::Shutdown.
  unfoldable pub shutdown : Server D → Outcome (Server D)
  unfolding for_each shutdown_completion_queue_thread join
  shutdown s = do
    let s1 = record s { shutting_down = true; services = map stop_service s.services }
    (if s1.server then ok tt else fault null_dereference)
    completion_queue_threads ← for_each shutdown_completion_queue_thread s1.completion_queue_threads
    event_queue_threads ← for_each join s1.event_queue_threads
    ok (record s1 {
      completion_queue_threads = completion_queue_threads;
      event_queue_threads = event_queue_threads;
    })

  -- Server::WaitForShutdown: whether it waits for the gRPC server.
  unfoldable wait_for_shutdown : Server D → Bool
  wait_for_shutdown s = if not s.server then false else true

  -- Server::SetExecutionContext.
  unfoldable pub set_execution_context : ℕ → Server D → Outcome (Server D)
  set_execution_context execution_context s = do
    check (not s.server)
    ok (record s { execution_context = some execution_context })

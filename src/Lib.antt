-- ===== src/Lib.antt =====
-- Verification library of async_grpc: a gRPC server that hands its asynchronous calls to handlers
-- through event queues, asynchronous clients over a pool of completion queues, and retries.
--
-- The parts and their files:
-- - Rpc (async_grpc/rpc.h, rpc.cc): one call on the server. Types has its data, Events its pending
--   flags, Construct the constructor, Clone and RequestNextMethodInvocation, Calls the callbacks
--   of the handler and Write and Finish, Sending the send queue, Lifecycle the return of an event.
--   The record Rpc holds the fields of the class; `log` is what the object has handed to gRPC and
--   got back, and `write_needed_events` counts its events in the event queue. Contract states the
--   order of operations that gRPC documents (`replay` which may be outstanding together,
--   `ends_once` that nothing is sent after the end); Actions, Invariant, Preserve, Serve, Order,
--   Waiting and Drain prove.
-- - ActiveRpcs (async_grpc/rpc.cc): the map that owns the objects in flight, by address. A removed
--   object is destroyed, so a use of its address is the fault use_after_free.
-- - EventQueueSelector (async_grpc/server.cc): the round robin over the event queues.
-- - Server (async_grpc/server.h, server.cc, event_queue_thread.cc, completion_queue_thread.cc):
--   Names parses the full name of a method, Maps is a std::map by name, Builder collects the
--   options and registers handlers, Threads has the threads of the queues, Lifecycle builds,
--   starts and shuts down the server, EventLoop and CompletionLoop are the loops of its two kinds
--   of threads (RunEventQueue, RunCompletionQueue). Builder/Registry, Building, Shutdown and
--   EventLoop/Laws prove. The event loop takes the handling of an event as a parameter, and the
--   pushes of other threads as lists, one for each wait; its second loop runs on rounds, and its
--   theorem says how many are enough.
-- - Service (async_grpc/service.h, service.cc): it creates the objects, and hands each event to
--   its object's methods. Defs holds the operations, Reach the steps of its environment: gRPC that
--   returns events, event threads that handle them, and writers, in any order. The other modules
--   prove: Invariant, Adding, Handlers and Events are about the invariant, Frame and Serving about
--   what an event leaves alone, Starting and Waiting about the objects that wait for a call, Drain
--   about send queues, Contexts and Sharing about the ExecutionContext on its way to the handlers,
--   Safety and Removal about reachable states and the end of an object.
-- - Running (async_grpc/rpc.h, server.cc): a service together with its event queues. An event
--   queue holds UniqueEventPtrs to CompletionQueueRpcEvents and InternalRpcEvents; the turns of a
--   running server are the completion queue thread that pushes a returned event, the event thread
--   that handles the front of its queue, and writers. What gRPC returns, and when, is the record
--   MayReturn. Events, Held and Tidy compare the queues with the flags of the objects, Fronts,
--   Returning, Connecting, Serving and Steps say what a turn does to them, Alive and Owned what
--   stands in them, Safety what holds of every state before StopServing, Progress that an event
--   thread can go on there. StopServing may come at any time; what a shutdown then does with a
--   DONE behind a connection is in Service/Removal.
-- - RpcHandler (async_grpc/rpc_handler.h): the Writer through which other threads use an RPC, with
--   its lock and its results; a call locks the RPC in one state of the service and uses it in
--   another. Context has a handler's pointers and its access to the ExecutionContext
--   (async_grpc/execution_context.h), and Server/Context that of the server.
-- - TypeTraits (async_grpc/type_traits.h, rpc_service_method_traits.h): the types of a method,
--   computed by the compiler.
-- - Mutex (async_grpc/common/mutex.h): threads that call methods of an object, by where each is in
--   its call; what std::mutex and std::condition_variable are documented to do is the relation
--   Step. Laws, Preserve and Safety prove.
-- - BlockingQueue (async_grpc/common/blocking_queue.h): the event queues. Each method is one step
--   of the queue, and Laws is about histories of such steps; Threads has the methods in the steps
--   of Mutex, and ThreadLaws compares the two.
-- - Retry (async_grpc/retry.h, retry.cc): when a failed call is tried again. The loop is over any
--   state that the operation, the sleep and the reset act on; Rule is its proof rule, and Deeds an
--   instance that notes what happens.
-- - Client (async_grpc/client.h): the synchronous client, one module for each type of call; Calls
--   proves about whole sequences of calls, Unary/Laws about a Write with its retries. `deeds`
--   records what a client has gRPC do.
-- - CompletionQueuePool (async_grpc/completion_queue_pool.h, completion_queue_pool.cc) and
--   AsyncClient (async_grpc/async_client.h): the clients. A client's fields `operations` and
--   `calls` record what it has gRPC do and how it calls its callback. AsyncClient/Queue is the
--   loop of the thread of a queue that several clients share.
-- - Base: outcomes of code that may abort, lists, association lists, Boolean tests.
--
-- How the code is read. A method that can end the program by CHECK, LOG(FATAL), a null pointer or
-- a destroyed object returns an Outcome, with the Fault that it met. Each handler of an event runs
-- to its end before the next step, since the code has one event thread for each object's queue,
-- and a call of a writer is a step between two handlers, or two such steps in RpcHandler. gRPC is
-- not modelled: what it is handed is recorded, and what it returns is an argument of the step. A
-- user's handler is a function from the callbacks it had so far to what it asks for. Message
-- contents stay opaque, the names of services and methods are lists of bytes, durations and
-- floating-point numbers are parameters. Where the loop of RetryWithStrategy is run on fuel, the
-- theorems say how many rounds are enough.
--
-- Not modelled: tracing (async_grpc/span.h, opencensus_span.cc), the other wrappers of the
-- standard library in async_grpc/common (time, optional, make_unique), and the test servers.
pub mod Base
pub mod Rpc
pub mod ActiveRpcs
pub mod EventQueueSelector
pub mod Service
pub mod Server
pub mod Running
pub mod Mutex
pub mod BlockingQueue
pub mod Retry
pub mod RpcHandler
pub mod TypeTraits
pub mod CompletionQueuePool
pub mod AsyncClient
pub mod Client

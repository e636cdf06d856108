-- ===== src/Rpc/Construct.antt =====
-- Rpc's constructor, its gRPC interfaces and RequestNextMethodInvocation (async_grpc/rpc.cc).
use async_grpc.Base.{
  Option, ℕ, Bool, true, false, none, some, [], Outcome, ok, fault, ◌>>=◌, log_fatal,
  null_dereference,
}
use async_grpc.Rpc.Types.{
  RpcType, normal_rpc, client_streaming, server_streaming, bidi_streaming, Event, message,
  RpcHandlerInfo, CompletionQueueRpcEvent, Interface, Interfaces, response_writer, reader,
  reader_writer, writer, Entry, Rpc,
}
use async_grpc.Rpc.Events.{set_rpc_event_state, append_log}

-- A unique_ptr that is dereferenced.
abbrev pub deref_interface : Interface → Bool → Outcome Interface
deref_interface i true = ok i
deref_interface i false = fault null_dereference

-- Rpc::InitializeReadersAndWriters, on an object with none set.
unfoldable pub initialize_readers_and_writers : RpcType → Interfaces
initialize_readers_and_writers bidi_streaming = record {
  server_async_response_writer = false;
  server_async_reader = false;
  server_async_reader_writer = true;
  server_async_writer = false;
}
initialize_readers_and_writers client_streaming = record {
  server_async_response_writer = false;
  server_async_reader = true;
  server_async_reader_writer = false;
  server_async_writer = false;
}
initialize_readers_and_writers normal_rpc = record {
  server_async_response_writer = true;
  server_async_reader = false;
  server_async_reader_writer = false;
  server_async_writer = false;
}
initialize_readers_and_writers server_streaming = record {
  server_async_response_writer = false;
  server_async_reader = false;
  server_async_reader_writer = false;
  server_async_writer = true;
}

abbrev idle_event : CompletionQueueRpcEvent
idle_event = record { ok = false; pending = false }

-- Rpc::Rpc. The address is the allocator's.
unfoldable pub construct : ℕ → ℕ → ℕ → ℕ → Option ℕ → RpcHandlerInfo → Rpc
unfolding initialize_readers_and_writers
construct this method_index completion_queue event_queue execution_context info = record {
  this = this;
  method_index = method_index;
  server_completion_queue = completion_queue;
  event_queue = event_queue;
  execution_context = execution_context;
  rpc_handler_info = info;
  new_connection_event = idle_event;
  read_event = idle_event;
  write_event = idle_event;
  finish_event = idle_event;
  done_event = idle_event;
  request = message 0;
  response = some (message 0);
  handler = none;
  interfaces = initialize_readers_and_writers info.rpc_type;
  send_queue = [];
  write_needed_events = 0;
  log = [];
}

-- Rpc::Clone.
unfoldable pub clone : ℕ → Rpc → Rpc
unfolding construct
clone this r =
    construct this r.method_index r.server_completion_queue r.event_queue r.execution_context
      r.rpc_handler_info

unfoldable pub set_event_queue : ℕ → Rpc → Rpc
set_event_queue q r = record r { event_queue = q }

-- The switch of Rpc::streaming_interface.
unfoldable pub streaming_interface : RpcType → Interfaces → Outcome Interface
streaming_interface bidi_streaming i = deref_interface reader_writer i.server_async_reader_writer
streaming_interface client_streaming i = deref_interface reader i.server_async_reader
streaming_interface normal_rpc i = deref_interface response_writer i.server_async_response_writer
streaming_interface server_streaming i = deref_interface writer i.server_async_writer

-- The switch of Rpc::async_reader_interface.
unfoldable pub async_reader_interface : RpcType → Interfaces → Outcome Interface
async_reader_interface bidi_streaming i = deref_interface reader_writer i.server_async_reader_writer
async_reader_interface client_streaming i = deref_interface reader i.server_async_reader
async_reader_interface normal_rpc i = fault log_fatal
async_reader_interface server_streaming i = fault log_fatal

-- The switch of Rpc::async_writer_interface.
unfoldable pub async_writer_interface : RpcType → Interfaces → Outcome Interface
async_writer_interface bidi_streaming i = deref_interface reader_writer i.server_async_reader_writer
async_writer_interface client_streaming i = fault log_fatal
async_writer_interface normal_rpc i = fault log_fatal
async_writer_interface server_streaming i = deref_interface writer i.server_async_writer

-- Rpc::RequestNextMethodInvocation.
unfoldable pub request_next_method_invocation : Rpc → Outcome Rpc
unfolding set_rpc_event_state streaming_interface
request_next_method_invocation r = do
  r1 ← set_rpc_event_state Event.done true r
  let r2 = append_log Entry.async_notify_when_done r1
  r3 ← set_rpc_event_state Event.new_connection true r2
  i ← streaming_interface r.rpc_type r.interfaces
  ok (append_log (Entry.request_async r.rpc_type i) r3)

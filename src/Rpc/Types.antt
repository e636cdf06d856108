-- ===== src/Rpc/Types.antt =====
-- The data of async_grpc/rpc.h and rpc_handler_interface.h.
use async_grpc.Base.{ℕ, Bool, Option, List, String, ◌==◌}

-- A std::string by its bytes, for the names of services and methods.
abbrev pub Name : Type 0
Name = List ℕ

-- ::grpc::internal::RpcMethod::RpcType.
pub data RpcType : Type 0 where
  normal_rpc client_streaming server_streaming bidi_streaming : RpcType

-- Rpc::Event.
pub data Event : Type 0 where
  new_connection read write_needed write finish done : Event

-- The contents of a protobuf message. The code never looks into one.
pub data Message : Type 0 where
  message : ℕ → Message

-- ::grpc::Status.
pub record Status : Type 0 where
  pub error_code : ℕ
  pub error_message : String

-- ::grpc::Status::ok().
abbrev pub is_ok : Status → Bool
is_ok s = s.error_code == 0

-- ::grpc::Status::OK and ::grpc::Status().
abbrev pub status_ok : Status
status_ok = record { error_code = 0; error_message = "" }

-- What a user's RpcHandler is told, and what it asks of its Rpc in return, through
-- RpcHandler::Send and RpcHandler::Finish.
pub data Callback : Type 0 where
  initialize : Callback
  on_request : Message → Callback
  on_reads_done : Callback
  on_finish : Callback

pub data Action : Type 0 where
  send : Message → Action
  finish_rpc : Status → Action

-- RpcHandlerInfo. The factory makes a handler object, whose code is the user's: it is what the
-- object asks for at a callback, given the callbacks so far, the newest first.
pub record RpcHandlerInfo : Type 0 where
  pub request_descriptor : ℕ
  pub response_descriptor : ℕ
  pub rpc_handler_factory : List Callback → List Action
  pub rpc_type : RpcType
  pub fully_qualified_name : Name

-- Rpc::CompletionQueueRpcEvent, less its constant fields `event` and `rpc_ptr`.
pub record CompletionQueueRpcEvent : Type 0 where
  pub ok : Bool
  pub pending : Bool

-- Rpc::SendItem. A null message is the request to finish.
pub record SendItem : Type 0 where
  pub msg : Option Message
  pub status : Status

-- The gRPC objects that an Rpc owns, through which it starts operations.
pub data Interface : Type 0 where
  response_writer reader reader_writer writer : Interface

-- Which of the four unique_ptrs to such objects are set.
pub record Interfaces : Type 0 where
  pub server_async_response_writer : Bool
  pub server_async_reader : Bool
  pub server_async_reader_writer : Bool
  pub server_async_writer : Bool

-- What an Rpc hands to gRPC, each with the tag of one of its events, and the tags that come back.
pub data Entry : Type 0 where
  async_notify_when_done : Entry
  request_async : RpcType → Interface → Entry
  start_read : Interface → Entry
  start_write : Interface → Message → Entry
  finish : Interface → Status → Entry
  finish_unary : Interface → Message → Status → Entry
  finish_with_error : Interface → Status → Entry
  completed : Event → Entry

-- Rpc. `this` is the object's address, a queue is named by a number, and `handler` is the handler
-- object by the callbacks it has had. `log` holds the entries so far, the newest first, and
-- `write_needed_events` counts this object's events that stand in its event queue as
-- Rpc::InternalRpcEvents, all of which are of the kind WRITE_NEEDED.
pub record Rpc : Type 0 where
  pub this : ℕ
  pub method_index : ℕ
  pub server_completion_queue : ℕ
  pub event_queue : ℕ
  pub execution_context : Option ℕ
  pub rpc_handler_info : RpcHandlerInfo
  pub open rpc_handler_info use *
  pub new_connection_event : CompletionQueueRpcEvent
  pub read_event : CompletionQueueRpcEvent
  pub write_event : CompletionQueueRpcEvent
  pub finish_event : CompletionQueueRpcEvent
  pub done_event : CompletionQueueRpcEvent
  pub request : Message
  pub response : Option Message
  pub handler : Option (List Callback)
  pub interfaces : Interfaces
  pub send_queue : List SendItem
  pub write_needed_events : ℕ
  pub log : List Entry

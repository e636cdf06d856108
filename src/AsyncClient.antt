-- ===== src/AsyncClient.antt =====
-- async_grpc/async_client.h: the asynchronous clients of unary and of server-streaming methods. A
-- client is its callback, if it still has one, the fields that gRPC fills, the operations that it
-- has started and the calls of its callback, the newest first.
pub mod Unary
pub mod Streaming
pub mod Queue
mod Tests
mod QueueTests
use async_grpc.Base.{
  Bool, true, false, Option, none, some, List, [], ◌∷◌, Outcome, ok, fault, ◌>>=◌, null_dereference,
  log_fatal, if◌then◌else◌,
}
use async_grpc.Rpc.Types.{Message, message, Status, status_ok, is_ok}

-- CompletionQueue::ClientEvent::Event (async_grpc/completion_queue_pool.h).
pub data ClientEvent : Type 0 where
  finish read write : ClientEvent

-- What a client has gRPC do: start a call, read a message, and ask for the end of the call.
pub data Operation : Type 0 where
  start_call start_read start_finish : Operation

-- One call of the callback: a status, and a response if there is one.
pub record CallbackCall : Type 0 where
  pub status : Status
  pub response : Option Message

-- The fields of both classes. `finish_status` is `status_` in the unary one.
pub record AsyncClient : Type 0 where
  pub callback : Bool
  pub response_reader : Bool
  pub response : Message
  pub finish_status : Status
  pub operations : List Operation
  pub calls : List CallbackCall

-- The constructors.
unfoldable pub construct : Bool → AsyncClient
construct callback = record {
  callback = callback;
  response_reader = false;
  response = message 0;
  finish_status = status_ok;
  operations = [];
  calls = [];
}

-- An operation started through response_reader_.
unfoldable operate : Operation → AsyncClient → Outcome AsyncClient
operate o c =
    if c.response_reader
    then ok (record c { operations = o ∷ c.operations })
    else fault null_dereference

-- callback_(status, response).
abbrev call_back : Status → Option Message → AsyncClient → AsyncClient
call_back status response c = record c {
  calls = record { status = status; response = response } ∷ c.calls;
}

-- NORMAL_RPC: HandleFinishEvent.
unfoldable handle_unary_finish : AsyncClient → AsyncClient
handle_unary_finish c =
    if c.callback
    then call_back c.finish_status (if is_ok c.finish_status then some c.response else none) c
    else c

-- NORMAL_RPC: WriteAsync.
unfoldable write_unary : AsyncClient → Outcome AsyncClient
unfolding operate
write_unary c = do
  c1 ← operate start_call (record c { response_reader = true })
  operate start_finish c1

-- NORMAL_RPC: HandleEvent.
unfoldable handle_unary_event : ClientEvent → AsyncClient → Outcome AsyncClient
unfolding handle_unary_finish
handle_unary_event finish c = ok (handle_unary_finish c)
handle_unary_event read c = fault log_fatal
handle_unary_event write c = fault log_fatal

-- ::grpc::INTERNAL, with the two messages of the server-streaming client.
abbrev write_failed : Status
write_failed = record { error_code = 13; error_message = "Write failed in async server streaming." }

abbrev finish_failed : Status
finish_failed = record {
  error_code = 13;
  error_message = "Finish failed in async server streaming.";
}

-- SERVER_STREAMING: WriteAsync.
unfoldable write_streaming : AsyncClient → Outcome AsyncClient
unfolding operate
write_streaming c = operate start_call (record c { response_reader = true })

-- `callback_(...); callback_ = nullptr;` under `if (callback_)`.
abbrev call_back_last : Status → AsyncClient → AsyncClient
call_back_last status c =
    if c.callback then record (call_back status none c) { callback = false } else c

-- SERVER_STREAMING: HandleWriteEvent.
unfoldable handle_write_event : Bool → AsyncClient → Outcome AsyncClient
unfolding operate
handle_write_event true c = operate start_read c
handle_write_event false c =
    operate start_finish (record (call_back_last write_failed c) { finish_status = write_failed })

-- SERVER_STREAMING: HandleReadEvent. The inner test of `ok` is never met.
unfoldable handle_read_event : Bool → AsyncClient → Outcome AsyncClient
unfolding operate
handle_read_event true c =
    operate start_read (if c.callback then call_back status_ok (some c.response) c else c)
handle_read_event false c = operate start_finish (record c { finish_status = status_ok })

-- SERVER_STREAMING: HandleFinishEvent.
unfoldable handle_finish_event : Bool → AsyncClient → AsyncClient
handle_finish_event success c = call_back_last (if success then status_ok else finish_failed) c

-- SERVER_STREAMING: HandleEvent.
unfoldable handle_streaming_event : ClientEvent → Bool → AsyncClient → Outcome AsyncClient
unfolding handle_write_event handle_read_event handle_finish_event
handle_streaming_event write success c = handle_write_event success c
handle_streaming_event read success c = handle_read_event success c
handle_streaming_event finish success c = ok (handle_finish_event success c)

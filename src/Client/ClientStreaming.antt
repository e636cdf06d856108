-- ===== src/Client/ClientStreaming.antt =====
-- Client<…, CLIENT_STREAMING> (async_grpc/client.h). What gRPC's ClientWriter answers is an argument
-- of each method.
use async_grpc.Base.{
  Bool, true, false, List, [], ◌∷◌, Outcome, ok, fault, ◌>>=◌, null_dereference, if◌then◌else◌,
}
use async_grpc.Rpc.Types.{Message, message, Status, status_ok, is_ok}

-- What the client has gRPC do: make the writer, write, end the stream, and finish the call.
pub data WriterDeed : Type 0 where
  created_writer : WriterDeed
  wrote : Message → WriterDeed
  ended_writes : WriterDeed
  finished : WriterDeed

-- The fields of the class: whether client_writer_ is set, and response_. `deeds` is kept newest
-- first.
pub record ClientStreaming : Type 0 where
  pub client_writer : Bool
  pub response : Message
  pub deeds : List WriterDeed

unfoldable pub construct : ClientStreaming
construct = record { client_writer = false; response = message 0; deeds = [] }

-- InstantiateClientWriterIfNeeded.
unfoldable pub instantiate_client_writer_if_needed : ClientStreaming → ClientStreaming
instantiate_client_writer_if_needed c =
    if c.client_writer
    then c
    else record c { client_writer = true; deeds = created_writer ∷ c.deeds }

-- A call through client_writer_.
unfoldable pub through : WriterDeed → ClientStreaming → Outcome ClientStreaming
through deed c =
    if c.client_writer then ok (record c { deeds = deed ∷ c.deeds }) else fault null_dereference

-- WriteImpl, which does not touch the status that it is handed.
unfoldable pub write_impl :
    Bool → Message → Status → ClientStreaming → Outcome (Bool × Status × ClientStreaming)
unfolding instantiate_client_writer_if_needed through
write_impl accepted request status c = do
  c1 ← through (wrote request) (instantiate_client_writer_if_needed c)
  ok (accepted, status, c1)

-- Write: what it returns and the status that it stores.
unfoldable pub write : Bool → Message → ClientStreaming → Outcome (Bool × Status × ClientStreaming)
unfolding write_impl
write accepted request c = do
  (result, internal_status, c1) ← write_impl accepted request status_ok c
  ok (is_ok internal_status, internal_status, c1)

-- StreamWritesDone.
unfoldable pub stream_writes_done : Bool → ClientStreaming → Outcome (Bool × ClientStreaming)
unfolding instantiate_client_writer_if_needed through
stream_writes_done accepted c = do
  c1 ← through ended_writes (instantiate_client_writer_if_needed c)
  ok (accepted, c1)

-- StreamFinish: gRPC fills response_ and returns the status.
unfoldable pub stream_finish :
    Status → Message → ClientStreaming → Outcome (Status × ClientStreaming)
unfolding instantiate_client_writer_if_needed through
stream_finish status response c = do
  c1 ← through finished (instantiate_client_writer_if_needed c)
  ok (status, record c1 { response = response })

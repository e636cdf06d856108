-- ===== src/Client/ServerStreaming.antt =====
-- Client<…, SERVER_STREAMING> (async_grpc/client.h). What gRPC's ClientReader answers is an argument
-- of each method.
use async_grpc.Base.{Bool, true, false, Option, List, [], ◌∷◌, Outcome, ok, ◌>>◌, check}
use async_grpc.Rpc.Types.{Message, Status, status_ok, is_ok}

-- What the client has gRPC do: make a reader, which sends the request, read, and finish the call.
pub data ReaderDeed : Type 0 where
  created_reader : Message → ReaderDeed
  read : ReaderDeed
  finished : ReaderDeed

-- The fields of the class: whether client_reader_ is set. `deeds` is kept newest first.
pub record ServerStreaming : Type 0 where
  pub client_reader : Bool
  pub deeds : List ReaderDeed

unfoldable pub construct : ServerStreaming
construct = record { client_reader = false; deeds = [] }

-- InstantiateClientReader, which lets go of an earlier reader.
unfoldable instantiate_client_reader : Message → ServerStreaming → ServerStreaming
instantiate_client_reader request c = record {
  client_reader = true;
  deeds = created_reader request ∷ c.deeds;
}

-- StreamRead: `none` is the end of the stream, where Read returns false.
unfoldable pub stream_read :
    Option Message → ServerStreaming → Outcome (Option Message × ServerStreaming)
stream_read response c = do
  check c.client_reader
  ok (response, record c { deeds = read ∷ c.deeds })

-- WriteImpl, which does not touch the status that it is handed.
unfoldable pub write_impl : Message → Status → ServerStreaming → Bool × Status × ServerStreaming
unfolding instantiate_client_reader
write_impl request status c = (true, status, instantiate_client_reader request c)

-- Write: what it returns and the status that it stores.
unfoldable pub write : Message → ServerStreaming → Bool × Status × ServerStreaming
unfolding write_impl
write request c =
    let (result, internal_status, c1) = write_impl request status_ok c in
    (is_ok internal_status, internal_status, c1)

-- StreamFinish.
unfoldable pub stream_finish : Status → ServerStreaming → Outcome (Status × ServerStreaming)
stream_finish status c = do
  check c.client_reader
  ok (status, record c { deeds = finished ∷ c.deeds })
